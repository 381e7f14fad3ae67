-- ===== src/Interrupts/Fair.antt =====
-- Which terminals the timer's handler of student-distrib/interrupt_handler.c serves, interrupt after
-- interrupt.
use snoop_diggity_d_os.Prelude.{ℕ, zero, suc, ◌≡◌, bit_and}
use snoop_diggity_d_os.Scheduler.{launched, round_robin_scheduler}
use snoop_diggity_d_os.Interrupts.{Kernel, Device, Interrupts, timer, device, handle}

-- A handler of a device, with the interrupts that it takes before and behind its work.
pub record Handled : Type 0 where
  pub device : Device
  pub before : Interrupts
  pub behind : Interrupts

-- What comes in time: a timer interrupt, or a device's with those that are nested in it.
abbrev pub one_tick : Kernel → Handled → Kernel
one_tick k h = handle timer (handle (device h.device h.before h.behind) k)

-- The state after `n` timer interrupts outside of the other handlers, with a device's handler before each.
pub after_ticks : (ℕ → Handled) → ℕ → Kernel → Kernel
after_ticks devices zero k = k
after_ticks devices (suc n) k = after_ticks (λ i. devices (suc i)) n (one_tick k (devices 0))

-- No process is inside a handler.
abbrev pub IsOutside : Kernel → Type 0
IsOutside k = (a : ℕ) → bit_and (k.flags a) 2 ≡ 0

-- What a timer interrupt keeps, and the terminal that it serves next.
record Turns (k k' : Kernel) : Type 0 where
  flags : (a : ℕ) → k'.flags a ≡ k.flags a
  launched : k'.terminals_launched ≡ k.terminals_launched
  serviced :
      k'.terminal_being_serviced
      ≡ (round_robin_scheduler k.terminals_launched k.terminal_being_serviced).0
