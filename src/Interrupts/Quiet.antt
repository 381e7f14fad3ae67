-- ===== src/Interrupts/Quiet.antt =====
-- The handlers of student-distrib/interrupt_handler.c under nested interrupts.
use snoop_diggity_d_os.Prelude.{
  ℕ, ◌+◌, ◌*◌, ◌/◌, ◌%◌, ◌<◌, ◌≡◌, refl, sym, ◌∙◌, ap, [], ◌∷◌, ◌++◌, Option, none, some, true, not,
  ltb, ◌&&◌, ◌==◌, bit_and, bit_or, arith, ==→eq, eq→==, Bool-cases, inl, inr,
}
use snoop_diggity_d_os.Prelude.Bits.{bit_and_split, bit_or_split, bit_and-zero, bit_or-zero}
use snoop_diggity_d_os.Prelude.Tables.{all_below, all_below_sound}
use snoop_diggity_d_os.Scheduler.{current_pcb, stack_top, round_robin_scheduler}
use snoop_diggity_d_os.Pic.{send_eoi}
use snoop_diggity_d_os.Interrupts.{
  Kernel, Device, Interrupt, Interrupts, timer, device, quiet, then_next, rtc, other,
  in_hardware_int, switch_to, irq0_handler, device_work, set_interrupt_flag, restore_flags, handle,
  handle_all,
}

-- No process is switched and no block's flags change.
pub record IsQuiet (k k' : Kernel) : Type 0 where
  pub same_flags : (a : ℕ) → k'.flags a ≡ k.flags a
  pub same_esp0 : k'.esp0 ≡ k.esp0
  pub same_switches : k'.switches ≡ k.switches
  pub same_serviced : k'.terminal_being_serviced ≡ k.terminal_being_serviced
  pub same_launched : k'.terminals_launched ≡ k.terminals_launched
  pub same_pid : (t : ℕ) → k'.terminal_pid t ≡ k.terminal_pid t

IsQuiet-trans : (a b c : Kernel) → IsQuiet a b → IsQuiet b c → IsQuiet a c
IsQuiet-trans a b c p q = record {
  same_flags = λ x. q.same_flags x ∙ p.same_flags x;
  same_esp0 = q.same_esp0 ∙ p.same_esp0;
  same_switches = q.same_switches ∙ p.same_switches;
  same_serviced = q.same_serviced ∙ p.same_serviced;
  same_launched = q.same_launched ∙ p.same_launched;
  same_pid = λ t. q.same_pid t ∙ p.same_pid t;
}

low_bits : (r : ℕ) → r < 4 → (ltb (bit_or r 2) 4 && bit_and (bit_or r 2) 2 == 2) ≡ true
unfolding all_below
low_bits r h = all_below_sound 4 (λ r. ltb (bit_or r 2) 4 && bit_and (bit_or r 2) 2 == 2) r refl h

flag_set : (f : ℕ) → bit_and (bit_or f 2) 2 ≡ 2
flag_set f =
    let low = low_bits (f % 4) (omega arith) in
    let small : bit_or (f % 4) 2 < 4 = ground arith in
    let set : bit_and (bit_or (f % 4) 2) 2 ≡ 2 = ground arith in
    let ors : bit_or f 2 ≡ f / 4 * 4 + bit_or (f % 4) 2 =
      ap (λ x. bit_or x 2) (omega arith)
      ∙ bit_or_split 2 (f / 4) (f % 4) 0 2 (omega arith) (omega arith)
      ∙ rw (bit_or-zero (f / 4)) refl in
    rw ors (
      bit_and_split 2 (f / 4) (bit_or (f % 4) 2) 0 2 small (omega arith)
      ∙ rw (bit_and-zero (f / 4)) (omega (arith, set)))

set_interrupt_flag-inside :
    (k : Kernel) → in_hardware_int (set_interrupt_flag (current_pcb k.esp0) k) ≡ true
unfolding in_hardware_int set_interrupt_flag
set_interrupt_flag-inside k =
    rw (eq→== (current_pcb k.esp0) _ refl, flag_set (k.flags (current_pcb k.esp0))) refl

irq0_handler-IsQuiet : (k : Kernel) → in_hardware_int k ≡ true → IsQuiet k (irq0_handler k)
unfolding irq0_handler in_hardware_int
irq0_handler-IsQuiet k h = rw h (record {
  same_flags = λ a. refl;
  same_esp0 = refl;
  same_switches = refl;
  same_serviced = refl;
  same_launched = refl;
  same_pid = λ t. refl;
})

device_work-IsQuiet : (d : Device) (k : Kernel) → IsQuiet k (device_work d k)
unfolding device_work
device_work-IsQuiet rtc k = record {
  same_flags = λ a. refl;
  same_esp0 = refl;
  same_switches = refl;
  same_serviced = refl;
  same_launched = refl;
  same_pid = λ t. refl;
}
device_work-IsQuiet (other line) k = record {
  same_flags = λ a. refl;
  same_esp0 = refl;
  same_switches = refl;
  same_serviced = refl;
  same_launched = refl;
  same_pid = λ t. refl;
}

-- An interrupt that is quiet keeps the processor inside a handler.
in_hardware_int-IsQuiet :
    (k k' : Kernel) → IsQuiet k k' → in_hardware_int k ≡ true → in_hardware_int k' ≡ true
unfolding in_hardware_int
in_hardware_int-IsQuiet k k' q h = rw (q.same_esp0, q.same_flags (current_pcb k.esp0)) h

-- What a handler does between setting and restoring the flags is quiet if it is quiet inside.
restored :
    (k k₂ : Kernel)
    → IsQuiet (set_interrupt_flag (current_pcb k.esp0) k) k₂
    → IsQuiet k (restore_flags (current_pcb k.esp0) (k.flags (current_pcb k.esp0)) k₂)
unfolding set_interrupt_flag restore_flags
restored k k₂ q = record {
  same_flags = λ a. elim (Bool-cases (a == current_pcb k.esp0)) [
    | inl e ↦ rw e (ap (k.flags) (sym (==→eq _ _ e)))
    | inr e ↦ rw e (q.same_flags a ∙ rw e refl)
  ];
  same_esp0 = q.same_esp0;
  same_switches = q.same_switches;
  same_serviced = q.same_serviced;
  same_launched = q.same_launched;
  same_pid = q.same_pid;
}

-- A handler is quiet whose interrupts before its work are quiet, and those behind it are once they
-- find the processor inside a handler.
around :
    (d : Device)
    → (k k₁ k₂ : Kernel) → IsQuiet (set_interrupt_flag (current_pcb k.esp0) k) k₁
    → (in_hardware_int (device_work d k₁) ≡ true → IsQuiet (device_work d k₁) k₂)
    → IsQuiet k (restore_flags (current_pcb k.esp0) (k.flags (current_pcb k.esp0)) k₂)
around d k k₁ k₂ first last =
    let k₀ = set_interrupt_flag (current_pcb k.esp0) k in
    let work = IsQuiet-trans k₀ k₁ (device_work d k₁) first (device_work-IsQuiet d k₁) in
    let inside = in_hardware_int-IsQuiet k₀ (device_work d k₁) work (set_interrupt_flag-inside k) in
    restored k k₂ (IsQuiet-trans k₀ (device_work d k₁) k₂ work (last inside))

mutual
  unfolding handle handle_all

  handle-inside : (i : Interrupt) (k : Kernel) → in_hardware_int k ≡ true → IsQuiet k (handle i k)
  handle-inside timer k h = irq0_handler-IsQuiet k h
  handle-inside (device d before behind) k h =
      let k₀ = set_interrupt_flag (current_pcb k.esp0) k in
      let k₁ = handle_all before k₀ in
      around d k k₁ (handle_all behind (device_work d k₁))
        (handle_all-inside before k₀ (set_interrupt_flag-inside k))
        (handle_all-inside behind (device_work d k₁))

  handle_all-inside :
      (is : Interrupts) (k : Kernel) → in_hardware_int k ≡ true → IsQuiet k (handle_all is k)
  handle_all-inside quiet k h = record {
    same_flags = λ a. refl;
    same_esp0 = refl;
    same_switches = refl;
    same_serviced = refl;
    same_launched = refl;
    same_pid = λ t. refl;
  }
  handle_all-inside (then_next i rest) k h =
      let step = handle-inside i k h in
      IsQuiet-trans k (handle i k) (handle_all rest (handle i k)) step
        (handle_all-inside rest (handle i k) (in_hardware_int-IsQuiet k (handle i k) step h))

switch_to-same :
    (found : Option ℕ) (k k' : Kernel)
    → k'.switches ≡ k.switches
    → k'.esp0 ≡ k.esp0
    → k'.terminal_being_serviced ≡ k.terminal_being_serviced
    → ((t : ℕ) → k'.terminal_pid t ≡ k.terminal_pid t)
    → ((switch_to found k').switches ≡ (switch_to found k).switches)
      × ((switch_to found k').esp0 ≡ (switch_to found k).esp0)
      × ((switch_to found k').terminal_being_serviced ≡ (switch_to found k).terminal_being_serviced)
unfolding switch_to
switch_to-same none k k' switches esp0 serviced pid = (switches, esp0, serviced)
switch_to-same (some t) k k' switches esp0 serviced pid =
    (ap (λ l. l ++ (t ∷ [])) switches, ap stack_top (pid t), serviced)

timer-same :
    (k k' : Kernel)
    → IsQuiet k k'
    → ((handle timer k').switches ≡ (handle timer k).switches)
      × ((handle timer k').esp0 ≡ (handle timer k).esp0)
      × ((handle timer k').terminal_being_serviced ≡ (handle timer k).terminal_being_serviced)
unfolding handle irq0_handler in_hardware_int
timer-same k k' q =
    let turn = round_robin_scheduler k.terminals_launched k.terminal_being_serviced in
    rw (q.same_flags (current_pcb k'.esp0), q.same_launched, q.same_serviced)
      (rw (ap current_pcb q.same_esp0)
        (elim (Bool-cases (not (bit_and (k.flags (current_pcb k.esp0)) 2 == 0))) [
          | inl h ↦ rw h (q.same_switches, q.same_esp0, refl)
          | inr h ↦ rw h (
              switch_to-same turn.1
                (record k { terminal_being_serviced = turn.0; writes = k.writes ++ send_eoi 0 })
                (record k' {
                  terminals_launched = k.terminals_launched;
                  terminal_being_serviced = turn.0;
                  writes = k'.writes ++ send_eoi 0;
                })
                q.same_switches q.same_esp0 refl q.same_pid)
        ]))

-- Whatever interrupts of the timer, the clock and the lines that print a message - no keyboard
-- interrupt is among them -, nested to any depth, the handler of the clock or of such a line takes
-- before and behind its work, it leaves the flags of every process control block, the task state's `esp0` and the
-- terminal being serviced as they were, and no process is switched to.
pub handle-IsQuiet :
    (d : Device) (before behind : Interrupts) (k : Kernel)
    → IsQuiet k (handle (device d before behind) k)
unfolding handle
handle-IsQuiet d before behind k =
    let k₀ = set_interrupt_flag (current_pcb k.esp0) k in
    let k₁ = handle_all before k₀ in
    around d k k₁ (handle_all behind (device_work d k₁))
      (handle_all-inside before k₀ (set_interrupt_flag-inside k))
      (handle_all-inside behind (device_work d k₁))

-- A timer interrupt behind one of the clock or of a line that prints a message, with whatever
-- interrupts of these and of the timer nested in that - no keyboard interrupt is among them -, switches to the
-- same terminal and leaves the same `esp0` and the same terminal being serviced as it would have
-- without the device's.
pub handle-timer_after :
    (d : Device) (before behind : Interrupts) (k : Kernel)
    → let with_device = handle timer (handle (device d before behind) k) in
      (with_device.switches ≡ (handle timer k).switches)
      × (with_device.esp0 ≡ (handle timer k).esp0)
      × (with_device.terminal_being_serviced ≡ (handle timer k).terminal_being_serviced)
handle-timer_after d before behind k =
    timer-same k (handle (device d before behind) k) (handle-IsQuiet d before behind k)
