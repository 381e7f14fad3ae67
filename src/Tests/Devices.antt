-- ===== src/Tests/Devices.antt =====
-- The interrupt controllers, the real-time clock and the string functions.
use snoop_diggity_d_os.Prelude.{
  ℕ, List, ◌-◌, ◌^◌, ◌+◌, ◌≤◌, ◌≡◌, ◌⊎◌, refl, [], ◌∷◌, some, ◌==◌, if◌then◌else◌, arith, pos,
}
use snoop_diggity_d_os.Format.{itoa}
use snoop_diggity_d_os.Format.Printf.{Memory}
use snoop_diggity_d_os.Format.Printf.Items.{Item, literal, unsigned, signed, text}
use snoop_diggity_d_os.Format.Digits.{IsNumeral, itoa-IsNumeral}
use snoop_diggity_d_os.Scheduler.{round_robin_scheduler, next_launched}
use snoop_diggity_d_os.Interrupts.{
  Kernel, Interrupts, timer, device, quiet, then_next, rtc, other, com1, in_hardware_int, switch_to,
  irq0_handler, handle,
}
use snoop_diggity_d_os.Interrupts.Quiet.{IsQuiet, handle-IsQuiet, handle-timer_after}
use snoop_diggity_d_os.Pic.{Masks}
use snoop_diggity_d_os.Rtc.{Rtc, Inputs, write_rtc}
use snoop_diggity_d_os.Rtc.Rate.{IsRate, set_rate, rejected, write_rtc_lem}

abbrev masks : Masks
masks = record { master_mask = 0xFB; slave_mask = 0xFF }

abbrev ports : ℕ → ℕ
ports port = if port == 0xA1 then 0xFF else 0xFB

abbrev clock : Rtc
clock = record { been_inited = 1; masks = masks }

abbrev inputs : Inputs
inputs = record { reg_a = 0x26; reg_b = 0x02; pic = ports }

write_rtc_lem_example :
    ((rate : ℕ) × IsRate (pos 64) rate
      × (write_rtc inputs clock (pos 64) ≡ some (set_rate inputs clock rate)))
    ⊎ (((rate : ℕ) → IsRate (pos 64) rate → ⊥)
        × (write_rtc inputs clock (pos 64) ≡ some (rejected clock)))
write_rtc_lem_example = write_rtc_lem inputs clock (pos 64)

abbrev buffer : ℕ → ℕ
buffer j = if j == 0 then 97 else if j == 1 then 98 else 0

itoa-IsNumeral_example :
    (r : ℕ → ℕ) × (n : ℕ) × (itoa 36 391 buffer 10 ≡ some r) × (n ≤ 32) × IsNumeral 10 r n 391
itoa-IsNumeral_example =
    itoa-IsNumeral 36 391 10 buffer (omega arith) (omega arith) (omega arith) (omega arith)

abbrev stack : Memory
stack = record { bytes_at = λ a. a ∷ 0 ∷ []; conv_buf = λ _. 170 }

-- "a%u%s%d"
abbrev items : List Item
items = literal 97 ∷ unsigned 391 ∷ text 98 ∷ signed (2 ^ 32 - 5) ∷ []

-- the shell of the first terminal, with a second terminal launched
abbrev two_shells : Kernel
two_shells = record {
  esp0 = 0x7FE000;
  flags = λ a. 0;
  terminals_launched = 3;
  terminal_being_serviced = 0;
  terminal_pid = λ t. t + 1;
  rtc_flag = 1;
  writes = [];
  printed = [];
  switches = [];
}

-- The clock's handler takes a timer interrupt, and then a serial port's, which takes another timer
-- interrupt.
abbrev nested : Interrupts
nested = then_next (device (other com1) (then_next timer quiet) quiet) quiet

handle-IsQuiet_example :
    IsQuiet two_shells (handle (device rtc (then_next timer quiet) nested) two_shells)
handle-IsQuiet_example = handle-IsQuiet rtc (then_next timer quiet) nested two_shells

-- the timer alone does switch
timer_switches : (handle timer two_shells).switches ≡ 1 ∷ []
unfolding handle irq0_handler in_hardware_int round_robin_scheduler next_launched switch_to
timer_switches = refl

handle-timer_after_example :
    let with_device =
      handle timer (handle (device rtc (then_next timer quiet) nested) two_shells) in
    (with_device.switches ≡ (handle timer two_shells).switches)
    × (with_device.esp0 ≡ (handle timer two_shells).esp0)
    × (with_device.terminal_being_serviced ≡ (handle timer two_shells).terminal_being_serviced)
handle-timer_after_example = handle-timer_after rtc (then_next timer quiet) nested two_shells
