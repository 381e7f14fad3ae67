-- ===== src/Rtc.antt =====
-- student-distrib/devices/rtc.c: the real-time clock's driver. What `inb` reads from a register is
-- an argument; the writes to the ports are listed in order. A wait for an interrupt is a list of
-- what happens until the flag is seen clear.
pub mod Rate
use snoop_diggity_d_os.Prelude.{
  ℕ, zero, suc, ◌+◌, ◌-◌, ◌*◌, ◌/◌, ◌%◌, ◌^◌, List, [], ◌∷◌, ◌++◌, Bool, true, false, ◌&&◌, not,
  ltb, leb, ◌==◌, if◌then◌else◌, bit_and, bit_or, ℤ, pos, negsuc, success, failure, Option, some,
  none,
}
use snoop_diggity_d_os.Pic.{PortWrite, outb, Masks, enable_irq}

abbrev pub rtc_control_port : ℕ
rtc_control_port = 0x70

abbrev pub rtc_data_port : ℕ
rtc_data_port = 0x71

abbrev pub rtc_creg_a : ℕ
rtc_creg_a = 0x8A

abbrev pub rtc_creg_b : ℕ
rtc_creg_b = 0x8B

-- The driver's state with the saved masks of the interrupt controllers, which enable_irq updates.
pub record Rtc : Type 0 where
  pub been_inited : ℕ
  pub masks : Masks

-- What the ports read: registers A and B of the clock, and the controllers' data ports.
pub record Inputs : Type 0 where
  pub reg_a : ℕ
  pub reg_b : ℕ
  pub pic : ℕ → ℕ

-- A driver call's new state, port writes and result.
pub record Call : Type 0 where
  pub state : Rtc
  pub writes : List PortWrite
  pub ret : ℤ

-- the calls of enable_irq(RTC_LINE_NO) at the end of init_rtc and write_rtc
abbrev pub with_irq : Inputs → Rtc → List PortWrite → ℤ → Call
with_irq inputs s writes ret =
    let (masks, more) = enable_irq inputs.pic s.masks 8 in
    record { state = record s { masks = masks }; writes = writes ++ more; ret = ret }

-- init_rtc
unfoldable pub init_rtc : Inputs → Rtc → Call
init_rtc inputs s =
    with_irq inputs s
      (outb rtc_creg_b rtc_control_port
        ∷ outb rtc_creg_b rtc_control_port
        ∷ outb (bit_or inputs.reg_b 0x40) rtc_data_port
        ∷ outb rtc_creg_a rtc_control_port
        ∷ outb rtc_creg_a rtc_control_port
        ∷ outb (bit_or (bit_and inputs.reg_a 0xF0) 0x0F) rtc_data_port
        ∷ [])
      (pos 0)

-- freq >= RTC_FREQ_MIN && freq <= RTC_FREQ_MAX && !(freq & (freq - 1))
unfoldable pub rtc_cond : ℤ → Bool
rtc_cond (negsuc n) = false
rtc_cond (pos freq) = leb 2 freq && (leb freq 1024 && bit_and freq (freq - 1) == 0)

-- `while (i != 1) { i >>= 1; rate++; }`; none when the fuel runs out
unfoldable pub rate_loop : ℕ → ℕ → ℕ → Option ℕ
rate_loop zero i rate = none
rate_loop (suc fuel) i rate =
    let rest = rate_loop fuel (i / 2) (rate + 1) in if i == 1 then some rate else rest

abbrev pub rate_fuel : ℕ
rate_fuel = 17

-- write_rtc, with `freq` the first int of the buffer; none when rate_loop runs out of fuel
unfoldable pub write_rtc : Inputs → Rtc → ℤ → Option Call
write_rtc inputs s (negsuc n) = some (record { state = s; writes = []; ret = negsuc 0 })
write_rtc inputs s (pos freq) =
    if not (rtc_cond (pos freq))
    then some (record { state = s; writes = []; ret = negsuc 0 })
    else elim (rate_loop rate_fuel (32768 / freq) 1) [
      | none ↦ none
      | some rate ↦ some (
          with_irq inputs s
            (outb rtc_creg_a rtc_control_port
              ∷ outb rtc_creg_a rtc_control_port
              ∷ outb (bit_or (bit_and inputs.reg_a 0xF0) rate) rtc_data_port
              ∷ [])
            (pos 1))
    ]

-- open_rtc
unfoldable pub open_rtc : Inputs → Rtc → Call
open_rtc inputs s =
    if s.been_inited == 0
    then (let c = init_rtc inputs s in record c { state = record (c.state) { been_inited = 1 } })
    else record { state = record s { been_inited = 1 }; writes = []; ret = pos 0 }

-- close_rtc
unfoldable pub close_rtc : Rtc → ℤ → ℤ
close_rtc s fd = pos 0

-- What read_rtc may see between two tests of the flag.
pub data Event : Type 0 where
  rtc_interrupt other_interrupt : Event

-- read_rtc: rtc_flag = 1, then the wait, in which IRQ8_handler_sub clears the flag; none when the
-- events end before.
unfoldable pub wait_rtc : ℕ → List Event → Option (ℤ × List Event)
wait_rtc zero events = some (pos 0, events)
wait_rtc (suc flag) [] = none
wait_rtc (suc flag) (rtc_interrupt ∷ events) = wait_rtc zero events
wait_rtc (suc flag) (other_interrupt ∷ events) = wait_rtc (suc flag) events

unfoldable pub read_rtc : List Event → Option (ℤ × List Event)
unfolding wait_rtc
read_rtc events = wait_rtc 1 events
