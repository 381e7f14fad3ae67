-- ===== src/Rtc/Rate.antt =====
-- write_rtc of student-distrib/devices/rtc.c: which frequencies it takes, and the rate it sets.
use snoop_diggity_d_os.Prelude.{
  ℕ, zero, suc, ◌+◌, ◌-◌, ◌/◌, ◌^◌, ◌≤◌, ◌≡◌, refl, sym, ap, ◌⊎◌, [], ◌∷◌, Bool, true, false, ◌&&◌,
  ◌||◌, not, ltb, leb, ◌==◌, if◌then◌else◌, bit_and, bit_or, ℤ, pos, negsuc, Option, some, none,
  arith, ==→eq, Bool-cases, inl, inr,
}
use snoop_diggity_d_os.Prelude.Tables.{all_below, all_below_sound}
use snoop_diggity_d_os.Pic.{outb}
use snoop_diggity_d_os.Rtc.{
  Rtc, Inputs, Call, rtc_cond, rate_loop, rate_fuel, write_rtc, with_irq, rtc_creg_a,
  rtc_control_port, rtc_data_port,
}

-- The frequency of a rate, by the clock's formula: freq = 32768 >> (rate - 1).
abbrev pub frequency : ℕ → ℕ
frequency rate = 32768 / 2 ^ (rate - 1)

-- The rate among 6 to 15 of a frequency, 0 if there is none.
rate_among : ℕ → ℕ → ℕ
rate_among zero freq = 0
rate_among (suc n) freq =
    let rest = rate_among n freq in if frequency (6 + n) == freq then 6 + n else rest

abbrev loop_is : Option ℕ → ℕ → Bool
loop_is none rate = false
loop_is (some r) rate = r == rate

loop_is→eq : (o : Option ℕ) (r : ℕ) → loop_is o r ≡ true → o ≡ some r
loop_is→eq none r h = cc
loop_is→eq (some x) r h = ap some (==→eq x r h)

abbrev good_rate : ℕ → ℕ → Bool
good_rate freq rate =
    loop_is (rate_loop rate_fuel (32768 / freq) 1) rate
    && (leb 6 rate && (leb rate 15 && frequency rate == freq))

-- Of every frequency up to 1024 that passes the test.
rate_table :
    all_below 1025 (λ freq. not (rtc_cond (pos freq)) || good_rate freq (rate_among 10 freq)) ≡ true
unfolding all_below rtc_cond rate_loop rate_among
rate_table = refl

-- Of every rate from 6 to 15.
frequency_table : all_below 16 (λ rate. ltb rate 6 || rtc_cond (pos (frequency rate))) ≡ true
unfolding all_below rtc_cond
frequency_table = refl

rtc_cond-le : (freq : ℕ) → rtc_cond (pos freq) ≡ true → freq ≤ 1024
unfolding rtc_cond
rtc_cond-le freq h = ground arith

-- What a write that is taken does: the rate goes to the low half of register A, whose high half is
-- kept, and the clock's interrupt line is enabled.
abbrev pub set_rate : Inputs → Rtc → ℕ → Call
set_rate inputs s rate =
    with_irq inputs s
      (outb rtc_creg_a rtc_control_port
        ∷ outb rtc_creg_a rtc_control_port
        ∷ outb (bit_or (bit_and inputs.reg_a 0xF0) rate) rtc_data_port
        ∷ [])
      (pos 1)

abbrev pub rejected : Rtc → Call
rejected s = record { state = s; writes = []; ret = negsuc 0 }

-- The integer is the frequency of the rate, and the rate one of 6 to 15.
abbrev pub IsRate : ℤ → ℕ → Type 0
IsRate freq rate = (6 ≤ rate) × (rate ≤ 15) × (freq ≡ pos (frequency rate))

not_cond : (freq rate : ℕ) → rtc_cond (pos freq) ≡ false → IsRate (pos freq) rate → ⊥
not_cond freq rate off (lo, hi, e) =
    let entry =
      all_below_sound 16 (λ rate. ltb rate 6 || rtc_cond (pos (frequency rate))) rate
        frequency_table (omega arith) in
    let value : freq ≡ frequency rate = ground arith in
    let off' : rtc_cond (pos (frequency rate)) ≡ false = rw (← value) off in ground arith

-- write_rtc always returns. It takes exactly the frequencies of the rates 6 to 15, which are the
-- powers of two from 2 to 1024, and sets that rate; any other value is refused with -1, and
-- nothing is written.
pub write_rtc_lem :
    (inputs : Inputs) (s : Rtc) (freq : ℤ)
    → ((rate : ℕ) × IsRate freq rate × (write_rtc inputs s freq ≡ some (set_rate inputs s rate)))
      ⊎ (((rate : ℕ) → IsRate freq rate → ⊥) × (write_rtc inputs s freq ≡ some (rejected s)))
unfolding write_rtc
write_rtc_lem inputs s (negsuc n) = inr ((λ rate h. cc (h.2)), refl)
write_rtc_lem inputs s (pos freq) = elim (Bool-cases (rtc_cond (pos freq))) [
  | inr off ↦ inr ((λ rate h. not_cond freq rate off h), rw off)
  | inl on ↦
      let entry =
        all_below_sound 1025
          (λ freq. not (rtc_cond (pos freq)) || good_rate freq (rate_among 10 freq)) freq rate_table
          (omega (arith, rtc_cond-le freq on)) in
      let good : good_rate freq (rate_among 10 freq) ≡ true = rw on at entry in
      let run : rate_loop rate_fuel (32768 / freq) 1 ≡ some (rate_among 10 freq) =
        loop_is→eq _ _ (ground arith) in
      let exact : frequency (rate_among 10 freq) ≡ freq = ground arith in
      inl (rate_among 10 freq, (ground arith, ground arith, ap pos (sym exact)), rw (on, run))
]
