-- ===== src/Scheduler/Rotation.antt =====
-- The order in which round_robin_scheduler of student-distrib/scheduling.c serves the terminals.
use snoop_diggity_d_os.Prelude.{
  ℕ, zero, suc, ◌<◌, ◌≤◌, ◌≡◌, refl, Bool, true, false, ◌||◌, not, ◌==◌, if◌then◌else◌, arith,
  ==→eq, Bool-cases, inl, inr,
}
use snoop_diggity_d_os.Prelude.Tables.{all_below, all_below_sound}
use snoop_diggity_d_os.Scheduler.{launched, next_launched, round_robin_scheduler}

-- The terminal that is served after `n` calls of round_robin_scheduler.
unfoldable pub after_calls : ℕ → ℕ → ℕ → ℕ
after_calls terminals_launched zero serviced = serviced
after_calls terminals_launched (suc n) serviced =
    after_calls terminals_launched n (round_robin_scheduler terminals_launched serviced).0

-- `t` is served within three calls
abbrev served : ℕ → ℕ → ℕ → Bool
served terminals_launched serviced t =
    after_calls terminals_launched 1 serviced == t
    || (after_calls terminals_launched 2 serviced == t
        || after_calls terminals_launched 3 serviced == t)

abbrev fair : ℕ → Bool
fair w =
    w == 1 || all_below 3 (λ serviced. all_below 3 (λ t. not (launched w t) || served w serviced t))

fair_table : all_below 8 fair ≡ true
unfolding all_below after_calls round_robin_scheduler next_launched
fair_table = refl

first_tick : ℕ → ℕ → ℕ → ℕ
first_tick w serviced t =
    if after_calls w 1 serviced == t then 1 else if after_calls w 2 serviced == t then 2 else 3

-- Once a second terminal is launched, every launched terminal is served within three calls of
-- round_robin_scheduler, whichever terminal is served now.
pub round_robin_scheduler-fair :
    (terminals_launched serviced t : ℕ)
    → terminals_launched < 8
    → serviced < 3
    → t < 3
    → (terminals_launched == 1) ≡ false
    → launched terminals_launched t ≡ true
    → (n : ℕ) × (0 < n) × (n ≤ 3) × (after_calls terminals_launched n serviced ≡ t)
unfolding first_tick
round_robin_scheduler-fair w serviced t hw hs ht more is =
    let row = all_below_sound 8 fair w fair_table hw in
    let col =
      all_below_sound 3 (λ s. all_below 3 (λ t. not (launched w t) || served w s t)) serviced
        (ground arith) hs in
    let cell = all_below_sound 3 (λ t. not (launched w t) || served w serviced t) t col ht in
    let reached : after_calls w (first_tick w serviced t) serviced ≡ t =
      elim (Bool-cases (after_calls w 1 serviced == t)) [
        | inl one ↦ rw one (==→eq _ _ one)
        | inr later ↦ elim (Bool-cases (after_calls w 2 serviced == t)) [
          | inl two ↦ rw (later, two) (==→eq _ _ two)
          | inr last ↦ rw (later, last) (==→eq _ _ (ground arith))
        ]
      ] in
    (first_tick w serviced t, ground arith, ground arith, reached)
