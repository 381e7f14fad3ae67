-- ===== src/Pids/Table.antt =====
-- The bitmap of student-distrib/scheduling.c bit by bit, for every word of six bits.
use snoop_diggity_d_os.Prelude.{
  ℕ, zero, suc, ◌-◌, ◌/◌, ◌%◌, ◌^◌, ◌<◌, ◌≡◌, refl, Bool, true, false, ◌&&◌, ◌||◌, not, ℤ, pos,
  negsuc, ◌==◌, ltb, if◌then◌else◌, arith, ==→eq, bit_or, bit_and,
}
use snoop_diggity_d_os.Prelude.Tables.{all_below, all_below_sound}
use snoop_diggity_d_os.Pids.{get_available_pid}

-- Pid `i` is in use: bit `i` of the word.
abbrev pub used : ℕ → ℕ → Bool
used pid_avail i = pid_avail / 2 ^ i % 2 == 1

abbrev bool_eq : Bool → Bool → Bool
bool_eq true b = b
bool_eq false b = not b

bool_eq→eq : (a b : Bool) → bool_eq a b ≡ true → a ≡ b
bool_eq→eq true true h = refl
bool_eq→eq true false h = cc
bool_eq→eq false true h = cc
bool_eq→eq false false h = refl

-- Of every word below 64 and every two pids.
abbrev table : (ℕ → ℕ → ℕ → Bool) → Bool
table p = all_below 64 (λ w. all_below 6 (λ i. all_below 6 (λ j. p w i j)))

table_sound :
    (p : ℕ → ℕ → ℕ → Bool) (w i j : ℕ) → table p ≡ true → w < 64 → i < 6 → j < 6 → p w i j ≡ true
table_sound p w i j h hw hi hj =
    all_below_sound 6 (λ j. p w i j) j
      (all_below_sound 6 (λ i. all_below 6 (λ j. p w i j)) i
        (all_below_sound 64 (λ w. all_below 6 (λ i. all_below 6 (λ j. p w i j))) w h hw) hi)
      hj

or_table : table (λ w i j. bool_eq (used (bit_or w (2 ^ i)) j) (j == i || used w j)) ≡ true
unfolding all_below
or_table = refl

and_table :
    table (λ w i j. bool_eq (used (bit_and w (2 ^ 32 - 1 - 2 ^ i)) j) (not (j == i) && used w j))
    ≡ true
unfolding all_below
and_table = refl

bound_table :
    table (λ w i j. ltb (bit_or w (2 ^ i)) 64 && ltb (bit_and w (2 ^ 32 - 1 - 2 ^ i)) 64) ≡ true
unfolding all_below
bound_table = refl

test_table : table (λ w i j. bit_and w (2 ^ i) / 2 ^ i % 256 == (if used w i then 1 else 0)) ≡ true
unfolding all_below
test_table = refl

pub used-bit_or :
    (w i j : ℕ) → w < 64 → i < 6 → j < 6 → used (bit_or w (2 ^ i)) j ≡ (j == i || used w j)
used-bit_or w i j hw hi hj = bool_eq→eq _ _ (table_sound _ w i j or_table hw hi hj)

pub used-bit_and :
    (w i j : ℕ)
    → w < 64
    → i < 6
    → j < 6
    → used (bit_and w (2 ^ 32 - 1 - 2 ^ i)) j ≡ (not (j == i) && used w j)
used-bit_and w i j hw hi hj = bool_eq→eq _ _ (table_sound _ w i j and_table hw hi hj)

pub bit_or-lt : (w i : ℕ) → w < 64 → i < 6 → bit_or w (2 ^ i) < 64
bit_or-lt w i hw hi = ground (arith, table_sound _ w i 0 bound_table hw hi (omega arith))

pub bit_and-lt : (w i : ℕ) → w < 64 → i < 6 → bit_and w (2 ^ 32 - 1 - 2 ^ i) < 64
bit_and-lt w i hw hi = ground (arith, table_sound _ w i 0 bound_table hw hi (omega arith))

pub bit_test :
    (w i : ℕ) → w < 64 → i < 6 → bit_and w (2 ^ i) / 2 ^ i % 256 ≡ (if used w i then 1 else 0)
bit_test w i hw hi = ==→eq _ _ (table_sound _ w i 0 test_table hw hi (omega arith))

-- The answer `r` is the lowest free pid: pid r is free and all below it are in use; FAILURE when
-- all six are in use.
abbrev pub lowest : ℕ → ℤ → Bool
lowest w (pos i) = ltb i 6 && not (used w i) && all_below i (used w)
lowest w (negsuc zero) = all_below 6 (used w)
lowest w (negsuc (suc n)) = false

scan_table : all_below 64 (λ w. lowest w (get_available_pid w)) ≡ true
unfolding all_below get_available_pid
scan_table = refl

pub get_available_pid-lowest : (w : ℕ) → w < 64 → lowest w (get_available_pid w) ≡ true
get_available_pid-lowest w h =
    all_below_sound 64 (λ w. lowest w (get_available_pid w)) w scan_table h

restore_table :
    all_below 64
      (λ w. all_below 6 (λ i. used w i || (bit_and (bit_or w (2 ^ i)) (2 ^ 32 - 1 - 2 ^ i) == w)))
    ≡ true
unfolding all_below
restore_table = refl

pub bit_and-bit_or :
    (w i : ℕ)
    → w < 64
    → i < 6
    → used w i ≡ false
    → bit_and (bit_or w (2 ^ i)) (2 ^ 32 - 1 - 2 ^ i) ≡ w
bit_and-bit_or w i hw hi free = ==→eq _ _ (
    or_false (used w i) _ free (
      all_below_sound 6 (λ i. used w i || (bit_and (bit_or w (2 ^ i)) (2 ^ 32 - 1 - 2 ^ i) == w)) i
        (all_below_sound 64
          (λ w.
            all_below 6 (λ i. used w i || (bit_and (bit_or w (2 ^ i)) (2 ^ 32 - 1 - 2 ^ i) == w)))
          w restore_table hw)
        hi))
  where
    or_false : (a b : Bool) → a ≡ false → (a || b) ≡ true → b ≡ true
    or_false a b e h = ground arith
