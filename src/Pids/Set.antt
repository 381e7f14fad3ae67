-- ===== src/Pids/Set.antt =====
-- The bitmap of student-distrib/scheduling.c as a set of pids, and the memory block of each pid.
use snoop_diggity_d_os.Prelude.{
  ℕ, zero, suc, ◌+◌, ◌<◌, ◌≤◌, ◌≡◌, inl, inr, refl, Bool, true, false, ◌&&◌, ◌||◌, not, ℤ, pos,
  negsuc, ◌==◌, ltb, if◌then◌else◌, arith, Bool-cases, List, [], ◌∷◌, ltb→lt, lt→ltb, gt→leb,
}
use snoop_diggity_d_os.Prelude.Tables.{all_below_sound}
use snoop_diggity_d_os.Pids.{
  valid_pid, get_available_pid, mark_pid_used, mark_pid_free, is_pid_used,
  block_address_for_process,
}
use snoop_diggity_d_os.Pids.Table.{
  used, used-bit_or, used-bit_and, bit_or-lt, bit_and-lt, bit_test, get_available_pid-lowest,
  bit_and-bit_or, lowest,
}

-- The integer is the pid `j`.
abbrev pub is_pid : ℤ → ℕ → Bool
is_pid (pos i) j = j == i
is_pid (negsuc n) j = false

-- mark_pid_used adds its pid to the set and leaves the others, and keeps the word within six
-- bits; a pid out of range changes no bit.
pub mark_pid_used-used :
    (w : ℕ) (pid : ℤ)
    → w < 64
    → ((mark_pid_used w pid).0 < 64)
      × ((j : ℕ) → j < 6 → used (mark_pid_used w pid).0 j ≡ (is_pid pid j || used w j))
unfolding mark_pid_used
mark_pid_used-used w (pos i) hw = elim (Bool-cases (ltb i 6)) [
  | inl lt ↦
      rw lt (bit_or-lt w i hw (ltb→lt i 6 lt), λ j hj. used-bit_or w i j hw (ltb→lt i 6 lt) hj)
  | inr ge ↦ rw ge (hw, λ j hj. ground arith)
]
mark_pid_used-used w (negsuc n) hw = (hw, λ j hj. refl)

-- mark_pid_free takes its pid out of the set and leaves the others.
pub mark_pid_free-used :
    (w : ℕ) (pid : ℤ)
    → w < 64
    → ((mark_pid_free w pid).0 < 64)
      × ((j : ℕ) → j < 6 → used (mark_pid_free w pid).0 j ≡ (not (is_pid pid j) && used w j))
unfolding mark_pid_free
mark_pid_free-used w (pos i) hw = elim (Bool-cases (ltb i 6)) [
  | inl lt ↦
      rw lt (bit_and-lt w i hw (ltb→lt i 6 lt), λ j hj. used-bit_and w i j hw (ltb→lt i 6 lt) hj)
  | inr ge ↦ rw ge (hw, λ j hj. ground arith)
]
mark_pid_free-used w (negsuc n) hw = (hw, λ j hj. refl)

-- What is done to the pids, and what it does to a set of them.
pub data PidOp : Type 0 where
  use_pid free_pid : ℤ → PidOp

unfoldable pub run : ℕ → List PidOp → ℕ
run w [] = w
run w (use_pid pid ∷ ops) = run (mark_pid_used w pid).0 ops
run w (free_pid pid ∷ ops) = run (mark_pid_free w pid).0 ops

unfoldable pub run_set : Bool → ℕ → List PidOp → Bool
run_set present j [] = present
run_set present j (use_pid pid ∷ ops) = run_set (is_pid pid j || present) j ops
run_set present j (free_pid pid ∷ ops) = run_set (not (is_pid pid j) && present) j ops

-- After any calls, valid or not, from a word of six bits, the word has six bits, and a pid's bit
-- is what the same calls make of a set of pids.
pub run-used :
    (ops : List PidOp) (w : ℕ)
    → w < 64
    → (run w ops < 64) × ((j : ℕ) → j < 6 → used (run w ops) j ≡ run_set (used w j) j ops)
unfolding run run_set
run-used [] w hw = (hw, λ j hj. refl)
run-used (use_pid pid ∷ ops) w hw =
    let (bound, bits) = mark_pid_used-used w pid hw in
    let (bound', bits') = run-used ops (mark_pid_used w pid).0 bound in
    (bound', λ j hj. rw (← bits j hj) (bits' j hj))
run-used (free_pid pid ∷ ops) w hw =
    let (bound, bits) = mark_pid_free-used w pid hw in
    let (bound', bits') = run-used ops (mark_pid_free w pid).0 bound in
    (bound', λ j hj. rw (← bits j hj) (bits' j hj))

-- On a word of six bits is_pid_used is 1 for a pid in use and 0 for a free one, and 255 for a
-- pid out of range.
pub is_pid_used_lem :
    (w : ℕ) (pid : ℤ)
    → w < 64
    → ((j : ℕ) → j < 6 → is_pid_used w (pos j) ≡ (if used w j then 1 else 0))
      × (valid_pid pid ≡ false → is_pid_used w pid ≡ 255)
unfolding is_pid_used
is_pid_used_lem w pid hw = (λ j hj. rw (gt→leb 6 j hj) (bit_test w j hw hj), λ bad. out pid bad)
  where
    out : (pid : ℤ) → valid_pid pid ≡ false → is_pid_used w pid ≡ 255
    out (pos i) bad = ground arith
    out (negsuc n) bad = refl

-- The answer of get_available_pid: the lowest pid that is free, or FAILURE when all six are in use.
abbrev pub IsLowestFree : ℕ → ℤ → Type 0
IsLowestFree w (pos i) = (i < 6) × (used w i ≡ false) × ((j : ℕ) → j < i → used w j ≡ true)
IsLowestFree w (negsuc n) = (n ≡ 0) × ((j : ℕ) → j < 6 → used w j ≡ true)

pub lowest→IsLowestFree : (w : ℕ) (r : ℤ) → lowest w r ≡ true → IsLowestFree w r
lowest→IsLowestFree w (pos i) h =
    (ground arith, ground arith, λ j hj. all_below_sound i (used w) j (ground arith) hj)
lowest→IsLowestFree w (negsuc zero) h = (refl, λ j hj. all_below_sound 6 (used w) j h hj)
lowest→IsLowestFree w (negsuc (suc n)) h = cc

-- On a word of six bits get_available_pid finds the lowest free pid, and fails only when all six
-- are in use.
pub get_available_pid-IsLowestFree : (w : ℕ) → w < 64 → IsLowestFree w (get_available_pid w)
get_available_pid-IsLowestFree w hw =
    lowest→IsLowestFree w (get_available_pid w) (get_available_pid-lowest w hw)

-- On a word of six bits, to take the pid that get_available_pid gives and to free it again
-- restores the word.
pub mark_pid_free-mark_pid_used :
    (w : ℕ) (i : ℕ)
    → w < 64
    → get_available_pid w ≡ pos i
    → (mark_pid_free (mark_pid_used w (pos i)).0 (pos i)).0 ≡ w
unfolding mark_pid_free mark_pid_used
mark_pid_free-mark_pid_used w i hw e =
    let (lt, free, _) = rw e at (get_available_pid-IsLowestFree w hw) in
    rw (lt→ltb i 6 lt) (bit_and-bit_or w i hw lt free)

-- The blocks of valid pids are 4 MB each, lie from 8 MB to 32 MB, and do not overlap.
pub block_address-disjoint :
    (i j x y : ℕ)
    → i < 6
    → j < 6
    → x < 0x400000
    → y < 0x400000
    → (0x800000 ≤ block_address_for_process (pos i) + x)
      × (block_address_for_process (pos i) + x < 0x2000000)
      × (block_address_for_process (pos i) + x ≡ block_address_for_process (pos j) + y
          → (i ≡ j) × (x ≡ y))
unfolding block_address_for_process
block_address-disjoint i j x y hi hj hx hy =
    rw (lt→ltb i 6 hi, lt→ltb j 6 hj) (omega arith, omega arith, λ e. omega arith)
