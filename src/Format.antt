-- ===== src/Format.antt =====
-- Numbers as text: itoa and strrev of student-distrib/lib.c. A buffer is a function on offsets, and of
-- `size` bytes as far as strlen looks for its NUL.
pub mod Reverse
pub mod Digits
pub mod Printf
use snoop_diggity_d_os.Prelude.{
  ℕ, zero, suc, ◌+◌, ◌-◌, ◌*◌, ◌/◌, ◌%◌, ◌^◌, Option, none, some, ltb, ◌==◌, if◌then◌else◌, update,
  elements,
}
use snoop_diggity_d_os.Strings.{strlen}

-- lookup[i]
abbrev pub lookup : ℕ → ℕ
lookup i = if ltb i 10 then 48 + i else 55 + i

-- the loop of strrev, at most `rounds` times
unfoldable pub swap_loop : ℕ → ℕ → ℕ → (ℕ → ℕ) → ℕ → ℕ
swap_loop zero beg end s = s
swap_loop (suc rounds) beg end s =
    let rest = swap_loop rounds (beg + 1) (end - 1) (update (update s end (s beg)) beg (s end)) in
    if ltb beg end then rest else s

-- strrev; none when no NUL is in the buffer
unfoldable pub strrev : ℕ → (ℕ → ℕ) → Option (ℕ → ℕ)
strrev size s = elim (strlen (elements s size 0)) [
  | none ↦ none
  | some len ↦ some (swap_loop len 0 (len - 1) s)
]

-- the loop of itoa with `newbuf` at offset `i`: the buffer and the offset behind the digits; none
-- when `rounds` are not enough
unfoldable pub put_digits : ℕ → ℕ → ℕ → (ℕ → ℕ) → ℕ → Option ((ℕ → ℕ) × ℕ)
put_digits zero newval radix buf i = if newval == 0 then some (buf, i) else none
put_digits (suc rounds) newval radix buf i =
    let rest =
      put_digits rounds (newval / radix) radix (update buf i (lookup (newval % radix))) (i + 1) in
    if newval == 0 then some (buf, i) else rest

-- itoa; a `uint32_t` has at most 32 digits to any radix
unfoldable pub itoa : ℕ → ℕ → (ℕ → ℕ) → ℕ → Option (ℕ → ℕ)
itoa size value buf radix =
    if value == 0
    then some (update (update buf 0 48) 1 0)
    else elim (put_digits 32 value radix buf 0) [
      | none ↦ none
      | some (digits, end) ↦ strrev size (update digits end 0)
    ]
