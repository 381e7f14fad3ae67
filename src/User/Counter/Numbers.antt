-- ===== src/User/Counter/Numbers.antt =====
-- The numbers that the counter (syscalls/ece391counter.c) shows: ece391_itoa against itoa of
-- student-distrib/lib.c.
use snoop_diggity_d_os.Prelude.{
  ℕ, zero, suc, ◌+◌, ◌-◌, ◌/◌, ◌≡◌, refl, List, [], ◌∷◌, Option, none, some, leb, ◌==◌, true,
  if◌then◌else◌, update, elements, arith, Bool-cases, inl, inr,
}
use snoop_diggity_d_os.Strings.{strlen}
use snoop_diggity_d_os.Format.{swap_loop, strrev, put_digits, itoa}
use snoop_diggity_d_os.User.{ece391_strlen}
use snoop_diggity_d_os.User.Counter.{ece391_swap, ece391_strrev, ece391_digits, ece391_itoa}

ece391_strlen-strlen : (s : List ℕ) → ece391_strlen s ≡ strlen s
unfolding ece391_strlen strlen
ece391_strlen-strlen [] = refl
ece391_strlen-strlen (c ∷ s) = rw (ece391_strlen-strlen s) refl

ece391_swap-swap_loop :
    (rounds beg end : ℕ) (s : ℕ → ℕ) → ece391_swap rounds beg end s ≡ swap_loop rounds beg end s
unfolding ece391_swap swap_loop
ece391_swap-swap_loop zero beg end s = refl
ece391_swap-swap_loop (suc rounds) beg end s =
    rw (ece391_swap-swap_loop rounds (beg + 1) (end - 1) _) refl

swap_loop-short : (len : ℕ) (s : ℕ → ℕ) → leb len 1 ≡ true → swap_loop len 0 (len - 1) s ≡ s
unfolding swap_loop
swap_loop-short zero s h = refl
swap_loop-short (suc zero) s h = refl
swap_loop-short (suc (suc n)) s h = absurd (ground (arith, h))

ece391_strrev-strrev : (size : ℕ) (s : ℕ → ℕ) → ece391_strrev size s ≡ strrev size s
unfolding ece391_strrev strrev
ece391_strrev-strrev size s =
    rw (ece391_strlen-strlen (elements s size 0), ece391_strrev, strrev)
      (both (strlen (elements s size 0)))
  where
    both :
        (found : Option ℕ)
        → (elim found [
          | none ↦ none
          | some len ↦ some (if leb len 1 then s else ece391_swap len 0 (len - 1) s)
        ])
          ≡ (elim found [ none ↦ none | some len ↦ some (swap_loop len 0 (len - 1) s) ])
    both none = refl
    both (some len) = elim (Bool-cases (leb len 1)) [
      | inl short ↦ rw (short, swap_loop-short len s short) refl
      | inr long ↦ rw (long, ece391_swap-swap_loop len 0 (len - 1) s) refl
    ]

ece391_digits-put_digits :
    (rounds v radix : ℕ) (buf : ℕ → ℕ) (i : ℕ)
    → ece391_digits rounds v radix buf i ≡ put_digits rounds v radix buf i
unfolding ece391_digits put_digits
ece391_digits-put_digits zero v radix buf i = ground arith
ece391_digits-put_digits (suc rounds) v radix buf i =
    rw (ece391_digits-put_digits rounds (v / radix) radix _ (i + 1)) (ground arith)

reversed :
    (size : ℕ) (found : Option ((ℕ → ℕ) × ℕ))
    → (elim found [ none ↦ none | some (digits, end) ↦ ece391_strrev size (update digits end 0) ])
      ≡ (elim found [ none ↦ none | some (digits, end) ↦ strrev size (update digits end 0) ])
reversed size none = refl
reversed size (some (digits, end)) = ece391_strrev-strrev size (update digits end 0)

-- ece391_itoa and itoa of the kernel give the same for every value, radix and buffer, although they
-- test the end of the digits and of the text differently.
pub ece391_itoa-itoa :
    (size value : ℕ) (buf : ℕ → ℕ) (radix : ℕ)
    → ece391_itoa size value buf radix ≡ itoa size value buf radix
unfolding ece391_itoa itoa
ece391_itoa-itoa size value buf radix = elim (Bool-cases (value == 0)) [
  | inl z ↦ rw (z, ece391_itoa, itoa) refl
  | inr nz ↦
      rw (nz, ece391_itoa, itoa, ece391_digits-put_digits 32 value radix buf 0)
        (reversed size (put_digits 32 value radix buf 0))
]
