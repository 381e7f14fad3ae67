-- ===== src/Strings/Copy.antt =====
-- strlen, strcpy and strncpy of student-distrib/lib.c, against the strings that they handle.
use snoop_diggity_d_os.Prelude.{
  ℕ, zero, suc, ◌+◌, ◌-◌, ◌≤◌, ◌<◌, ◌≡◌, refl, List, [], ◌∷◌, ◌++◌, some, Bool-cases, arith, ◌==◌,
  length, drop, replicate, inl, inr, false, if◌then◌else◌, ◌⊎◌,
}
use snoop_diggity_d_os.Strings.{strlen, strcpy, strncpy, pad, c_string}
use snoop_diggity_d_os.Strings.Compare.{IsReadable, tail_IsReadable}

-- The array holds a string: a NUL is in it.
abbrev pub IsTerminated : List ℕ → Type 0
IsTerminated [] = ⊥
IsTerminated (c ∷ s) = (c ≡ 0) ⊎ IsTerminated s

-- The bytes before the first NUL.
abbrev pub chars : List ℕ → List ℕ
chars [] = []
chars (c ∷ s) = if c == 0 then [] else c ∷ chars s

-- strlen of a string in its array is the number of bytes before the NUL.
pub strlen-chars : (s : List ℕ) → IsTerminated s → strlen s ≡ some (length (chars s))
unfolding strlen
strlen-chars [] t = absurd t
strlen-chars (c ∷ s) (inl z) = ground arith
strlen-chars (c ∷ s) (inr t) = rw (strlen-chars s t) (ground arith)

pub tail_IsTerminated :
    (c : ℕ) (s : List ℕ) → IsTerminated (c ∷ s) → (c == 0) ≡ false → IsTerminated s
tail_IsTerminated c s (inl z) nz = absurd (ground arith)
tail_IsTerminated c s (inr t) nz = t

-- strcpy puts the bytes of the string and a NUL, and leaves what lies behind them, if they fit
-- the destination.
pub strcpy-chars :
    (dest s : List ℕ)
    → IsTerminated s
    → length (chars s) < length dest
    → strcpy dest s ≡ some (chars s ++ (0 ∷ drop (length (chars s) + 1) dest))
unfolding strcpy
strcpy-chars dest [] t h = absurd t
strcpy-chars [] (c ∷ s) t h = absurd (omega arith)
strcpy-chars (x ∷ d) (c ∷ s) t h = elim (Bool-cases (c == 0)) [
  | inl z ↦ rw z
  | inr nz ↦
      let shift : suc (length (chars s)) + 1 ≡ suc (length (chars s) + 1) = omega arith in
      rw (nz, strcpy-chars d s (tail_IsTerminated c s t nz) (fits nz), shift)
]
  where
    fits : (c == 0) ≡ false → length (chars s) < length d
    fits nz = ground arith

pad_lem :
    (dest : List ℕ) (n : ℕ) → n ≤ length dest → pad dest n ≡ some (replicate n 0 ++ drop n dest)
unfolding pad
pad_lem dest zero h = refl
pad_lem [] (suc n) h = absurd (omega arith)
pad_lem (x ∷ d) (suc n) h = rw (pad_lem d n (omega arith))

-- On a string that is readable to one byte past `n`, or to its NUL, and a destination of at
-- least `n` bytes, strncpy fills `n` bytes: the string up to its NUL or `n` bytes, then NULs; it
-- leaves the rest.
pub strncpy-c_string :
    (dest s : List ℕ) (n : ℕ)
    → IsReadable (suc n) s
    → n ≤ length dest
    → strncpy dest s n
      ≡ some (c_string n s ++ (replicate (n - length (c_string n s)) 0 ++ drop n dest))
unfolding strncpy
strncpy-c_string dest [] n t h = absurd t
strncpy-c_string dest (c ∷ s) zero t h = refl
strncpy-c_string [] (c ∷ s) (suc n) t h = absurd (omega arith)
strncpy-c_string (x ∷ d) (c ∷ s) (suc n) t h = elim (Bool-cases (c == 0)) [
  | inl z ↦ let all : suc n - 0 ≡ suc n = omega arith in rw (z, all) (pad_lem (x ∷ d) (suc n) h)
  | inr nz ↦
      let shift : suc n - suc (length (c_string n s)) ≡ n - length (c_string n s) = omega arith in
      rw (nz, strncpy-c_string d s n (tail_IsReadable (suc n) c s t nz) (omega arith), shift)
]
