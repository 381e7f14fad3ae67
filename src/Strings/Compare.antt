-- ===== src/Strings/Compare.antt =====
-- strncmp of student-distrib/lib.c.
use snoop_diggity_d_os.Prelude.{
  ℕ, zero, suc, ◌<◌, ◌≡◌, ◌↔◌, ◌⊎◌, inl, inr, refl, List, [], ◌∷◌, some, ℤ, pos, Bool-cases, false,
  arith, ◌==◌, ==→eq,
}
use snoop_diggity_d_os.Strings.{strncmp, char_diff, c_string}

abbrev pub IsBytes : List ℕ → Type 0
IsBytes [] = Unit
IsBytes (c ∷ s) = (c < 256) × IsBytes s

-- The array holds a NUL, or at least `n` bytes.
abbrev pub IsReadable : ℕ → List ℕ → Type 0
IsReadable zero s = Unit
IsReadable (suc n) [] = ⊥
IsReadable (suc n) (c ∷ s) = (c ≡ 0) ⊎ IsReadable n s

char_diff-ne : (a b : ℕ) → a < 256 → b < 256 → (a == b) ≡ false → char_diff a b ≡ pos 0 → ⊥
unfolding char_diff
char_diff-ne a b ha hb ne z = ground arith

char_diff_self : (a b : ℕ) → a ≡ b → char_diff a b ≡ pos 0
unfolding char_diff
char_diff_self a b e = ground arith

pub tail_IsReadable :
    (n c : ℕ) (s : List ℕ) → IsReadable (suc n) (c ∷ s) → (c == 0) ≡ false → IsReadable n s
tail_IsReadable n c s (inl z) nz = absurd (ground arith)
tail_IsReadable n c s (inr r) nz = r

-- On readable arrays of bytes strncmp reads in bounds, and its result is 0 exactly when the
-- strings agree up to a NUL or `n` bytes.
pub strncmp-eq_zero :
    (s₁ s₂ : List ℕ) (n : ℕ)
    → IsBytes s₁
    → IsBytes s₂
    → IsReadable n s₁
    → IsReadable n s₂
    → (r : ℤ) × (strncmp s₁ s₂ n ≡ some r) × ((r ≡ pos 0) ↔ (c_string n s₁ ≡ c_string n s₂))
unfolding strncmp
strncmp-eq_zero s₁ s₂ zero b₁ b₂ r₁ r₂ = (pos 0, refl, ((λ _. refl), (λ _. refl)))
strncmp-eq_zero [] s₂ (suc n) b₁ b₂ r₁ r₂ = absurd r₁
strncmp-eq_zero (a ∷ s₁) [] (suc n) b₁ b₂ r₁ r₂ = absurd r₂
strncmp-eq_zero (a ∷ s₁) (b ∷ s₂) (suc n) b₁ b₂ r₁ r₂ = elim (Bool-cases (a == b)) [
  | inr ne ↦ (
    char_diff a b,
    ground arith,
    ((λ z. absurd (char_diff-ne a b b₁.0 b₂.0 ne z)), (λ e. ground arith)),
  )
  | inl e ↦ elim (Bool-cases (a == 0)) [
    | inl z ↦ (
      char_diff a b,
      ground arith,
      ((λ _. ground arith), (λ _. char_diff_self a b (==→eq a b e))),
    )
    | inr nz ↦
        let (r, run, iff) =
          strncmp-eq_zero s₁ s₂ n b₁.1 b₂.1 (tail_IsReadable n a s₁ r₁ nz)
            (tail_IsReadable n b s₂ r₂ (ground arith)) in
        (r, ground arith, ((λ h. ground (arith, iff.0 h)), (λ h. iff.1 (ground arith))))
  ]
]
