-- ===== src/Prelude/Tables.antt =====
-- Facts about every value of a small range, by evaluation, and counted loops.
use Prim.Native.Nat.{ℕ, zero, suc, ◌+◌, ◌<◌}
use mathlib.Core.Path.{◌≡◌, ◌∙◌}
use mathlib.Core.Bool.{Bool, true, ◌&&◌, not}
use mathlib.Core.Logic.{inl, inr}
use snoop_diggity_d_os.Prelude.Tests.{if◌then◌else◌, Bool-cases, ltb, leb, ◌==◌, ==→eq}
use snoop_diggity_d_os.Prelude.Lists.{update}
use native.Mathlib.Omega.{arith}

-- `test` holds of every number below the limit.
unfoldable pub all_below : (limit : ℕ) → (test : ℕ → Bool) → Bool
all_below zero test = true
all_below (suc last) test = test last && all_below last test

pub all_below_sound :
    (limit : ℕ)
    → (test : ℕ → Bool) → (i : ℕ) → all_below limit test ≡ true
    → i < limit
    → test i ≡ true
unfolding all_below
all_below_sound zero test i all small = absurd (omega arith)
all_below_sound (suc last) test i all small = ground (arith, all_below_sound last test i)

-- Two Boolean functions agree on every number below the limit.
abbrev pub agree_below : ℕ → (ℕ → Bool) → (ℕ → Bool) → Bool
agree_below limit f g = all_below limit (λ i. if f i then g i else not (g i))

pub agree_below_sound :
    (limit : ℕ) (f g : ℕ → Bool) (i : ℕ) → agree_below limit f g ≡ true → i < limit → f i ≡ g i
agree_below_sound limit f g i all small =
    let here = all_below_sound limit (λ i. if f i then g i else not (g i)) i all small in
    elim (Bool-cases (f i)) [ inl yes' ↦ ground (arith, here) | inr no' ↦ ground (arith, here) ]

-- A loop over `rounds` numbers from `first` on.
unfoldable pub for_range {ℓ} :
    {State : Type ℓ} → (rounds first : ℕ) → (ℕ → State → State) → State → State
for_range zero first step state = state
for_range (suc rounds) first step state = for_range rounds (first + 1) step (step first state)

-- A loop that changes entry `i` in round `i`.
pub for_range-update {ℓ} :
    {A : Type ℓ} (value : ℕ → A → A) (n i : ℕ) (table : ℕ → A) (j : ℕ)
    → for_range n i (λ i table. update table i (value i (table i))) table j
      ≡ (if leb i j && ltb j (i + n) then value j (table j) else table j)
unfolding for_range
for_range-update value zero i table j = ground arith
for_range-update value (suc n) i table j =
    for_range-update value n (i + 1) (update table i (value i (table i))) j
    ∙ elim (Bool-cases (j == i)) [
      | inl e ↦ let e' : j ≡ i = ==→eq j i e in rw (e') (ground arith)
      | inr ne ↦ ground arith
    ]
