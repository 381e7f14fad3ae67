-- ===== src/Prelude/Bits.antt =====
-- Laws of `bit_and` and `bit_or` at variables: how they act on halves, on the digits above and
-- below a place, and on a mask of ones.
use Prim.Native.Nat.{ℕ, zero, suc, ◌+◌, ◌*◌, ◌-◌, ◌/◌, ◌%◌, ◌^◌, ◌≤◌, ◌<◌, min, max}
use Prim.Native.Nat.{bit_and, bit_or, digits, bit_and-bitwise, bit_or-bitwise}
use mathlib.Core.Path.{◌≡◌, refl, ap, ◌∙◌}
use mathlib.Core.Logic.{inl, inr}
use native.Mathlib.Omega.{arith}
use native.Mathlib.Nat.{pow-succ', one-le-pow}
use snoop_diggity_d_os.Prelude.Tests.{Bool-cases, ◌==◌, ==→eq}

-- `digits`, by which both operations are defined, takes fuel, which is enough from its number on.
module _ (rest : ℕ → ℕ) (join : ℕ → ℕ → ℕ) where
  one_more : (k x y : ℕ) → x ≤ k → digits rest join (suc k) x y ≡ digits rest join k x y
  one_more zero x y h = let none_left : x ≡ 0 = omega arith in rw none_left refl
  one_more (suc k) zero y h = refl
  one_more (suc k) (suc x) y h =
      ap (λ d. d * 2 + join (suc x % 2) (y % 2)) (one_more k (suc x / 2) (y / 2) (omega arith))

  enough : (k x y : ℕ) → x ≤ k → digits rest join k x y ≡ digits rest join x x y
  enough zero x y h = let none_left : x ≡ 0 = omega arith in rw none_left refl
  enough (suc k) x y h = elim (Bool-cases (x == suc k)) [
    | inl all ↦ rw (==→eq x (suc k) all) refl
    | inr fewer ↦ one_more k x y (ground arith) ∙ enough k x y (ground arith)
  ]

  halve :
      (x y : ℕ)
      → digits rest join (suc x) (suc x) y
        ≡ digits rest join (suc x / 2) (suc x / 2) (y / 2) * 2 + join (suc x % 2) (y % 2)
  halve x y = omega (arith, enough x (suc x / 2) (y / 2) (omega arith))

pub zero-bit_or : (y : ℕ) → bit_or 0 y ≡ y
zero-bit_or y = bit_or-bitwise 0 y

bit_and_halves : (x y : ℕ) → bit_and x y ≡ bit_and (x / 2) (y / 2) * 2 + min (x % 2) (y % 2)
bit_and_halves zero y =
    let nothing : (z : ℕ) → bit_and 0 z ≡ 0 = λ z. bit_and-bitwise 0 z in
    rw (nothing y, nothing (y / 2)) (omega arith)
bit_and_halves (suc x) y =
    rw (bit_and-bitwise (suc x) y, bit_and-bitwise (suc x / 2) (y / 2)) (halve (λ _. 0) min x y)

bit_or_halves : (x y : ℕ) → bit_or x y ≡ bit_or (x / 2) (y / 2) * 2 + max (x % 2) (y % 2)
bit_or_halves zero y = rw (zero-bit_or y, zero-bit_or (y / 2)) (omega arith)
bit_or_halves (suc x) y =
    rw (bit_or-bitwise (suc x) y, bit_or-bitwise (suc x / 2) (y / 2)) (halve (λ z. z) max x y)

zeros_below : (k x : ℕ) → x < k → (bit_and x 0 ≡ 0) × (bit_or x 0 ≡ x)
zeros_below zero x h = absurd (omega arith)
zeros_below (suc k) x h = elim (Bool-cases (x == 0)) [
  | inl none_left ↦ rw (==→eq x 0 none_left) (refl, refl)
  | inr some_left ↦
      (let smaller : x / 2 < k = ground arith in
        let (ands, ors) = zeros_below k (x / 2) smaller in
        (omega (arith, bit_and_halves x 0, ands), omega (arith, bit_or_halves x 0, ors)))
]

pub bit_and-zero : (x : ℕ) → bit_and x 0 ≡ 0
bit_and-zero x = (zeros_below (x + 1) x (omega arith)).0

pub bit_or-zero : (x : ℕ) → bit_or x 0 ≡ x
bit_or-zero x = (zeros_below (x + 1) x (omega arith)).1

-- The digits above and below place `k` are combined apart.
half_split-bit_and :
    (p q r b s : ℕ)
    → bit_and (q * p + r / 2) (b * p + s / 2) ≡ bit_and q b * p + bit_and (r / 2) (s / 2)
    → bit_and (q * (2 * p) + r) (b * (2 * p) + s) ≡ bit_and q b * (2 * p) + bit_and r s
half_split-bit_and p q r b s ih =
    let e₁ : (q * (2 * p) + r) / 2 ≡ q * p + r / 2 = omega arith in
    let e₂ : (b * (2 * p) + s) / 2 ≡ b * p + s / 2 = omega arith in
    let m₁ : (q * (2 * p) + r) % 2 ≡ r % 2 = omega arith in
    let m₂ : (b * (2 * p) + s) % 2 ≡ s % 2 = omega arith in
    rw (bit_and_halves (q * (2 * p) + r) (b * (2 * p) + s), e₁, e₂, m₁, m₂, ih)
      (omega (arith, bit_and_halves r s))

pub bit_and_split :
    (k q r b s : ℕ)
    → r < 2 ^ k
    → s < 2 ^ k
    → bit_and (q * 2 ^ k + r) (b * 2 ^ k + s) ≡ bit_and q b * 2 ^ k + bit_and r s
bit_and_split zero q r b s hr hs =
    let er : r ≡ 0 = omega arith in
    let es : s ≡ 0 = omega arith in
    let eq : q * 1 + 0 ≡ q = omega arith in
    let eb : b * 1 + 0 ≡ b = omega arith in rw (er, es, eq, eb) (omega arith)
bit_and_split (suc k) q r b s hr hs = rw (pow-succ' 2 k) (
    half_split-bit_and (2 ^ k) q r b s (
      bit_and_split k q (r / 2) b (s / 2) (omega (arith, pow-succ' 2 k))
        (omega (arith, pow-succ' 2 k))))

half_split-bit_or :
    (p q r b s : ℕ)
    → bit_or (q * p + r / 2) (b * p + s / 2) ≡ bit_or q b * p + bit_or (r / 2) (s / 2)
    → bit_or (q * (2 * p) + r) (b * (2 * p) + s) ≡ bit_or q b * (2 * p) + bit_or r s
half_split-bit_or p q r b s ih =
    let e₁ : (q * (2 * p) + r) / 2 ≡ q * p + r / 2 = omega arith in
    let e₂ : (b * (2 * p) + s) / 2 ≡ b * p + s / 2 = omega arith in
    let m₁ : (q * (2 * p) + r) % 2 ≡ r % 2 = omega arith in
    let m₂ : (b * (2 * p) + s) % 2 ≡ s % 2 = omega arith in
    rw (bit_or_halves (q * (2 * p) + r) (b * (2 * p) + s), e₁, e₂, m₁, m₂, ih)
      (omega (arith, bit_or_halves r s))

pub bit_or_split :
    (k q r b s : ℕ)
    → r < 2 ^ k
    → s < 2 ^ k
    → bit_or (q * 2 ^ k + r) (b * 2 ^ k + s) ≡ bit_or q b * 2 ^ k + bit_or r s
bit_or_split zero q r b s hr hs =
    let er : r ≡ 0 = omega arith in
    let es : s ≡ 0 = omega arith in
    let eq : q * 1 + 0 ≡ q = omega arith in
    let eb : b * 1 + 0 ≡ b = omega arith in rw (er, es, eq, eb) (omega arith)
bit_or_split (suc k) q r b s hr hs = rw (pow-succ' 2 k) (
    half_split-bit_or (2 ^ k) q r b s (
      bit_or_split k q (r / 2) b (s / 2) (omega (arith, pow-succ' 2 k))
        (omega (arith, pow-succ' 2 k))))

halve_mod : (p a : ℕ) → 1 ≤ p → a / 2 % p * 2 + min (a % 2) 1 ≡ a % (2 * p)
halve_mod p a h = grind arith

-- A mask of `k` low ones is the remainder by `2 ^ k`.
pub bit_and_ones : (k a : ℕ) → bit_and a (2 ^ k - 1) ≡ a % 2 ^ k
bit_and_ones zero a = rw (bit_and-zero a) (omega arith)
bit_and_ones (suc k) a =
    let p : 1 ≤ 2 ^ k = one-le-pow k 2 (omega arith) in
    let e : (2 ^ suc k - 1) / 2 ≡ 2 ^ k - 1 = omega (arith, pow-succ' 2 k) in
    let m : (2 ^ suc k - 1) % 2 ≡ 1 = omega (arith, pow-succ' 2 k) in
    rw (bit_and_halves a (2 ^ suc k - 1), e, m, bit_and_ones k (a / 2), pow-succ' 2 k)
      (halve_mod (2 ^ k) a p)
