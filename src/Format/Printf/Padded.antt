-- ===== src/Format/Printf/Padded.antt =====
-- The conversion %#x of student-distrib/lib.c's printf and printf_t.
use mathlib.Core.Path.{subst}
use native.Mathlib.Nat.{pow-suc, pow-le-pow_right}
use snoop_diggity_d_os.Prelude.{
  ℕ, zero, suc, ◌+◌, ◌-◌, ◌^◌, ◌<◌, ◌≤◌, ◌≡◌, ◌≢◌, refl, sym, ◌∙◌, some, ltb, leb, leb→le, ltb→lt,
  ◌==◌, ◌&&◌, if◌then◌else◌, update, elements, arith, Bool-cases, inl, inr, true, false, ==→eq,
}
use snoop_diggity_d_os.Prelude.Tables.{for_range}
use snoop_diggity_d_os.Format.{lookup}
use snoop_diggity_d_os.Format.Reverse.{strlen-elements}
use snoop_diggity_d_os.Format.Digits.{digit_of, lookup_positive, number, IsNumeral, itoa-IsNumeral}
use snoop_diggity_d_os.Format.Printf.{string, Memory, padded_piece}

-- what the loop that puts zeros leaves
zeros :
    (rounds i : ℕ) (buf : ℕ → ℕ) (j : ℕ)
    → for_range rounds i (λ i buf. update buf i 48) buf j
      ≡ (if leb i j && ltb j (i + rounds) then 48 else buf j)
unfolding for_range
zeros zero i buf j = ground arith
zeros (suc rounds) i buf j = zeros rounds (i + 1) (update buf i 48) j ∙ ground arith

-- zeros in front of a number do not change it
number_padded :
    (radix z k : ℕ) (f g : ℕ → ℕ)
    → ((j : ℕ) → j < z → g j ≡ 48)
    → ((j : ℕ) → j < k → g (z + j) ≡ f j)
    → number radix g (z + k) ≡ number radix f k
number_padded radix zero zero f g front back = refl
number_padded radix (suc z) zero f g front back =
    let before =
      number_padded radix z zero f g (λ j h. front j (omega arith)) (λ j h. absurd (omega arith)) in
    let count : z + 0 ≡ z = omega arith in
    let all : suc z + 0 ≡ suc z = omega arith in
    rw (all, ← count, before, count, front z (omega arith)) (grind arith)
number_padded radix z (suc k) f g front back =
    let before = number_padded radix z k f g front (λ j h. back j (omega arith)) in
    let count : z + suc k ≡ suc (z + k) = omega arith in
    rw (count, before, back k (omega arith)) refl

-- a numeral without leading zeros is at least the power of its length
number_least : (k : ℕ) (f : ℕ → ℕ) → 0 < digit_of (f 0) → 16 ^ k ≤ number 16 f (suc k)
number_least zero f h = omega arith
number_least (suc k) f h = let before = number_least k f h in rw (pow-suc 16 k) (omega arith)

short : (n value : ℕ) (f : ℕ → ℕ) → IsNumeral 16 f n value → value < 2 ^ 32 → n ≤ 8
short n value f v small = elim (Bool-cases (leb n 8)) [
  | inl few ↦ leb→le n 8 few
  | inr many ↦
      let first : f 0 ≡ lookup (digit_of (f 0)) = (v.digits 0 v.some_digits).0 in
      let not_zero = v.leading (ground arith) in
      let positive : 0 < digit_of (f 0) = elim (Bool-cases (digit_of (f 0) == 0)) [
        | inl none_left ↦
            absurd (not_zero (first ∙ (let e = ==→eq (digit_of (f 0)) 0 none_left in rw e refl)))
        | inr some_left ↦ ground arith
      ] in
      let count : suc (n - 1) ≡ n = ground arith in
      let least : 16 ^ (n - 1) ≤ value =
        rw (← v.stands_for)
          (subst (λ k. 16 ^ (n - 1) ≤ number 16 f k) count (number_least (n - 1) f positive)) in
      let big : 16 ^ 8 ≤ 16 ^ (n - 1) =
        pow-le-pow_right (omega arith) {i = 8} {j = n - 1} (ground arith) in
      absurd (omega arith)
]

-- the buffer behind the zeros
abbrev filled : (ℕ → ℕ) → (ℕ → ℕ) → ℕ → ℕ → ℕ
filled old r n =
    let conv_buf : ℕ → ℕ = (λ j. if ltb j 8 then old j else r (j - 8)) in
    for_range (8 - n) n (λ i buf. update buf i 48) conv_buf

module _ (old r : ℕ → ℕ) (n : ℕ) (few : n ≤ 8) where
  filled_low : (j : ℕ) → j < 8 - n → filled old r n (n + j) ≡ 48
  filled_low j h =
      let at = zeros (8 - n) n (λ j. if ltb j 8 then old j else r (j - 8)) (n + j) in
      let inside : (leb n (n + j) && ltb (n + j) (n + (8 - n))) ≡ true = ground arith in
      at ∙ rw inside refl

  filled_high : (j : ℕ) → filled old r n (8 + j) ≡ r j
  filled_high j =
      let at = zeros (8 - n) n (λ j. if ltb j 8 then old j else r (j - 8)) (8 + j) in
      let outside : (leb n (8 + j) && ltb (8 + j) (n + (8 - n))) ≡ false = ground arith in
      let behind : ltb (8 + j) 8 ≡ false = ground arith in
      let place : 8 + j - 8 ≡ j = omega arith in at ∙ rw (outside, behind, place) refl

  -- a digit of the eight
  filled_digit :
      (value j : ℕ)
      → IsNumeral 16 r n value
      → j < 8
      → (filled old r n (n + j) ≡ lookup (digit_of (filled old r n (n + j))))
        × (digit_of (filled old r n (n + j)) < 16)
  filled_digit value j v h = elim (Bool-cases (ltb j (8 - n))) [
    | inl low ↦ rw (filled_low j (ltb→lt j (8 - n) low)) (refl, omega arith)
    | inr high ↦
        let place : n + j ≡ 8 + (j - (8 - n)) = ground arith in
        rw (place, filled_high (j - (8 - n))) (v.digits (j - (8 - n)) (ground arith))
  ]

  number-filled :
      (value : ℕ) → IsNumeral 16 r n value → number 16 (λ j. filled old r n (n + j)) 8 ≡ value
  number-filled value v =
      let all : 8 - n + n ≡ 8 = omega arith in
      let back : (j : ℕ) → j < n → filled old r n (n + (8 - n + j)) ≡ r j =
        λ j h. (let place : n + (8 - n + j) ≡ 8 + j = omega arith in rw place (filled_high j)) in
      subst (λ k. number 16 (λ j. filled old r n (n + j)) k ≡ value) all
        (number_padded 16 (8 - n) n r (λ j. filled old r n (n + j)) filled_low back ∙ v.stands_for)

-- For a 32-bit value, %#x prints eight hexadecimal digits that stand for the value, and a NUL is behind them in the
-- buffer.
pub padded_piece-number :
    (m : Memory) (value : ℕ)
    → value < 2 ^ 32
    → (b : ℕ → ℕ) × (start : ℕ) × (padded_piece m value
        ≡ some (string (elements b (64 - start) start) (64 - start)))
      × (start ≤ 8)
      × (b (start + 8) ≡ 0)
      × ((j : ℕ)
          → j < 8
          → (b (start + j) ≡ lookup (digit_of (b (start + j)))) × (digit_of (b (start + j)) < 16))
      × (number 16 (λ j. b (start + j)) 8 ≡ value)
unfolding padded_piece
padded_piece-number m value small =
    let (r, n, run, most, v) =
      itoa-IsNumeral 56 value 16 (λ j. m.conv_buf (8 + j)) (omega arith) (omega arith) small
        (omega arith) in
    let few : n ≤ 8 = short n value r v small in
    let character : (k : ℕ) → k < n → r (0 + k) ≢ 0 = λ k h e.
      (let origin : 0 + k ≡ k = omega arith in
        lookup_positive (digit_of (r k)) (sym (v.digits k h).0 ∙ rw origin at e)) in
    let len =
      strlen-elements r 56 0 n (omega arith) character
        (let e : 0 + n ≡ n = omega arith in rw e v.ends) in
    let end : n + 8 ≡ 8 + n = omega arith in
    (
      filled m.conv_buf r n,
      n,
      rw (padded_piece, run, len) refl,
      few,
      rw end (filled_high m.conv_buf r n few n ∙ v.ends),
      λ j h. filled_digit m.conv_buf r n few value j v h,
      number-filled m.conv_buf r n few value v,
    )
