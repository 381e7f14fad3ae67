-- ===== src/Format/Digits.antt =====
-- itoa of student-distrib/lib.c: the digits that it writes, and the number that they stand for.
use native.Mathlib.Nat.{div-lt_iff_lt-mul, mul-le-mul_left, mod-lt, div-add-mod}
use snoop_diggity_d_os.Prelude.{
  ℕ, zero, suc, ◌+◌, ◌-◌, ◌*◌, ◌/◌, ◌%◌, ◌^◌, ◌<◌, ◌≤◌, ◌≡◌, ◌≢◌, refl, sym, ◌∙◌, some, ltb, ◌==◌,
  if◌then◌else◌, update, arith, Bool-cases, inl, inr, true, false, ==→eq,
}
use snoop_diggity_d_os.Format.{lookup, put_digits, strrev, itoa}
use snoop_diggity_d_os.Format.Reverse.{strrev-at}

-- what is left of a number after `m` of its digits have been taken off
abbrev quotient : ℕ → ℕ → ℕ → ℕ
quotient radix v zero = v
quotient radix v (suc m) = quotient radix (v / radix) m

-- the digits of `v`, the lowest first, stand from offset `i` on, `n` of them
record HasDigits (radix v i n : ℕ) (before after : ℕ → ℕ) : Type 0 where
  digit : (m : ℕ) → m < n → after (i + m) ≡ lookup (quotient radix v m % radix)
  whole : quotient radix v n ≡ 0
  least : (m : ℕ) → m < n → quotient radix v m ≢ 0
  elsewhere : (j : ℕ) → j < i → after j ≡ before j

no_digits : (radix v i : ℕ) (buf : ℕ → ℕ) → v ≡ 0 → HasDigits radix v i 0 buf buf
no_digits radix v i buf e = record {
  digit = λ m h. absurd (omega arith);
  whole = e;
  least = λ m h. absurd (omega arith);
  elsewhere = λ j h. refl;
}

more_digits :
    (radix v i n : ℕ) (buf r : ℕ → ℕ)
    → (v == 0) ≡ false
    → HasDigits radix (v / radix) (i + 1) n (update buf i (lookup (v % radix))) r
    → HasDigits radix v i (suc n) buf r
more_digits radix v i n buf r nz d = record {
  digit = first_digit;
  whole = d.whole;
  least = first_least;
  elsewhere = λ j h.
      d.elsewhere j (omega arith) ∙ (let other : (j == i) ≡ false = ground arith in rw other refl);
}
  where
    first_digit : (m : ℕ) → m < suc n → r (i + m) ≡ lookup (quotient radix v m % radix)
    first_digit zero h =
        let origin : i + 0 ≡ i = omega arith in
        let own = d.elsewhere i (omega arith) in
        let self : (i == i) ≡ true = ground arith in rw origin (own ∙ rw self refl)
    first_digit (suc m) h =
        (let e : i + suc m ≡ i + 1 + m = omega arith in rw e (d.digit m (omega arith)))

    first_least : (m : ℕ) → m < suc n → quotient radix v m ≢ 0
    first_least zero h = λ e. absurd (ground arith)
    first_least (suc m) h = d.least m (omega arith)

smaller_quotient : (rounds v radix : ℕ) → 2 ≤ radix → v < 2 ^ suc rounds → v / radix < 2 ^ rounds
smaller_quotient rounds v radix two small =
    let scaled : 2 ^ rounds * 2 ≤ 2 ^ rounds * radix = mul-le-mul_left (2 ^ rounds) two in
    (div-lt_iff_lt-mul (omega arith)).1 (omega arith)

put_digits-HasDigits :
    (rounds v radix i : ℕ) (buf : ℕ → ℕ)
    → 2 ≤ radix
    → v < 2 ^ rounds
    → (r : ℕ → ℕ) × (n : ℕ) × (n ≤ rounds)
      × (put_digits rounds v radix buf i ≡ some (r, i + n))
      × HasDigits radix v i n buf r
unfolding put_digits
put_digits-HasDigits zero v radix i buf two small =
    let none_left : v ≡ 0 = omega arith in
    let origin : i + 0 ≡ i = omega arith in
    (buf, 0, omega arith, rw (none_left, origin) refl, no_digits radix v i buf none_left)
put_digits-HasDigits (suc rounds) v radix i buf two small = elim (Bool-cases (v == 0)) [
  | inl z ↦
      let origin : i + 0 ≡ i = omega arith in
      (buf, 0, omega arith, rw (z, origin) refl, no_digits radix v i buf (==→eq v 0 z))
  | inr nz ↦
      let buf' = update buf i (lookup (v % radix)) in
      let (r, n, fits, run, d) =
        put_digits-HasDigits rounds (v / radix) radix (i + 1) buf' two
          (smaller_quotient rounds v radix two small) in
      (
        r,
        suc n,
        omega arith,
        (let end : i + suc n ≡ i + 1 + n = omega arith in rw (nz, end) run),
        more_digits radix v i n buf r nz d,
      )
]

-- The number that the first `n` characters of a buffer stand for.
abbrev pub digit_of : ℕ → ℕ
digit_of c = if ltb c 58 then c - 48 else c - 55

abbrev pub number : ℕ → (ℕ → ℕ) → ℕ → ℕ
number radix buf zero = 0
number radix buf (suc n) = number radix buf n * radix + digit_of (buf n)

-- A text of `n` digits without a leading zero, and a NUL behind it.
pub record IsNumeral (radix : ℕ) (buf : ℕ → ℕ) (n value : ℕ) : Type 0 where
  pub some_digits : 0 < n
  pub ends : buf n ≡ 0
  pub digits : (m : ℕ) → m < n → (buf m ≡ lookup (digit_of (buf m))) × (digit_of (buf m) < radix)
  pub leading : 1 < n → buf 0 ≢ 48
  pub stands_for : number radix buf n ≡ value

digit_of-lookup : (d : ℕ) → d < 36 → digit_of (lookup d) ≡ d
digit_of-lookup d h = ground arith

pub lookup_positive : (d : ℕ) → lookup d ≢ 0
lookup_positive d e = absurd (ground arith)

quotient-suc : (radix v m : ℕ) → quotient radix v (suc m) ≡ quotient radix v m / radix
quotient-suc radix v zero = refl
quotient-suc radix v (suc m) = quotient-suc radix (v / radix) m

module _ (radix v n : ℕ) (two : 2 ≤ radix) (most : radix ≤ 36) (buf r s : ℕ → ℕ)
    (d : HasDigits radix v 0 n buf s) (turned : (j : ℕ) → j < n → r j ≡ s (n - 1 - j)) where
  turned_digit : (k m : ℕ) → k + suc m ≡ n → r k ≡ lookup (quotient radix v m % radix)
  turned_digit k m e =
      let place : n - 1 - k ≡ 0 + m = omega arith in
      turned k (omega arith) ∙ rw place (d.digit m (omega arith))

  turned_number : (k m : ℕ) → k + m ≡ n → number radix r k ≡ quotient radix v m
  turned_number zero m e = (let all : m ≡ n = omega arith in rw all (sym d.whole))
  turned_number (suc k) m e =
      let before = turned_number k (suc m) (omega arith) in
      let q = quotient radix v m in
      let small : q % radix < radix = mod-lt q (omega arith) in
      let back = digit_of-lookup (q % radix) (omega arith) in
      let whole = div-add-mod q radix in
      rw (before, turned_digit k m (omega arith), back, quotient-suc radix v m) (grind arith)

  turned_leading : v ≢ 0 → 0 < n → r 0 ≢ 48
  turned_leading nonzero some_digits e =
      let q = quotient radix v (n - 1) in
      let count : suc (n - 1) ≡ n = omega arith in
      let none_left : q / radix ≡ 0 = sym (quotient-suc radix v (n - 1)) ∙ rw count d.whole in
      let whole = rw none_left at (div-add-mod q radix) in
      let left = d.least (n - 1) (omega arith) in
      let small : q % radix < radix = mod-lt q (omega arith) in
      let first = turned_digit 0 (n - 1) (omega arith) in
      absurd (ground (arith, whole, left, first, e))

itoa-zero :
    (size radix : ℕ) (buf : ℕ → ℕ) → 2 ≤ radix → IsNumeral radix (update (update buf 0 48) 1 0) 1 0
itoa-zero size radix buf two = record {
  some_digits = omega arith;
  ends = refl;
  digits = λ m h. (let first : m ≡ 0 = omega arith in rw first (refl, omega arith));
  leading = λ more. absurd (omega arith);
  stands_for = grind arith;
}

ended :
    (radix v n : ℕ) (buf b : ℕ → ℕ)
    → HasDigits radix v 0 n buf b
    → HasDigits radix v 0 n buf (update b (0 + n) 0)
ended radix v n buf b d = record {
  digit = λ m h. (let other : (0 + m == 0 + n) ≡ false = ground arith in rw other (d.digit m h));
  whole = d.whole;
  least = d.least;
  elsewhere = λ j h. absurd (omega arith);
}

digits_left : (radix v n : ℕ) → v ≢ 0 → quotient radix v n ≡ 0 → 0 < n
digits_left radix v zero nonzero e = absurd (nonzero e)
digits_left radix v (suc n) nonzero e = omega arith

strrev-IsNumeral :
    (size value radix n : ℕ) (buf s : ℕ → ℕ)
    → 2 ≤ radix
    → radix ≤ 36
    → value ≢ 0
    → n < size
    → HasDigits radix value 0 n buf s
    → s n ≡ 0
    → (r : ℕ → ℕ) × (strrev size s ≡ some r) × IsNumeral radix r n value
strrev-IsNumeral size value radix n buf s two most nonzero room d nul =
    let character : (m : ℕ) → m < n → s m ≢ 0 = λ m h e.
      lookup_positive (quotient radix value m % radix)
        (sym (d.digit m h) ∙ (let origin : 0 + m ≡ m = omega arith in rw origin e)) in
    let (r, run, at) = strrev-at size n s room character nul in
    let turned : (j : ℕ) → j < n → r j ≡ s (n - 1 - j) =
      λ j h. at j ∙ (let low : ltb j n ≡ true = ground arith in rw low refl) in
    let some_digits : 0 < n = digits_left radix value n nonzero d.whole in
    (
      r,
      run,
      record {
        some_digits = some_digits;
        ends = at n ∙ (let high : ltb n n ≡ false = ground arith in rw high nul);
        digits = λ m h.
            (let v = quotient radix value (n - 1 - m) % radix in
              let small : v < radix = mod-lt (quotient radix value (n - 1 - m)) (omega arith) in
              let digit =
                turned_digit radix value n two most buf r s d turned m (n - 1 - m) (omega arith) in
              let back = digit_of-lookup v (omega arith) in rw digit (rw back refl, rw back small));
        leading =
            λ more. turned_leading radix value n two most buf r s d turned nonzero some_digits;
        stands_for = turned_number radix value n two most buf r s d turned n 0 (omega arith);
      },
    )

-- For a 32-bit value, a radix from 2 to 36 and a buffer of at least 33 bytes, itoa comes to an end and leaves a
-- numeral of at most 32 digits of the value in the buffer: digits of the radix without a leading zero, the highest
-- first, that stand for the value, and a NUL behind them.
pub itoa-IsNumeral :
    (size value radix : ℕ) (buf : ℕ → ℕ)
    → 2 ≤ radix
    → radix ≤ 36
    → value < 2 ^ 32
    → 33 ≤ size
    → (r : ℕ → ℕ) × (n : ℕ) × (itoa size value buf radix ≡ some r)
      × (n ≤ 32)
      × IsNumeral radix r n value
unfolding itoa
itoa-IsNumeral size value radix buf two most small room = elim (Bool-cases (value == 0)) [
  | inl z ↦
      let zero_value : value ≡ 0 = ==→eq value 0 z in
      rw zero_value
        (update (update buf 0 48) 1 0, 1, refl, omega arith, itoa-zero size radix buf two)
  | inr nz ↦
      let (b, n, fits, run, d) = put_digits-HasDigits 32 value radix 0 buf two small in
      let s = update b (0 + n) 0 in
      let at_end : s n ≡ 0 = (let origin : 0 + n ≡ n = omega arith in ground arith) in
      let (r, turned, numeral) =
        strrev-IsNumeral size value radix n buf s two most (λ e. absurd (ground arith))
          (omega arith) (ended radix value n buf b d) at_end in
      (r, n, rw (itoa, nz, run) turned, fits, numeral)
]
