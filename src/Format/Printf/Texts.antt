-- ===== src/Format/Printf/Texts.antt =====
-- What the conversions of student-distrib/lib.c's printf and printf_t mean, as texts.
use snoop_diggity_d_os.Prelude.{
  ℕ, zero, suc, ◌+◌, ◌-◌, ◌^◌, ◌%◌, ◌<◌, ◌≤◌, ◌≡◌, ◌≢◌, ◌⊎◌, refl, ap, List, [], ◌∷◌, ◌++◌, some,
  false, ◌==◌, length, take, elements, arith, Bool-cases, Option-cases, inl, inr,
}
use snoop_diggity_d_os.Strings.{strlen, c_string}
use snoop_diggity_d_os.Format.{lookup}
use snoop_diggity_d_os.Format.Digits.{IsNumeral, digit_of, number}
use snoop_diggity_d_os.Format.Printf.{Piece, character, string, Memory}
use snoop_diggity_d_os.Format.Printf.Items.{
  Item, literal, percent_sign, hex, padded_hex, unsigned, signed, char, text,
}

-- The characters of a piece, as printf_t shows it and as printf's puts does: a string up to its NUL.
abbrev pub by_printf_t : Piece → List ℕ
by_printf_t (character c) = c ∷ []
by_printf_t (string s size) = c_string size s

abbrev pub by_printf : Piece → List ℕ
by_printf (character c) = c ∷ []
by_printf (string s size) = c_string (length s) s

abbrev pub all_text : (Piece → List ℕ) → List Piece → List ℕ
all_text f [] = []
all_text f (p ∷ ps) = f p ++ all_text f ps

-- A numeral of a value, without leading zeros.
abbrev pub IsNumber : ℕ → ℕ → List ℕ → Type 0
IsNumber radix v t = (r : ℕ → ℕ) × (n : ℕ) × IsNumeral radix r n v × (t ≡ elements r n 0)

-- Eight hexadecimal digits that stand for a value.
abbrev pub IsPadded : ℕ → List ℕ → Type 0
IsPadded v t =
    (b : ℕ → ℕ) × (start : ℕ) × (t ≡ elements b 8 start)
    × ((j : ℕ)
        → j < 8
        → (b (start + j) ≡ lookup (digit_of (b (start + j)))) × (digit_of (b (start + j)) < 16))
    × (number 16 (λ j. b (start + j)) 8 ≡ v)

-- The text of an item, by what its conversion means; a word from 2 ^ 31 on is a negative `int`.
abbrev pub HasText : Memory → Item → List ℕ → Type 0
HasText m (literal c) t = t ≡ c ∷ []
HasText m percent_sign t = t ≡ 37 ∷ []
HasText m (hex v) t = IsNumber 16 v t
HasText m (padded_hex v) t = IsPadded v t
HasText m (unsigned v) t = IsNumber 10 v t
HasText m (signed v) t =
    ((v < 2 ^ 31) × IsNumber 10 v t)
    ⊎ ((2 ^ 31 ≤ v) × ((d : List ℕ) × IsNumber 10 (2 ^ 32 - v) d × (t ≡ 45 ∷ d)))
HasText m (char v) t = t ≡ v % 256 ∷ []
HasText m (text a) t = (n : ℕ) × (strlen (m.bytes_at a) ≡ some n) × (t ≡ take n (m.bytes_at a))

abbrev pub AreTexts : Memory → List Item → List ℕ → Type 0
AreTexts m [] t = t ≡ []
AreTexts m (i ∷ items) t =
    (a : List ℕ) × (b : List ℕ) × HasText m i a × AreTexts m items b × (t ≡ a ++ b)

-- The arguments are words, and those of %s are strings.
abbrev pub IsArgument : Memory → Item → Type 0
IsArgument m (literal c) = Unit
IsArgument m percent_sign = Unit
IsArgument m (hex v) = v < 2 ^ 32
IsArgument m (padded_hex v) = v < 2 ^ 32
IsArgument m (unsigned v) = v < 2 ^ 32
IsArgument m (signed v) = v < 2 ^ 32
IsArgument m (char v) = v < 2 ^ 32
IsArgument m (text a) = (n : ℕ) × (strlen (m.bytes_at a) ≡ some n)

abbrev pub AreArguments : Memory → List Item → Type 0
AreArguments m [] = Unit
AreArguments m (i ∷ items) = IsArgument m i × AreArguments m items

pub length-elements : (r : ℕ → ℕ) (n i : ℕ) → length (elements r n i) ≡ n
length-elements r zero i = refl
length-elements r (suc n) i = ap suc (length-elements r n (i + 1))

-- an array up to its NUL
pub c_string-elements :
    (k cap size i : ℕ) (r : ℕ → ℕ)
    → ((j : ℕ) → j < k → r (i + j) ≢ 0)
    → r (i + k) ≡ 0
    → k < size
    → k ≤ cap
    → c_string cap (elements r size i) ≡ elements r k i
c_string-elements k cap zero i r chars ends room fits = absurd (omega arith)
c_string-elements zero zero (suc size) i r chars ends room fits = refl
c_string-elements zero (suc cap) (suc size) i r chars ends room fits =
    let origin : i + 0 ≡ i = omega arith in let here = rw origin at ends in rw here refl
c_string-elements (suc k) zero (suc size) i r chars ends room fits = absurd (omega arith)
c_string-elements (suc k) (suc cap) (suc size) i r chars ends room fits =
    let origin : i + 0 ≡ i = omega arith in
    let here = rw origin at (chars 0 (omega arith)) in
    let some_byte : (r i == 0) ≡ false = ground (arith, here) in
    let step : i + suc k ≡ i + 1 + k = omega arith in
    let rest =
      c_string-elements k cap size (i + 1) r
        (λ j h e.
          chars (suc j) (omega arith)
            (let place : i + suc j ≡ i + 1 + j = omega arith in rw place e))
        (rw step at ends) (omega arith) (omega arith) in
    rw some_byte (ap (λ l. r i ∷ l) rest)

-- a string up to its NUL, when at least its length is taken; its NUL lies in the array
pub c_string-take :
    (s : List ℕ) (n cap : ℕ)
    → strlen s ≡ some n
    → n ≤ cap
    → (c_string cap s ≡ take n s) × (n ≤ length s)
unfolding strlen
c_string-take [] n cap len fits = absurd (ground (arith, len))
c_string-take (c ∷ s) n zero len fits =
    (let none_left : n ≡ 0 = omega arith in rw none_left (refl, omega arith))
c_string-take (c ∷ s) n (suc cap) len fits = elim (Bool-cases (c == 0)) [
  | inl z ↦
      (let e = rw z at len in
        let none_left : n ≡ 0 = ground (arith, e) in rw (z, none_left) (refl, omega arith))
  | inr nz ↦ elim (Option-cases (strlen s)) [
    | inl lost ↦ absurd (let e = rw (nz, lost) at len in ground (arith, e))
    | inr (m, found) ↦
        (let e = rw (nz, found) at len in
          let more : n ≡ suc m = ground (arith, e) in
          let (same, inside) = c_string-take s m cap found (omega arith) in
          rw (nz, more) (ap (λ l. c ∷ l) same, omega arith))
  ]
]
