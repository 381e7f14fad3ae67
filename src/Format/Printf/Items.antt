-- ===== src/Format/Printf/Items.antt =====
-- A format of student-distrib/lib.c's printf and printf_t as the list of what it asks for.
use snoop_diggity_d_os.Prelude.{
  ℕ, ◌%◌, ◌≡◌, ◌≢◌, refl, ◌∙◌, List, [], ◌∷◌, ◌++◌, Option, none, some, false, ◌==◌, arith,
  Option-cases, inl, inr,
}
use snoop_diggity_d_os.Format.Printf.{
  Piece, character, Memory, plain, number_piece, padded_piece, signed_piece, string_piece,
  conversion, pieces, with_pieces,
}

-- A character that is printed as it is, or a conversion: %%, %x, %#x, %u, %d, %c and %s with their
-- arguments.
pub data Item : Type 0 where
  literal : ℕ → Item
  percent_sign : Item
  hex padded_hex unsigned signed char text : ℕ → Item

-- A literal is neither a NUL nor a '%'.
abbrev pub IsItem : Item → Type 0
IsItem (literal c) = (c ≢ 0) × (c ≢ 37)
IsItem _ = Unit

abbrev pub AreItems : List Item → Type 0
AreItems [] = Unit
AreItems (i ∷ items) = IsItem i × AreItems items

-- The format and the arguments that ask for the items.
abbrev pub specifier : Item → List ℕ
specifier (literal c) = c ∷ []
specifier percent_sign = 37 ∷ 37 ∷ []
specifier (hex v) = 37 ∷ 120 ∷ []
specifier (padded_hex v) = 37 ∷ 35 ∷ 120 ∷ []
specifier (unsigned v) = 37 ∷ 117 ∷ []
specifier (signed v) = 37 ∷ 100 ∷ []
specifier (char v) = 37 ∷ 99 ∷ []
specifier (text v) = 37 ∷ 115 ∷ []

abbrev pub argument : Item → List ℕ
argument (literal c) = []
argument percent_sign = []
argument (hex v) = v ∷ []
argument (padded_hex v) = v ∷ []
argument (unsigned v) = v ∷ []
argument (signed v) = v ∷ []
argument (char v) = v ∷ []
argument (text v) = v ∷ []

abbrev pub format_of : List Item → List ℕ
format_of [] = 0 ∷ []
format_of (i ∷ items) = specifier i ++ format_of items

abbrev pub arguments_of : List Item → List ℕ
arguments_of [] = []
arguments_of (i ∷ items) = argument i ++ arguments_of items

-- What an item is shown as.
abbrev pub shown : Memory → Item → Option Piece
shown m (literal c) = some (character c)
shown m percent_sign = some (character 37)
shown m (hex v) = number_piece m 64 v 16
shown m (padded_hex v) = padded_piece m v
shown m (unsigned v) = number_piece m 36 v 10
shown m (signed v) = signed_piece m v
shown m (char v) = some (character (v % 256))
shown m (text v) = string_piece m v

abbrev also : Option Piece → Option (List Piece) → Option (List Piece)
also none rest = none
also (some p) rest = with_pieces (p ∷ []) rest

abbrev pub all_shown : Memory → List Item → Option (List Piece)
all_shown m [] = some []
all_shown m (i ∷ items) = also (shown m i) (all_shown m items)

-- one item in front of a format
item_pieces :
    (m : Memory) (i : Item) (format args : List ℕ)
    → IsItem i
    → pieces m plain (specifier i ++ format) (argument i ++ args)
      ≡ also (shown m i) (pieces m plain format args)
unfolding pieces conversion
item_pieces m (literal c) format args (nul, sign) =
    let a : (c == 0) ≡ false = ground arith in
    let b : (c == 37) ≡ false = ground arith in rw (a, b) refl
item_pieces m percent_sign format args _ = refl
item_pieces m (hex v) format args _ = elim (Option-cases (number_piece m 64 v 16)) [
  | inl e ↦ rw e refl
  | inr (p, e) ↦ rw e refl
]
item_pieces m (padded_hex v) format args _ = elim (Option-cases (padded_piece m v)) [
  | inl e ↦ rw e refl
  | inr (p, e) ↦ rw e refl
]
item_pieces m (unsigned v) format args _ = elim (Option-cases (number_piece m 36 v 10)) [
  | inl e ↦ rw e refl
  | inr (p, e) ↦ rw e refl
]
item_pieces m (signed v) format args _ = elim (Option-cases (signed_piece m v)) [
  | inl e ↦ rw e refl
  | inr (p, e) ↦ rw e refl
]
item_pieces m (char v) format args _ = refl
item_pieces m (text v) format args _ = elim (Option-cases (string_piece m v)) [
  | inl e ↦ rw e refl
  | inr (p, e) ↦ rw e refl
]

-- The loop of printf and printf_t over the format and the arguments of any list of items, with no literal that is a NUL or a
-- '%', makes the pieces of those items in order, and takes each argument once.
pub pieces-all_shown :
    (m : Memory) (items : List Item)
    → AreItems items
    → pieces m plain (format_of items) (arguments_of items) ≡ all_shown m items
unfolding pieces
pieces-all_shown m [] good = refl
pieces-all_shown m (i ∷ items) (good, rest) =
    item_pieces m i (format_of items) (arguments_of items) good
    ∙ rw (pieces-all_shown m items rest) refl
