-- ===== src/Format/Printf.antt =====
-- printf and printf_t of student-distrib/lib.c. What they print depends on the format and the arguments
-- alone, so that it is first a list of pieces, which printf then shows by putc and puts and printf_t by
-- write_terminal. The arguments are the 32-bit words behind the format on the stack.
pub mod Items
pub mod Padded
pub mod Texts
pub mod Shown
use snoop_diggity_d_os.Prelude.{
  ℕ, zero, suc, ◌+◌, ◌-◌, ◌*◌, ◌/◌, ◌%◌, ◌^◌, List, [], ◌∷◌, ◌++◌, Option, none, some, Bool, true,
  false, ltb, leb, ◌==◌, if◌then◌else◌, update, elements, pos,
}
use snoop_diggity_d_os.Prelude.Tables.{for_range}
use snoop_diggity_d_os.Strings.{strlen}
use snoop_diggity_d_os.Screen.{Screen, putc, puts}
use snoop_diggity_d_os.Pic.{PortWrite}
use snoop_diggity_d_os.Terminals.{State, write_terminal}
use snoop_diggity_d_os.Format.{itoa}

-- One output: a character, or a string in its array, of which printf_t writes at most `size` bytes.
pub data Piece : Type 0 where
  character : ℕ → Piece
  string : List ℕ → ℕ → Piece

-- What the functions read besides the format and the arguments: the bytes at an address, and what
-- `conv_buf` holds before it is written.
pub record Memory : Type 0 where
  pub bytes_at : ℕ → List ℕ
  pub conv_buf : ℕ → ℕ

-- the case 'x' without '#', and the case 'u'
unfoldable pub number_piece : Memory → ℕ → ℕ → ℕ → Option Piece
number_piece m size value radix = elim (itoa size value m.conv_buf radix) [
  | none ↦ none
  | some buf ↦ some (string (elements buf size 0) size)
]

-- the case 'x' with '#': the digits are put from offset 8 on, and zeros in front of them
unfoldable pub padded_piece : Memory → ℕ → Option Piece
padded_piece m value = elim (itoa 56 value (λ j. m.conv_buf (8 + j)) 16) [
  | none ↦ none
  | some digits ↦ elim (strlen (elements digits 56 0)) [
    | none ↦ none
    | some start ↦
        (let conv_buf : ℕ → ℕ = (λ j. if ltb j 8 then m.conv_buf j else digits (j - 8)) in
          let padded = for_range (8 - start) start (λ i buf. update buf i 48) conv_buf in
          some (string (elements padded (64 - start) start) (64 - start)))
  ]
]

-- the case 'd', for an `int32_t` as a word
unfoldable pub signed_piece : Memory → ℕ → Option Piece
signed_piece m value =
    if leb (2 ^ 31) value
    then elim (itoa 35 (2 ^ 32 - value) (λ j. m.conv_buf (1 + j)) 10) [
      | none ↦ none
      | some digits ↦ some (string (45 ∷ elements digits 35 0) 36)
    ]
    else elim (itoa 36 value m.conv_buf 10) [
      | none ↦ none
      | some digits ↦ some (string (elements digits 36 0) 36)
    ]

-- the case 's'
unfoldable pub string_piece : Memory → ℕ → Option Piece
string_piece m address = elim (strlen (m.bytes_at address)) [
  | none ↦ none
  | some len ↦ some (string (m.bytes_at address) len)
]

-- *esp and esp++ with what a conversion makes of the word
abbrev take_word : (ℕ → Option Piece) → List ℕ → Option (List Piece × List ℕ)
take_word convert [] = none
take_word convert (word ∷ args) = elim (convert word) [ none ↦ none | some p ↦ some (p ∷ [], args) ]

abbrev char_piece : ℕ → Option Piece
char_piece word = some (character (word % 256))

-- the switch on the conversion specifier, but for '#'
unfoldable pub conversion : Memory → ℕ → Bool → List ℕ → Option (List Piece × List ℕ)
conversion m c alternate args =
    if c == 37
    then some (character 37 ∷ [], args)
    else if c == 120
    then take_word (if alternate then padded_piece m else λ word. number_piece m 64 word 16) args
    else if c == 117
    then take_word (λ word. number_piece m 36 word 10) args
    else if c == 100
    then take_word (signed_piece m) args
    else if c == 99
    then take_word char_piece args
    else if c == 115
    then take_word (string_piece m) args
    else some ([], args)

-- Where the loop over the format stands: between conversions, or behind a '%', with `alternate`.
pub data Mode : Type 0 where
  plain : Mode
  percent : Bool → Mode

abbrev with_pieces : List Piece → Option (List Piece) → Option (List Piece)
with_pieces front none = none
with_pieces front (some rest) = some (front ++ rest)

-- the loop of printf and printf_t; a '%' at the end of the format takes its NUL for a specifier, and
-- none is a read past the format
unfoldable pub pieces : Memory → Mode → List ℕ → List ℕ → Option (List Piece)
pieces m mode [] args = none
pieces m plain (c ∷ format) args =
    let next = pieces m plain format args in
    let specifier = pieces m (percent false) format args in
    if c == 0 then some [] else if c == 37 then specifier else with_pieces (character c ∷ []) next
pieces m (percent alternate) (c ∷ format) args =
    let again = pieces m (percent true) format args in
    if c == 35 then again else elim (conversion m c alternate args) [
      | none ↦ none
      | some (front, rest) ↦ with_pieces front (pieces m plain format rest)
    ]

-- printf's output by putc and puts
unfoldable pub show_pieces : Screen → List Piece → Option Screen
show_pieces s [] = some s
show_pieces s (character c ∷ rest) = show_pieces (putc s c) rest
show_pieces s (string text size ∷ rest) = elim (puts s text) [
  | none ↦ none
  | some (s', n) ↦ show_pieces s' rest
]

-- printf, without its result
unfoldable pub printf : Memory → Screen → List ℕ → List ℕ → Option Screen
printf m s format args = elim (pieces m plain format args) [
  | none ↦ none
  | some ps ↦ show_pieces s ps
]

-- printf_t's output by write_terminal; behind a character lies a byte that put_t reads and does not show
unfoldable pub write_pieces : State → ℕ → List Piece → Option (State × List PortWrite)
write_pieces s pid [] = some (s, [])
write_pieces s pid (piece ∷ rest) =
    let (text, size) = elim piece as (λ _. List ℕ × ℕ) [
      | character c ↦ (c ∷ 0 ∷ [], 1)
      | string text size ↦ (text, size)
    ] in
    elim (write_terminal s pid (pos 1) text (pos size)) [
      | none ↦ none
      | some w ↦ elim (write_pieces w.state pid rest) [
        | none ↦ none
        | some (s', writes) ↦ some (s', w.writes ++ writes)
      ]
    ]

-- printf_t, called by the process `pid`, without its result
unfoldable pub printf_t : Memory → State → ℕ → List ℕ → List ℕ → Option (State × List PortWrite)
printf_t m s pid format args = elim (pieces m plain format args) [
  | none ↦ none
  | some ps ↦ write_pieces s pid ps
]
