-- ===== src/Scancodes/Keys.antt =====
-- The tables of student-distrib/devices/scancodes.c, entry by entry.
use snoop_diggity_d_os.Prelude.{
  ℕ, ◌+◌, ◌<◌, ◌≤◌, ◌≡◌, ◌≢◌, refl, Bool, true, false, ◌&&◌, ◌||◌, not, ltb, leb, ◌==◌, arith,
}
use snoop_diggity_d_os.Prelude.Tables.{all_below, all_below_sound}
use snoop_diggity_d_os.Scancodes.{
  scancode_table, non_alpha_shift_table, is_make_sc, is_printable_sc, is_letter_sc,
}

-- The codes of the keys of a keyboard with 85 keys: 0x01 to 0x53, and F11 and F12.
abbrev pub is_key : ℕ → Bool
is_key code = leb 1 code && leb code 0x53 || (code == 0x57 || code == 0x58)

-- The entries of a key: a press, and a release with the same character; but for tab, the flags of
-- the release are those of the press with the break bit set.
abbrev key_fine : ℕ → Bool
key_fine code =
    not (is_key code)
    || (code == 0x29
        || (is_make_sc (scancode_table code)
            && (not (is_make_sc (scancode_table (code + 128)))
                && ((scancode_table (code + 128)).result == (scancode_table code).result
                    && (code == 0x0F
                        || (scancode_table (code + 128)).flags
                          == (scancode_table code).flags + 1)))))

abbrev is_empty : ℕ → Bool
is_empty code = (scancode_table code).result == 0 && (scancode_table code).flags == 0

abbrev gap_fine : ℕ → Bool
gap_fine code = is_key code || (is_empty code && is_empty (code + 128))

key_table : all_below 128 key_fine ≡ true
unfolding all_below scancode_table is_make_sc
key_table = refl

gap_table : all_below 128 gap_fine ≡ true
unfolding all_below scancode_table
gap_table = refl

grave : is_make_sc (scancode_table 0x29) ≡ true
unfolding scancode_table is_make_sc
grave = refl

grave_release : is_make_sc (scancode_table 0xA9) ≡ true
unfolding scancode_table is_make_sc
grave_release = refl

-- For every key, 0x01 to 0x53, 0x57 and 0x58, but that of the grave accent, 0x29: the entry for its
-- code is a press, that for its release is no press and has the same character, and but for tab, 0x0F,
-- its flags are those of the press with the break bit set. For every other code below 128 both entries
-- are empty. The key of the grave accent is a press, and its release, 0xA9, counts as a press too.
pub scancode_table-mirrored :
    ((code : ℕ)
      → code < 128
      → is_key code ≡ true
      → code ≢ 0x29
      → (is_make_sc (scancode_table code) ≡ true)
        × (is_make_sc (scancode_table (code + 128)) ≡ false)
        × ((scancode_table (code + 128)).result ≡ (scancode_table code).result)
        × (code ≢ 0x0F → (scancode_table (code + 128)).flags ≡ (scancode_table code).flags + 1))
    × ((code : ℕ)
        → code < 128
        → is_key code ≡ false
        → (is_empty code ≡ true) × (is_empty (code + 128) ≡ true))
    × (is_make_sc (scancode_table 0x29) ≡ true)
    × (is_make_sc (scancode_table 0xA9) ≡ true)
scancode_table-mirrored = (
  λ code h key other.
      let fine = all_below_sound 128 key_fine code key_table h in
      (ground arith, ground arith, ground arith, λ tab. ground arith),
  λ code h gap.
      let fine = all_below_sound 128 gap_fine code gap_table h in (ground arith, ground arith),
  grave,
  grave_release,
)

-- Of every entry: a letter is a printable lower-case letter without a shifted form.
abbrev letter_fine : ℕ → Bool
letter_fine code =
    not (is_letter_sc (scancode_table code))
    || (is_printable_sc (scancode_table code)
        && (leb 97 (scancode_table code).result
            && (leb (scancode_table code).result 122
                && non_alpha_shift_table (scancode_table code).result == 0)))

letter_table : all_below 256 letter_fine ≡ true
unfolding all_below scancode_table non_alpha_shift_table is_letter_sc is_printable_sc
letter_table = refl

-- Every letter of the table, for codes below 256, is a printable lower-case character that has
-- no other shifted form.
pub scancode_table-letter :
    (code : ℕ)
    → code < 256
    → is_letter_sc (scancode_table code) ≡ true
    → (is_printable_sc (scancode_table code) ≡ true)
      × (97 ≤ (scancode_table code).result)
      × ((scancode_table code).result ≤ 122)
      × (non_alpha_shift_table (scancode_table code).result ≡ 0)
scancode_table-letter code h letter =
    let fine = all_below_sound 256 letter_fine code letter_table h in
    (ground arith, ground arith, ground arith, ground arith)

-- A printable entry has a character.
printable_table :
    all_below 256
      (λ code. not (is_printable_sc (scancode_table code)) || ltb 0 (scancode_table code).result)
    ≡ true
unfolding all_below scancode_table is_printable_sc
printable_table = refl

pub scancode_table-printable :
    (code : ℕ)
    → code < 256
    → is_printable_sc (scancode_table code) ≡ true
    → 0 < (scancode_table code).result
scancode_table-printable code h p =
    let fine =
      all_below_sound 256
        (λ code. not (is_printable_sc (scancode_table code)) || ltb 0 (scancode_table code).result)
        code printable_table h in
    ground arith
