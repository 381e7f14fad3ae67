-- ===== src/Keyboard/Typed.antt =====
-- Which character a key types in student-distrib/devices/keyboard.c.
use snoop_diggity_d_os.Prelude.{
  ℕ, ◌<◌, ◌≡◌, true, ◌&&◌, ◌||◌, not, ltb, leb, if◌then◌else◌, arith, Option, some, none,
}
use snoop_diggity_d_os.Scancodes.{
  Scancode, scancode_table, is_printable_sc, is_letter_sc, non_alpha_shift_table,
}
use snoop_diggity_d_os.Scancodes.Keys.{scancode_table-letter}
use snoop_diggity_d_os.Keyboard.Line.{type_option}
use snoop_diggity_d_os.Keyboard.{
  Console, insert_char, is_on, upper, caps_lock_mask, shift_mask, r_shift_mask,
}

-- The character that a key means: a letter is upper case when just one of caps lock and shift is
-- on, any other character takes its shifted form, when it has one, under shift, and a key that is
-- not printable means none.
abbrev pub typed : ℕ → Scancode → Option ℕ
typed state m =
    let shift = is_on state shift_mask || is_on state r_shift_mask in
    let caps = is_on state caps_lock_mask in
    if is_letter_sc m
    then some (if (shift && not caps) || (caps && not shift) then upper m.result else m.result)
    else if is_printable_sc m
    then some (
        if shift && ltb 0 (non_alpha_shift_table m.result)
        then non_alpha_shift_table m.result
        else m.result)
    else none

typed_lem :
    (k : Console)
    → (state : ℕ) → (m : Scancode)
    → (is_letter_sc m ≡ true → (is_printable_sc m ≡ true) × (non_alpha_shift_table m.result ≡ 0))
    → insert_char k state m
      ≡ (if leb 126 k.terminal.stdin_index then k else type_option k (typed state m))
unfolding insert_char
typed_lem k state m letter = ground arith

-- For every entry of the scancode table, a key that is pressed where the line has room types the
-- character that it means under the modifiers, and changes nothing when it means none or when the
-- line holds 126 characters.
pub insert_char-typed :
    (k : Console)
    → (state code : ℕ) → code < 256
    → insert_char k state (scancode_table code) ≡ (
        if leb 126 k.terminal.stdin_index
        then k
        else type_option k (typed state (scancode_table code)))
insert_char-typed k state code h =
    typed_lem k state (scancode_table code)
      (λ letter. let fine = scancode_table-letter code h letter in (fine.0, fine.3))
