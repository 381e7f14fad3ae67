-- ===== src/Keyboard/Line.antt =====
-- The line editor of student-distrib/devices/keyboard.c: the shape of the line between two keys,
-- and what each key does to it.
use snoop_diggity_d_os.Prelude.{
  ℕ, ◌<◌, ◌≤◌, ◌≡◌, refl, ◌&&◌, ◌||◌, not, ltb, leb, ◌==◌, if◌then◌else◌, arith, Bool-cases, inl,
  inr, leb→gt, Option, some, none,
}
use snoop_diggity_d_os.Scancodes.{Scancode, is_printable_sc, is_letter_sc, non_alpha_shift_table}
use snoop_diggity_d_os.Keyboard.{
  Terminal, Console, type_char, delete_char, enter_line, insert_char, edit_line, is_on, upper,
  backspace_mask, caps_lock_mask, shift_mask, r_shift_mask,
}
use snoop_diggity_d_os.Screen.{new_line}

-- The index stays in the array of 128 bytes, with a NUL there.
pub record IsLine (t : Terminal) : Type 0 where
  pub inside : t.stdin_index ≤ 127
  pub ended : t.stdin t.stdin_index ≡ 0

type_char-IsLine :
    (k : Console) (c : ℕ) → k.terminal.stdin_index < 126 → IsLine (type_char k c).terminal
type_char-IsLine k c h = record { inside = omega arith; ended = ground arith }

-- typing the character that a key means, if any
abbrev pub type_option : Console → Option ℕ → Console
type_option k none = k
type_option k (some c) = type_char k c

-- the character that insert_char picks, whatever the entry of the table
abbrev picked : ℕ → Scancode → Option ℕ
picked state m =
    let shift = is_on state shift_mask || is_on state r_shift_mask in
    let caps = is_on state caps_lock_mask in
    if is_letter_sc m && (if shift then not caps else caps)
    then some (upper m.result)
    else if is_printable_sc m
    then some (
        if shift && not (non_alpha_shift_table m.result == 0)
        then non_alpha_shift_table m.result
        else m.result)
    else none

insert_char-picked :
    (k : Console)
    → (state : ℕ) → (m : Scancode)
    → insert_char k state m
      ≡ (if leb 126 k.terminal.stdin_index then k else type_option k (picked state m))
unfolding insert_char
insert_char-picked k state m = ground arith

type_option-IsLine :
    (k : Console)
    → (c : Option ℕ) → k.terminal.stdin_index < 126
    → IsLine k.terminal
    → IsLine (type_option k c).terminal
type_option-IsLine k none h v = v
type_option-IsLine k (some c) h v = type_char-IsLine k c h

insert_char-IsLine :
    (k : Console)
    → (state : ℕ) → (m : Scancode) → IsLine k.terminal
    → IsLine (insert_char k state m).terminal
insert_char-IsLine k state m v = elim (Bool-cases (leb 126 k.terminal.stdin_index)) [
  | inl full ↦ rw (insert_char-picked k state m, full) v
  | inr room ↦
      rw (insert_char-picked k state m, room)
        (type_option-IsLine k (picked state m) (leb→gt 126 k.terminal.stdin_index room) v)
]

delete_char-IsLine : (k : Console) → IsLine k.terminal → IsLine (delete_char k).terminal
unfolding delete_char
delete_char-IsLine k v = elim (Bool-cases (ltb 0 k.terminal.stdin_index)) [
  | inl some_char ↦
      rw some_char record { inside = (let h = v.inside in omega arith); ended = ground arith }
  | inr empty ↦ rw empty v
]

enter_line-IsLine : (k : Console) → k.terminal.stdin_index < 127 → IsLine (enter_line k).terminal
unfolding enter_line
enter_line-IsLine k h = elim (Bool-cases (k.terminal.read_waiting == 1)) [
  | inl waiting ↦ rw waiting record { inside = omega arith; ended = ground arith }
  | inr idle ↦ rw idle record { inside = omega arith; ended = refl }
]

-- Whatever the key and the modifiers, from a line whose index is within its array, with a NUL
-- there, a key leads to such a line.
pub edit_line-IsLine :
    (k : Console)
    → (state : ℕ) → (m : Scancode) → IsLine k.terminal
    → IsLine (edit_line k state m).terminal
unfolding edit_line
edit_line-IsLine k state m v = elim (Bool-cases (is_on state backspace_mask)) [
  | inl back ↦ rw back (insert_char-IsLine (delete_char k) state m (delete_char-IsLine k v))
  | inr forth ↦ elim (Bool-cases (m.result == new_line && ltb k.terminal.stdin_index 127)) [
    | inl ends ↦ rw (forth, ends) (enter_line-IsLine k (ground arith))
    | inr plain ↦ rw (forth, plain) (insert_char-IsLine k state m v)
  ]
]
