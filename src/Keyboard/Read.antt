-- ===== src/Keyboard/Read.antt =====
-- From key presses to the buffer of read_terminal in student-distrib/devices/keyboard.c.
use snoop_diggity_d_os.Prelude.{
  ℕ, ◌≡◌, Bool, true, ◌&&◌, not, ltb, ◌==◌, Option, some, none, List, [], ◌∷◌, length,
}
use snoop_diggity_d_os.Scancodes.{scancode_table, non_alpha_shift_table}
use snoop_diggity_d_os.Keyboard.{Console, Terminal, edit_line, is_on, backspace_mask}
use snoop_diggity_d_os.Keyboard.Typed.{typed}
use snoop_diggity_d_os.Screen.{new_line}
use snoop_diggity_d_os.Keyboard.Buffer.{Holds, IsText}

-- A key, with the modifiers that are on when it is pressed.
pub record Key : Type 0 where
  pub state : ℕ
  pub code : ℕ

abbrev pub press : Console → Key → Console
press k key = edit_line k key.state (scancode_table key.code)

abbrev pub press_all : Console → List Key → Console
press_all k [] = k
press_all k (key ∷ keys) = press_all (press k key) keys

-- The characters that the keys mean.
abbrev cons_option : Option ℕ → List ℕ → List ℕ
cons_option none line = line
cons_option (some c) line = c ∷ line

abbrev pub text : List Key → List ℕ
text [] = []
text (key ∷ keys) = cons_option (typed key.state (scancode_table key.code)) (text keys)

-- No key is enter, and none is pressed while backspace is held.
abbrev pub all_plain : List Key → Bool
all_plain [] = true
all_plain (key ∷ keys) =
    ltb key.code 256
    && (not (is_on key.state backspace_mask)
        && (not ((scancode_table key.code).result == new_line) && all_plain keys))

text_fine : ℕ → Bool
text_fine code = not (non_alpha_shift_table (scancode_table code).result == new_line)

-- The terminal's line, while a program waits to read it.
pub record HasText (t : Terminal) (line : List ℕ) : Type 0 where
  pub index : t.stdin_index ≡ length line
  pub bytes : Holds t.stdin 0 line
  pub clean : IsText line
  pub waits : t.read_waiting ≡ 1

abbrev pub enter_key : Key
enter_key = record { state = 0; code = 0x1C }

-- What happens between the tests: the keys are pressed, then enter, and then anything.
abbrev pub typing : List Key → List (Console → Console) → List (Console → Console)
typing [] more = (λ k. press k enter_key) ∷ more
typing (key ∷ keys) more = (λ k. press k key) ∷ typing keys more
