-- ===== src/Keyboard.antt =====
-- student-distrib/devices/keyboard.c: the modifier keys, the line that a terminal edits, and
-- read_terminal. The switch of terminals (the branch under ALT) and the control shortcuts are not
-- in these files.
pub mod Line
pub mod Typed
pub mod Buffer
pub mod Read
use snoop_diggity_d_os.Prelude.{
  ℕ, zero, suc, ◌+◌, ◌-◌, ◌*◌, ◌/◌, ◌%◌, ◌^◌, List, [], ◌∷◌, Bool, true, false, ◌&&◌, ◌||◌, not,
  ltb, leb, ◌==◌, if◌then◌else◌, update, bit_and, bit_or, bit_xor, Option, some, none, ℤ, pos,
  negsuc, failure, length,
}
use snoop_diggity_d_os.Scancodes.{Scancode, non_alpha_shift_table, is_printable_sc, is_letter_sc}
use snoop_diggity_d_os.Screen.{Screen, putc_kbd, new_line, bksp_char}
use snoop_diggity_d_os.Pic.{PortWrite}

abbrev pub keyboard_buff_size : ℕ
keyboard_buff_size = 128

abbrev pub shift_mask : ℕ
shift_mask = 0x1

abbrev pub control_mask : ℕ
control_mask = 0x2

abbrev pub caps_lock_mask : ℕ
caps_lock_mask = 0x4

abbrev pub backspace_mask : ℕ
backspace_mask = 0x8

abbrev pub r_shift_mask : ℕ
r_shift_mask = 0x20

abbrev pub alt_mask : ℕ
alt_mask = 0x40

-- state | MASK, and state & ~MASK on the bits of an `int`, for a `uint8_t` state
abbrev pub turn_on : ℕ → ℕ → ℕ
turn_on state mask = bit_or state mask % 256

abbrev pub turn_off : ℕ → ℕ → ℕ
turn_off state mask = bit_and state (2 ^ 32 - 1 - mask) % 256

-- the CAPS_LOCK_ON, SHIFT_ON and like tests
abbrev pub is_on : ℕ → ℕ → Bool
is_on state mask = not (bit_and state mask == 0)

-- the switch on the raw scancode in process_sent_scancode
unfoldable pub update_keyboard_state : ℕ → ℕ → ℕ
update_keyboard_state state raw =
    if raw == 0x0E
    then turn_on state backspace_mask
    else if raw == 0x8E
    then turn_off state backspace_mask
    else if raw == 0x3A
    then bit_xor state caps_lock_mask % 256
    else if raw == 0x2A
    then turn_on state shift_mask
    else if raw == 0xAA
    then turn_off state shift_mask
    else if raw == 0x36
    then turn_on state r_shift_mask
    else if raw == 0xB6
    then turn_off state r_shift_mask
    else if raw == 0x1D
    then turn_on state control_mask
    else if raw == 0x9D
    then turn_off state control_mask
    else if raw == 0x38
    then turn_on state alt_mask
    else if raw == 0xB8
    then turn_off state alt_mask
    else state

-- The fields of terminal_t that the line editor and read_terminal use; `stdin` is the array of 128
-- bytes.
pub record Terminal : Type 0 where
  pub stdin : ℕ → ℕ
  pub stdin_index : ℕ
  pub allowed_to_read : ℕ
  pub read_waiting : ℕ

-- The terminal that is shown, the screen, and the writes to the video controller so far.
pub record Console : Type 0 where
  pub terminal : Terminal
  pub screen : Screen
  pub writes : List (List PortWrite)

-- init_kbd's values for one terminal
unfoldable pub init_terminal : Terminal
init_terminal = record { stdin = λ _. 0; stdin_index = 0; allowed_to_read = 0; read_waiting = 0 }

-- a call of putc_kbd
abbrev pub show : Console → ℕ → Console
show k c =
    let (screen, writes) = putc_kbd k.screen c in
    record k { screen = screen; writes = writes ∷ k.writes }

-- stdin[stdin_index++] = c; stdin[stdin_index] = NULL_CHAR;
abbrev pub append_char : Terminal → ℕ → Terminal
append_char t c = record t {
  stdin = update (update t.stdin t.stdin_index c) (t.stdin_index + 1) 0;
  stdin_index = t.stdin_index + 1;
}

-- putc_kbd(c) and the two assignments
abbrev pub type_char : Console → ℕ → Console
type_char k c = record (show k c) { terminal = append_char k.terminal c }

-- the branch under BACKSPACE_ON
unfoldable pub delete_char : Console → Console
delete_char k =
    if ltb 0 k.terminal.stdin_index
    then record (show k bksp_char) {
      terminal = record (k.terminal) {
        stdin = update k.terminal.stdin (k.terminal.stdin_index - 1) 0;
        stdin_index = k.terminal.stdin_index - 1;
      };
    }
    else k

-- the branch for NEW_LINE
unfoldable pub enter_line : Console → Console
enter_line k =
    let t = append_char k.terminal new_line in
    record (show k new_line) {
      terminal =
          (if t.read_waiting == 1
            then record t {
              stdin = if t.stdin 0 == new_line then update t.stdin 1 0 else t.stdin;
              allowed_to_read = 1;
            }
            else record t { stdin = λ _. 0; stdin_index = 0; allowed_to_read = 0 });
    }

-- `mapped.result - ASCII_SHIFT_VAL` as a `uint8_t`
abbrev pub upper : ℕ → ℕ
upper c = (c + 256 - 32) % 256

-- from "stop user from adding greater than 128 keyboard inputs" to the end
unfoldable pub insert_char : Console → ℕ → Scancode → Console
insert_char k state mapped =
    if leb (keyboard_buff_size - 2) k.terminal.stdin_index
    then k
    else if is_on state caps_lock_mask
        && (not (is_on state shift_mask) && not (is_on state r_shift_mask))
    then if is_letter_sc mapped
      then type_char k (upper mapped.result)
      else if is_printable_sc mapped
      then type_char k mapped.result
      else k
    else if is_on state shift_mask || is_on state r_shift_mask
    then if is_letter_sc mapped && not (is_on state caps_lock_mask)
      then type_char k (upper mapped.result)
      else if is_printable_sc mapped
      then if not (non_alpha_shift_table mapped.result == 0)
        then type_char k (non_alpha_shift_table mapped.result)
        else type_char k mapped.result
      else k
    else if is_printable_sc mapped
    then type_char k mapped.result
    else k

-- process_sent_scancode for a pressed key, from the test of BACKSPACE_ON on (neither ALT nor
-- CONTROL is on)
unfoldable pub edit_line : Console → ℕ → Scancode → Console
edit_line k state mapped =
    if is_on state backspace_mask
    then insert_char (delete_char k) state mapped
    else if mapped.result == new_line && ltb k.terminal.stdin_index (keyboard_buff_size - 1)
    then enter_line k
    else insert_char k state mapped

-- the copying loop of read_terminal over `rounds` bytes from index `i` on; none when it reads past
-- the array
unfoldable pub copy_line : (ℕ → ℕ) → ℕ → ℕ → Option (List ℕ)
copy_line stdin zero i = none
copy_line stdin (suc rounds) i =
    let rest = copy_line stdin rounds (i + 1) in
    if stdin i == 0 then some [] else elim rest [ none ↦ none | some line ↦ some (stdin i ∷ line) ]

-- What read_terminal does: the bytes that it writes to the buffer, its result, and the terminal.
pub record Reading : Type 0 where
  pub copied : List ℕ
  pub ret : ℤ
  pub terminal : Terminal

abbrev is_stdin : ℤ → Bool
is_stdin (pos fd) = fd == 0
is_stdin (negsuc n) = false

abbrev pub negative : ℤ → Bool
negative (pos n) = false
negative (negsuc n) = true

-- `while(terminals[terminal_state_local].allowed_to_read == 0)`, with what happens between two tests of
-- it; none when it is never set
unfoldable pub wait_line : Console → List (Console → Console) → Option Console
wait_line k [] = if k.terminal.allowed_to_read == 0 then none else some k
wait_line k (event ∷ events) =
    let rest = wait_line (event k) events in
    if k.terminal.allowed_to_read == 0 then rest else some k

-- read_terminal, of the terminal that is shown
unfoldable pub read_terminal : ℤ → ℤ → Console → List (Console → Console) → Option Reading
read_terminal fd nbytes k events =
    if not (is_stdin fd)
    then some (record { copied = []; ret = failure; terminal = k.terminal })
    else if negative nbytes
    then some (record { copied = []; ret = failure; terminal = k.terminal })
    else elim (wait_line (record k { terminal = record (k.terminal) { read_waiting = 1 } })
        events) [
          | none ↦ none
          | some k' ↦ elim (copy_line k'.terminal.stdin keyboard_buff_size 0) [
            | none ↦ none
            | some line ↦ some (record {
              copied = line;
              ret = pos (length line);
              terminal = record {
                stdin = λ _. 0;
                stdin_index = 0;
                allowed_to_read = 0;
                read_waiting = 0;
              };
            })
          ]
        ]
