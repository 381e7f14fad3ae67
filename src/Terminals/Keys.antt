-- ===== src/Terminals/Keys.antt =====
-- process_sent_scancode of student-distrib/devices/keyboard.c, a whole key press: the modifiers, the
-- switch of terminals under ALT, the shortcuts under CONTROL, and else the line editor of Keyboard.
-- It runs with the page directory of the process of the shown terminal, and what it puts on the
-- screen goes through that process's page table. A shell that it starts does not return to it, so that
-- a key ends in one of two ways.
pub mod Keeps
pub mod Switch
pub mod Alt
pub mod Total
pub mod Colours
use snoop_diggity_d_os.Prelude.{
  elements, ℕ, zero, suc, ◌+◌, ◌*◌, ◌%◌, ◌^◌, ◌/◌, List, [], ◌∷◌, ◌++◌, Option, none, some, Bool,
  true, false, ◌&&◌, ◌||◌, not, ltb, leb, ◌==◌, if◌then◌else◌, update, bit_and, bit_or, ℤ, pos,
  negsuc, is_neg,
}
use snoop_diggity_d_os.Prelude.Tables.{for_range}
use snoop_diggity_d_os.Strings.{strlen}
use snoop_diggity_d_os.Screen.{Screen, change_atribute, clear_and_reset, set_cursor_location}
use snoop_diggity_d_os.Pic.{PortWrite, Masks, enable_irq, send_eoi}
use snoop_diggity_d_os.Pids.{get_available_pid}
use snoop_diggity_d_os.Scancodes.{Scancode, scancode_table, is_make_sc}
use snoop_diggity_d_os.Keyboard.{
  Console, init_terminal, update_keyboard_state, is_on, alt_mask, control_mask, edit_line,
}
use snoop_diggity_d_os.Terminals.Output.{shown_pid, on_page, from_page, print_text, print_string}
use snoop_diggity_d_os.Terminals.{
  State, Slot, page_offset, through, stored, save_cursor, change_terminal_state, write_terminal,
}

-- How a key ends: process_sent_scancode returns, or a shell is to be started by internal_execute. With
-- the state there are the writes to the ports.
pub data Pressed : Type 0 where
  returns : State → List PortWrite → Pressed
  starts_shell : State → List PortWrite → Pressed

-- "\nCould not start new terminal: max processes running\n"
abbrev pub no_process : List ℕ
no_process =
    10 ∷ 67 ∷ 111 ∷ 117 ∷ 108 ∷ 100 ∷ 32 ∷ 110 ∷ 111 ∷ 116 ∷ 32 ∷ 115 ∷ 116 ∷ 97 ∷ 114 ∷ 116 ∷ 32
    ∷ 110 ∷ 101 ∷ 119 ∷ 32 ∷ 116 ∷ 101 ∷ 114 ∷ 109 ∷ 105 ∷ 110 ∷ 97 ∷ 108 ∷ 58 ∷ 32 ∷ 109 ∷ 97 ∷ 120
    ∷ 32 ∷ 112 ∷ 114 ∷ 111 ∷ 99 ∷ 101 ∷ 115 ∷ 115 ∷ 101 ∷ 115 ∷ 32 ∷ 114 ∷ 117 ∷ 110 ∷ 110 ∷ 105
    ∷ 110 ∷ 103 ∷ 10 ∷ 0 ∷ []

-- "391OS> "
abbrev pub prompt : List ℕ
prompt = 51 ∷ 57 ∷ 49 ∷ 79 ∷ 83 ∷ 62 ∷ 32 ∷ 0 ∷ []

-- CAN_SWITCH_TWO and CAN_SWITCH_THREE
unfoldable pub can_switch : State → ℕ → ℕ → Bool
can_switch s mask to =
    let launched = not (bit_and s.terminals_launched mask == 0) in
    (not launched && not (is_neg (get_available_pid s.pid_avail)) || launched)
    && not (s.terminal_state == to)

-- what is done before the shell of a terminal is started
abbrev pub start_terminal : State → ℕ → List PortWrite → Pressed
start_terminal s mask writes =
    starts_shell
      (record s {
        terminal_being_serviced = s.terminal_state;
        terminals_launched = bit_or s.terminals_launched mask % 256;
      })
      (writes ++ send_eoi 1)

-- the cases F2_MAKE and F3_MAKE
unfoldable pub second_or_third : State → ℕ → ℕ → Option Pressed
second_or_third s mask to =
    if can_switch s mask to
    then some (
        let (s', writes) = change_terminal_state s s.terminal_state to in
        if bit_and s'.terminals_launched mask == 0
        then start_terminal s' mask writes
        else returns s' writes)
    else if not (s.terminal_state == to)
    then elim (print_text s no_process) [
      | none ↦ none
      | some (s', writes) ↦ elim (print_text s' prompt) [
        | none ↦ none
        | some (s'', more) ↦ some (returns s'' (writes ++ more))
      ]
    ]
    else some (returns s [])

-- the branch under ALT
unfoldable pub alt_key : State → ℕ → Option Pressed
alt_key s result =
    if result == 14
    then some (
        if s.terminal_state == 0
        then returns s []
        else (let (s', writes) = change_terminal_state s s.terminal_state 0 in returns s' writes))
    else if result == 16
    then second_or_third s 0x02 1
    else if result == 18
    then second_or_third s 0x04 2
    else some (returns s [])

-- ctrl + l, up to the prompt
abbrev pub after_clear : State → State
after_clear s = record (from_page s (clear_and_reset (on_page s s.screen))) {
  terminals = save_cursor s.terminals s.terminal_state 0 0;
  terminal_being_serviced = s.terminal_state;
}

-- ctrl + l
unfoldable pub clear_shortcut : State → Option (State × List PortWrite)
clear_shortcut s = elim (print_text (after_clear s) prompt) [
  | none ↦ none
  | some (s₂, writes) ↦
      elim (print_string s₂ (elements ((s₂.terminals s₂.terminal_state).line.stdin) 128 0)) [
        | none ↦ none
        | some (s₃, more) ↦ some (
          record s₃ { terminal_being_serviced = s.terminal_being_serviced },
          set_cursor_location 0 0 ++ (writes ++ more),
        )
      ]
]

-- What the keyboard driver keeps: the modifiers, the colours, and the terminals.
pub record Driver : Type 0 where
  pub keyboard_state : ℕ
  pub curr_attribute : ℕ
  pub curr_back_attribute : ℕ
  pub terminals : State

-- curr_attribute++ and curr_back_attribute++ with their wraps
unfoldable pub next_attribute : ℕ → ℕ
next_attribute a = if ltb 0x0F (a + 1) then 0x01 else a + 1

unfoldable pub next_back_attribute : ℕ → ℕ
next_back_attribute a = if ltb 0x0F (a + 1) then 0x00 else a + 1

-- change_atribute((curr_back_attribute << COLOR_SHIFT) | curr_attribute), its argument a `uint8_t`
abbrev pub recoloured : Driver → State
recoloured k = from_page k.terminals (
    change_atribute (on_page k.terminals k.terminals.screen)
      (bit_or (k.curr_back_attribute * 2 ^ 4) k.curr_attribute % 256))

-- the branch under CONTROL
unfoldable pub control_key : Driver → ℕ → Option (Driver × List PortWrite)
control_key k result =
    if result == 108
    then elim (clear_shortcut k.terminals) [
      | none ↦ none
      | some (s, writes) ↦ some (record k { terminals = s }, writes)
    ]
    else if result == 54
    then (let k' = record k { curr_attribute = next_attribute k.curr_attribute } in
        some (record k' { terminals = recoloured k' }, []))
    else if result == 55
    then (let k' = record k { curr_back_attribute = next_back_attribute k.curr_back_attribute } in
        some (record k' { terminals = recoloured k' }, []))
    else some (k, [])

-- the writes of the calls of putc_kbd, the last of them first
abbrev in_order : List (List PortWrite) → List PortWrite
in_order [] = []
in_order (last ∷ before) = in_order before ++ last

-- the rest, on the line of the shown terminal
unfoldable pub line_key : State → ℕ → Scancode → State × List PortWrite
line_key s state mapped =
    let own = s.terminals s.terminal_state in
    let k =
      edit_line (record { terminal = own.line; screen = on_page s s.screen; writes = [] }) state
        mapped in
    (
      record (from_page s k.screen) {
        terminals = update s.terminals s.terminal_state (record own { line = k.terminal });
      },
      in_order k.writes,
    )

-- get_char, for the bytes that the data port gives
unfoldable pub get_char : ℕ → ℕ → ℕ
get_char first second = if first == 0xE0 then second else first

-- init_kbd behind init_scancode_table; it leaves the pids of the terminals
unfoldable pub init_kbd : (ℕ → ℕ) → Masks → (ℕ → Slot) → (ℕ → Slot) × (Masks × List PortWrite)
init_kbd inb masks terminals = (
  for_range 3 0
      (λ i terminals.
        update terminals i
          (record { screen_x = 0; screen_y = 0; line = init_terminal; pid = (terminals i).pid }))
      terminals,
  enable_irq inb masks 1,
)

-- What process_sent_scancode leaves: the driver's state, the writes, and whether a shell is to be
-- started.
pub record Handled : Type 0 where
  pub driver : Driver
  pub writes : List PortWrite
  pub shell : Bool

abbrev pub of_pressed : Driver → Pressed → Handled
of_pressed k (returns s writes) = record {
  driver = record k { terminals = s };
  writes = writes;
  shell = false;
}
of_pressed k (starts_shell s writes) = record {
  driver = record k { terminals = s };
  writes = writes;
  shell = true;
}

-- process_sent_scancode for the byte that get_char reads
unfoldable pub process_sent_scancode : Driver → ℕ → Option Handled
process_sent_scancode k raw =
    let state = update_keyboard_state k.keyboard_state raw in
    let k₁ = record k { keyboard_state = state } in
    let mapped = scancode_table raw in
    if raw == 0x53
    then some (record { driver = k; writes = []; shell = false })
    else if not (is_make_sc mapped)
    then some (record { driver = k₁; writes = []; shell = false })
    else if is_on state alt_mask
    then elim (alt_key k.terminals mapped.result) [
      | none ↦ none
      | some end ↦ some (of_pressed k₁ end)
    ]
    else if is_on state control_mask
    then elim (control_key k₁ mapped.result) [
      | none ↦ none
      | some (k₂, writes) ↦ some (record { driver = k₂; writes = writes; shell = false })
    ]
    else (let (s, writes) = line_key k.terminals state mapped in
        some (record { driver = record k₁ { terminals = s }; writes = writes; shell = false }))
