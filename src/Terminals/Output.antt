-- ===== src/Terminals/Output.antt =====
-- What the keyboard of student-distrib/devices/keyboard.c shows itself: operations on the screen and
-- texts of printf_t, through the page table of the process of the shown terminal.
use snoop_diggity_d_os.Prelude.{
  ℕ, List, [], ◌∷◌, ◌++◌, Option, none, some, ◌==◌, if◌then◌else◌, pos,
}
use snoop_diggity_d_os.Strings.{strlen}
use snoop_diggity_d_os.Screen.{Screen}
use snoop_diggity_d_os.Pic.{PortWrite}
use snoop_diggity_d_os.Terminals.{State, page_offset, through, stored, write_terminal}

-- the process whose page directory is in force
abbrev pub shown_pid : State → ℕ
shown_pid s = (s.terminals s.terminal_state).pid

-- an operation on the screen, through that process's page for VIDEO
abbrev pub on_page : State → Screen → Screen
on_page s p = record p { mem = through (page_offset (s.tables (shown_pid s))) p.mem }

abbrev pub from_page : State → Screen → State
from_page s p = record s {
  screen = record p { mem = stored (page_offset (s.tables (shown_pid s))) s.screen.mem p.mem };
}

-- printf_t of a text without '%', a call of write_terminal for each character; none when it has no
-- NUL
unfoldable pub print_text : State → List ℕ → Option (State × List PortWrite)
print_text s [] = none
print_text s (c ∷ text) =
    if c == 0
    then some (s, [])
    else elim (write_terminal s (shown_pid s) (pos 1) (c ∷ text) (pos 1)) [
      | none ↦ none
      | some w ↦ elim (print_text w.state text) [
        | none ↦ none
        | some (s', writes) ↦ some (s', w.writes ++ writes)
      ]
    ]

-- printf_t("%s", string)
unfoldable pub print_string : State → List ℕ → Option (State × List PortWrite)
print_string s string = elim (strlen string) [
  | none ↦ none
  | some n ↦ elim (write_terminal s (shown_pid s) (pos 1) string (pos n)) [
    | none ↦ none
    | some w ↦ some (w.state, w.writes)
  ]
]
