-- ===== src/Tests/Console.antt =====
-- The screen and the keyboard.
use snoop_diggity_d_os.Prelude.{ℕ, ◌+◌, ◌*◌, ◌%◌, ◌≤◌, ◌≡◌, refl, List, [], ◌∷◌, true, arith}
use snoop_diggity_d_os.Screen.{Screen, initialize_video_memory, putc_screen, putc, new_line}
use snoop_diggity_d_os.Screen.Pages.{initialize_video_memory-page}
use snoop_diggity_d_os.Screen.Put.{IsValid, putc_screen-IsValid, putc-overflows}
use snoop_diggity_d_os.Scancodes.{scancode_table, is_letter_sc}
use snoop_diggity_d_os.Keyboard.{Console, init_terminal}
use snoop_diggity_d_os.Keyboard.Line.{IsLine}
use snoop_diggity_d_os.Keyboard.Read.{Key, text}

abbrev at : ℕ → ℕ → Screen
at x y = record { x = x; y = y; attribute = 7; mem = λ j. j % 100 }

IsValid-middle : IsValid (at 10 3)
IsValid-middle = record { in_cols = omega arith; in_rows = omega arith }

IsValid-end : IsValid (at 79 24)
IsValid-end = record { in_cols = omega arith; in_rows = omega arith }

putc_screen-IsValid_example :
    IsValid (putc_screen (at 79 24) 65)
    × ((j : ℕ) → 4000 ≤ j → (putc_screen (at 79 24) 65).mem j ≡ (at 79 24).mem j)
putc_screen-IsValid_example = putc_screen-IsValid (at 79 24) 65 IsValid-end

putc-overflows_example :
    ((putc (at 5 24) new_line).y ≡ 25) × ((putc (putc (at 5 24) new_line) 65).mem 4000 ≡ 65)
putc-overflows_example = putc-overflows (at 5 24) 65 refl refl

-- 0x1E is the key of the letter a
letter_a : is_letter_sc (scancode_table 0x1E) ≡ true
unfolding is_letter_sc scancode_table
letter_a = refl

abbrev console : Console
console = record { terminal = init_terminal; screen = at 10 3; writes = [] }

empty-IsLine : IsLine init_terminal
unfolding init_terminal
empty-IsLine = record { inside = omega arith; ended = refl }

-- h, then I with shift on
abbrev keys : List Key
keys = record { state = 0; code = 0x23 } ∷ record { state = 1; code = 0x17 } ∷ []

text-keys : text keys ≡ 104 ∷ 73 ∷ []
unfolding scancode_table is_letter_sc
text-keys = refl

-- a cell at the end of the page of the third terminal
initialize_video_memory-page_example :
    ((initialize_video_memory (at 5 5)).mem (4096 * 3 + 3800) ≡ (at 5 5).mem (4096 * 3 + 3800))
    × ((initialize_video_memory (at 5 5)).x ≡ 0)
    × ((initialize_video_memory (at 5 5)).y ≡ 0)
initialize_video_memory-page_example =
    initialize_video_memory-page (at 5 5) 3 3800 (omega arith) (omega arith)
