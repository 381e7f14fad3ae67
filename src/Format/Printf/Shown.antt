-- ===== src/Format/Printf/Shown.antt =====
-- What the pieces of student-distrib/lib.c's printf and printf_t are shown as.
use snoop_diggity_d_os.Prelude.{ℕ, ◌≡◌, List, some}
use snoop_diggity_d_os.Format.Printf.{Piece, Memory}
use snoop_diggity_d_os.Format.Printf.Items.{Item, shown}
use snoop_diggity_d_os.Format.Printf.Texts.{by_printf_t, by_printf, HasText}

-- An item is shown as a piece with its text, by both functions.
IsShown : Memory → Item → Type 0
IsShown m i =
    (p : Piece) × (t : List ℕ) × (shown m i ≡ some p)
    × HasText m i t
    × (by_printf_t p ≡ t)
    × (by_printf p ≡ t)
