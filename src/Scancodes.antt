-- ===== src/Scancodes.antt =====
-- student-distrib/devices/scancodes.c: the table from scancodes to characters that
-- init_scancode_table fills, assignment by assignment, and the table of shifted characters. The
-- source assigns pressed and released keys in turn; no code is assigned in both lists, and those of
-- one list stand in the order of the source.
mod Entry
mod Makes
mod Breaks
pub mod Keys
pub use Entry.{Scancode, Assignment}
use Makes.{command_makes, upper_makes, lower_makes}
use Breaks.{command_breaks, upper_breaks, lower_breaks}
use snoop_diggity_d_os.Prelude.{
  ℕ, ◌+◌, ◌/◌, ◌%◌, ◌^◌, List, [], ◌∷◌, ◌++◌, Bool, ◌==◌, if◌then◌else◌, update, bit_and,
}

-- the characters with a shifted form, and that form
shifted : List (ℕ × ℕ)
shifted =
    (49, 33)
    ∷ (50, 64)
    ∷ (51, 35)
    ∷ (52, 36)
    ∷ (53, 37)
    ∷ (54, 94)
    ∷ (55, 38)
    ∷ (56, 42)
    ∷ (57, 40)
    ∷ (48, 41)
    ∷ (45, 95)
    ∷ (61, 43)
    ∷ (91, 123)
    ∷ (93, 125)
    ∷ (92, 124)
    ∷ (39, 34)
    ∷ (59, 58)
    ∷ (44, 60)
    ∷ (46, 62)
    ∷ (47, 63)
    ∷ (96, 126)
    ∷ []

abbrev assign_all : List Assignment → (ℕ → Scancode) → ℕ → Scancode
assign_all [] table = table
assign_all (a ∷ rest) table = assign_all rest (update table a.code a.entry)

-- scancode_table after init_scancode_table; a static array starts with zeros
unfoldable pub scancode_table : ℕ → Scancode
unfolding command_makes command_breaks upper_makes lower_makes upper_breaks lower_breaks
scancode_table code =
    assign_all
      (command_makes
        ++ (command_breaks ++ (upper_makes ++ (lower_makes ++ (upper_breaks ++ lower_breaks)))))
      (λ _. record { result = 0; flags = 0 }) code

abbrev assign_shifted : List (ℕ × ℕ) → (ℕ → ℕ) → ℕ → ℕ
assign_shifted [] table = table
assign_shifted ((c, d) ∷ rest) table = assign_shifted rest (update table c d)

-- non_alpha_shift_table after init_scancode_table
unfoldable pub non_alpha_shift_table : ℕ → ℕ
unfolding shifted
non_alpha_shift_table c = assign_shifted shifted (λ _. 0) c

-- IS_MAKE_SC, IS_PRINTABLE_SC and IS_LETTER_SC
unfoldable pub is_make_sc : Scancode → Bool
is_make_sc s = bit_and s.flags 1 == 0

unfoldable pub is_printable_sc : Scancode → Bool
is_printable_sc s = bit_and s.flags 2 / 2 == 1

unfoldable pub is_letter_sc : Scancode → Bool
is_letter_sc s = bit_and s.flags 4 / 2 ^ 2 == 1
