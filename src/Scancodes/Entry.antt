-- ===== src/Scancodes/Entry.antt =====
-- The entries of the table in student-distrib/devices/scancodes.c (scancodes.h). The flags are
-- disjoint bits, so that `|` is a sum.
use snoop_diggity_d_os.Prelude.{ℕ}

-- scancode_t
pub record Scancode : Type 0 where
  pub result : ℕ
  pub flags : ℕ

-- the two assignments for one code
pub record Assignment : Type 0 where
  pub code : ℕ
  pub entry : Scancode

abbrev pub scancode_make : ℕ
scancode_make = 0

abbrev pub scancode_break : ℕ
scancode_break = 1

abbrev pub scancode_printable : ℕ
scancode_printable = 2

abbrev pub scancode_letter : ℕ
scancode_letter = 4

abbrev pub scancode_number : ℕ
scancode_number = 8

abbrev pub scancode_modifier : ℕ
scancode_modifier = 16

abbrev pub assign : ℕ → ℕ → ℕ → Assignment
assign code result flags = record { code = code; entry = record { result = result; flags = flags } }
