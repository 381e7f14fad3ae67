-- ===== src/Scancodes/Makes.antt =====
-- init_scancode_table of student-distrib/devices/scancodes.c: the assignments for pressed keys.
use snoop_diggity_d_os.Prelude.{◌+◌, List, [], ◌∷◌}
use snoop_diggity_d_os.Scancodes.Entry.{
  Assignment, assign, scancode_make, scancode_printable, scancode_letter, scancode_number,
  scancode_modifier,
}

-- keys without a character, pressed (first: 0x01)
unfoldable pub command_makes : List Assignment
command_makes =
    assign 0x01 12 (scancode_make)
    ∷ assign 0x0E 0 (scancode_make)
    ∷ assign 0x1D 3 (scancode_make + scancode_modifier)
    ∷ assign 0x2A 2 (scancode_make + scancode_modifier)
    ∷ assign 0x36 6 (scancode_make + scancode_modifier)
    ∷ assign 0x37 7 (scancode_make)
    ∷ assign 0x38 5 (scancode_make + scancode_modifier)
    ∷ assign 0x3A 1 (scancode_make)
    ∷ assign 0x3B 14 (scancode_make)
    ∷ assign 0x3C 16 (scancode_make)
    ∷ assign 0x3D 18 (scancode_make)
    ∷ assign 0x3E 20 (scancode_make)
    ∷ assign 0x3F 22 (scancode_make)
    ∷ assign 0x40 24 (scancode_make)
    ∷ assign 0x41 26 (scancode_make)
    ∷ assign 0x42 28 (scancode_make)
    ∷ assign 0x43 30 (scancode_make)
    ∷ assign 0x44 31 (scancode_make)
    ∷ assign 0x45 4 (scancode_make)
    ∷ assign 0x46 34 (scancode_make)
    ∷ assign 0x47 25 (scancode_make)
    ∷ assign 0x48 27 (scancode_make)
    ∷ assign 0x49 29 (scancode_make)
    ∷ assign 0x4A 8 (scancode_make)
    ∷ assign 0x4B 19 (scancode_make)
    ∷ assign 0x4C 21 (scancode_make)
    ∷ assign 0x4D 23 (scancode_make)
    ∷ assign 0x4E 9 (scancode_make)
    ∷ assign 0x4F 13 (scancode_make)
    ∷ assign 0x50 15 (scancode_make)
    ∷ assign 0x51 17 (scancode_make)
    ∷ assign 0x52 11 (scancode_make)
    ∷ assign 0x53 10 (scancode_make)
    ∷ assign 0x57 32 (scancode_make)
    ∷ assign 0x58 33 (scancode_make)
    ∷ []

-- keys from "1" on, pressed (first: 0x02)
unfoldable pub upper_makes : List Assignment
upper_makes =
    assign 0x02 49 (scancode_make + scancode_number + scancode_printable)
    ∷ assign 0x03 50 (scancode_make + scancode_number + scancode_printable)
    ∷ assign 0x04 51 (scancode_make + scancode_number + scancode_printable)
    ∷ assign 0x05 52 (scancode_make + scancode_number + scancode_printable)
    ∷ assign 0x06 53 (scancode_make + scancode_number + scancode_printable)
    ∷ assign 0x07 54 (scancode_make + scancode_number + scancode_printable)
    ∷ assign 0x08 55 (scancode_make + scancode_number + scancode_printable)
    ∷ assign 0x09 56 (scancode_make + scancode_number + scancode_printable)
    ∷ assign 0x0A 57 (scancode_make + scancode_number + scancode_printable)
    ∷ assign 0x0B 48 (scancode_make + scancode_number + scancode_printable)
    ∷ assign 0x0C 45 (scancode_make + scancode_printable)
    ∷ assign 0x0D 61 (scancode_make + scancode_printable)
    ∷ assign 0x0F 9 (scancode_make)
    ∷ assign 0x10 113 (scancode_make + scancode_letter + scancode_printable)
    ∷ assign 0x11 119 (scancode_make + scancode_letter + scancode_printable)
    ∷ assign 0x12 101 (scancode_make + scancode_letter + scancode_printable)
    ∷ assign 0x13 114 (scancode_make + scancode_letter + scancode_printable)
    ∷ assign 0x14 116 (scancode_make + scancode_letter + scancode_printable)
    ∷ assign 0x15 121 (scancode_make + scancode_letter + scancode_printable)
    ∷ assign 0x16 117 (scancode_make + scancode_letter + scancode_printable)
    ∷ assign 0x17 105 (scancode_make + scancode_letter + scancode_printable)
    ∷ assign 0x18 111 (scancode_make + scancode_letter + scancode_printable)
    ∷ assign 0x19 112 (scancode_make + scancode_letter + scancode_printable)
    ∷ assign 0x1A 91 (scancode_make + scancode_printable)
    ∷ assign 0x1B 93 (scancode_make + scancode_printable)
    ∷ []

-- keys from "]" on, pressed (first: 0x1C)
unfoldable pub lower_makes : List Assignment
lower_makes =
    assign 0x1C 10 (scancode_make + scancode_printable)
    ∷ assign 0x1E 97 (scancode_make + scancode_letter + scancode_printable)
    ∷ assign 0x1F 115 (scancode_make + scancode_letter + scancode_printable)
    ∷ assign 0x20 100 (scancode_make + scancode_letter + scancode_printable)
    ∷ assign 0x21 102 (scancode_make + scancode_letter + scancode_printable)
    ∷ assign 0x22 103 (scancode_make + scancode_letter + scancode_printable)
    ∷ assign 0x23 104 (scancode_make + scancode_letter + scancode_printable)
    ∷ assign 0x24 106 (scancode_make + scancode_letter + scancode_printable)
    ∷ assign 0x25 107 (scancode_make + scancode_letter + scancode_printable)
    ∷ assign 0x26 108 (scancode_make + scancode_letter + scancode_printable)
    ∷ assign 0x27 59 (scancode_make + scancode_printable)
    ∷ assign 0x28 39 (scancode_make + scancode_printable)
    ∷ assign 0x29 96 (scancode_make + scancode_printable)
    ∷ assign 0x2B 92 (scancode_make + scancode_printable)
    ∷ assign 0x2C 122 (scancode_make + scancode_letter + scancode_printable)
    ∷ assign 0x2D 120 (scancode_make + scancode_letter + scancode_printable)
    ∷ assign 0x2E 99 (scancode_make + scancode_letter + scancode_printable)
    ∷ assign 0x2F 118 (scancode_make + scancode_letter + scancode_printable)
    ∷ assign 0x30 98 (scancode_make + scancode_letter + scancode_printable)
    ∷ assign 0x31 110 (scancode_make + scancode_letter + scancode_printable)
    ∷ assign 0x32 109 (scancode_make + scancode_letter + scancode_printable)
    ∷ assign 0x33 44 (scancode_make + scancode_printable)
    ∷ assign 0x34 46 (scancode_make + scancode_printable)
    ∷ assign 0x35 47 (scancode_make + scancode_printable)
    ∷ assign 0x39 32 (scancode_make + scancode_printable)
    ∷ []
