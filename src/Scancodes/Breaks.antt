-- ===== src/Scancodes/Breaks.antt =====
-- init_scancode_table of student-distrib/devices/scancodes.c: the assignments for released keys.
use snoop_diggity_d_os.Prelude.{◌+◌, List, [], ◌∷◌}
use snoop_diggity_d_os.Scancodes.Entry.{
  Assignment, assign, scancode_break, scancode_printable, scancode_letter, scancode_number,
  scancode_modifier,
}

-- keys without a character, released (first: 0x81)
unfoldable pub command_breaks : List Assignment
command_breaks =
    assign 0x81 12 (scancode_break)
    ∷ assign 0x8E 0 (scancode_break)
    ∷ assign 0x9D 3 (scancode_break + scancode_modifier)
    ∷ assign 0xAA 2 (scancode_break + scancode_modifier)
    ∷ assign 0xB6 6 (scancode_break + scancode_modifier)
    ∷ assign 0xB7 7 (scancode_break)
    ∷ assign 0xB8 5 (scancode_break + scancode_modifier)
    ∷ assign 0xBA 1 (scancode_break)
    ∷ assign 0xBB 14 (scancode_break)
    ∷ assign 0xBC 16 (scancode_break)
    ∷ assign 0xBD 18 (scancode_break)
    ∷ assign 0xBE 20 (scancode_break)
    ∷ assign 0xBF 22 (scancode_break)
    ∷ assign 0xC0 24 (scancode_break)
    ∷ assign 0xC1 26 (scancode_break)
    ∷ assign 0xC2 28 (scancode_break)
    ∷ assign 0xC3 30 (scancode_break)
    ∷ assign 0xC4 31 (scancode_break)
    ∷ assign 0xC5 4 (scancode_break)
    ∷ assign 0xC6 34 (scancode_break)
    ∷ assign 0xC7 25 (scancode_break)
    ∷ assign 0xC8 27 (scancode_break)
    ∷ assign 0xC9 29 (scancode_break)
    ∷ assign 0xCA 8 (scancode_break)
    ∷ assign 0xCB 19 (scancode_break)
    ∷ assign 0xCC 21 (scancode_break)
    ∷ assign 0xCD 23 (scancode_break)
    ∷ assign 0xCE 9 (scancode_break)
    ∷ assign 0xCF 13 (scancode_break)
    ∷ assign 0xD0 15 (scancode_break)
    ∷ assign 0xD1 17 (scancode_break)
    ∷ assign 0xD2 11 (scancode_break)
    ∷ assign 0xD3 10 (scancode_break)
    ∷ assign 0xD7 32 (scancode_break)
    ∷ assign 0xD8 33 (scancode_break)
    ∷ []

-- keys from "1" on, released (first: 0x82)
unfoldable pub upper_breaks : List Assignment
upper_breaks =
    assign 0x82 49 (scancode_break + scancode_number + scancode_printable)
    ∷ assign 0x83 50 (scancode_break + scancode_number + scancode_printable)
    ∷ assign 0x84 51 (scancode_break + scancode_number + scancode_printable)
    ∷ assign 0x85 52 (scancode_break + scancode_number + scancode_printable)
    ∷ assign 0x86 53 (scancode_break + scancode_number + scancode_printable)
    ∷ assign 0x87 54 (scancode_break + scancode_number + scancode_printable)
    ∷ assign 0x88 55 (scancode_break + scancode_number + scancode_printable)
    ∷ assign 0x89 96 (scancode_break + scancode_printable)
    ∷ assign 0x89 56 (scancode_break + scancode_number + scancode_printable)
    ∷ assign 0x8A 57 (scancode_break + scancode_number + scancode_printable)
    ∷ assign 0x8B 48 (scancode_break + scancode_number + scancode_printable)
    ∷ assign 0x8C 45 (scancode_break + scancode_printable)
    ∷ assign 0x8D 61 (scancode_break + scancode_printable)
    ∷ assign 0x8F 9 (scancode_break + scancode_printable)
    ∷ assign 0x90 113 (scancode_break + scancode_letter + scancode_printable)
    ∷ assign 0x91 119 (scancode_break + scancode_letter + scancode_printable)
    ∷ assign 0x92 101 (scancode_break + scancode_letter + scancode_printable)
    ∷ assign 0x93 114 (scancode_break + scancode_letter + scancode_printable)
    ∷ assign 0x94 116 (scancode_break + scancode_letter + scancode_printable)
    ∷ assign 0x95 121 (scancode_break + scancode_letter + scancode_printable)
    ∷ assign 0x96 117 (scancode_break + scancode_letter + scancode_printable)
    ∷ assign 0x97 105 (scancode_break + scancode_letter + scancode_printable)
    ∷ assign 0x98 111 (scancode_break + scancode_letter + scancode_printable)
    ∷ assign 0x99 112 (scancode_break + scancode_letter + scancode_printable)
    ∷ assign 0x9A 91 (scancode_break + scancode_printable)
    ∷ []

-- keys from "]" on, released (first: 0x9B)
unfoldable pub lower_breaks : List Assignment
lower_breaks =
    assign 0x9B 93 (scancode_break + scancode_printable)
    ∷ assign 0x9C 10 (scancode_break + scancode_printable)
    ∷ assign 0x9E 97 (scancode_break + scancode_letter + scancode_printable)
    ∷ assign 0x9F 115 (scancode_break + scancode_letter + scancode_printable)
    ∷ assign 0xA0 100 (scancode_break + scancode_letter + scancode_printable)
    ∷ assign 0xA1 102 (scancode_break + scancode_letter + scancode_printable)
    ∷ assign 0xA2 103 (scancode_break + scancode_letter + scancode_printable)
    ∷ assign 0xA3 104 (scancode_break + scancode_letter + scancode_printable)
    ∷ assign 0xA4 106 (scancode_break + scancode_letter + scancode_printable)
    ∷ assign 0xA5 107 (scancode_break + scancode_letter + scancode_printable)
    ∷ assign 0xA6 108 (scancode_break + scancode_letter + scancode_printable)
    ∷ assign 0xA7 59 (scancode_break + scancode_printable)
    ∷ assign 0xA8 39 (scancode_break + scancode_printable)
    ∷ assign 0xAB 92 (scancode_break + scancode_printable)
    ∷ assign 0xAC 122 (scancode_break + scancode_letter + scancode_printable)
    ∷ assign 0xAD 120 (scancode_break + scancode_letter + scancode_printable)
    ∷ assign 0xAE 99 (scancode_break + scancode_letter + scancode_printable)
    ∷ assign 0xAF 118 (scancode_break + scancode_letter + scancode_printable)
    ∷ assign 0xB0 98 (scancode_break + scancode_letter + scancode_printable)
    ∷ assign 0xB1 110 (scancode_break + scancode_letter + scancode_printable)
    ∷ assign 0xB2 109 (scancode_break + scancode_letter + scancode_printable)
    ∷ assign 0xB3 44 (scancode_break + scancode_printable)
    ∷ assign 0xB4 46 (scancode_break + scancode_printable)
    ∷ assign 0xB5 47 (scancode_break + scancode_printable)
    ∷ assign 0xB9 32 (scancode_break + scancode_printable)
    ∷ []
