-- ===== src/Screen/Scroll.antt =====
-- shift_screen_up and the clearing loops of student-distrib/lib.c, cell by cell.
use snoop_diggity_d_os.Prelude.{
  ℕ, zero, suc, ◌+◌, ◌*◌, ◌%◌, ◌≡◌, ◌∙◌, ◌&&◌, ltb, leb, ◌==◌, if◌then◌else◌, arith, Bool-cases,
  inl, inr,
}
use snoop_diggity_d_os.Prelude.Tables.{for_range}
use snoop_diggity_d_os.Screen.{
  Screen, put_cell, num_cols, empty_space, copy_rows, clear_last_row, shift_screen_up,
}

-- One round, seen from a byte at or above the cell written.
copy_cell : (ℕ → ℕ) → ℕ → ℕ → ℕ
copy_cell mem i = put_cell mem i (mem (2 * (i + num_cols))) (mem (2 * (i + num_cols) + 1))

copy_cell-at :
    (mem : ℕ → ℕ) (i j : ℕ)
    → copy_cell mem i j ≡ (if leb (2 * i) j && ltb j (2 * i + 2) then mem (j + 160) else mem j)
unfolding copy_cell
copy_cell-at mem i j = elim (Bool-cases (j == 2 * i)) [
  | inl even ↦
      let e : j ≡ 2 * i = ground arith in
      let src : 2 * (i + num_cols) ≡ j + 160 = omega arith in rw src (ground arith)
  | inr not_even ↦ elim (Bool-cases (j == 2 * i + 1)) [
    | inl odd ↦
        let e : j ≡ 2 * i + 1 = ground arith in
        let src : 2 * (i + num_cols) + 1 ≡ j + 160 = omega arith in rw src (ground arith)
    | inr not_odd ↦ ground arith
  ]
]

-- The forward copy reads each row before the loop comes to it.
copy_loop :
    (n i : ℕ) (mem : ℕ → ℕ) (j : ℕ)
    → for_range n i (λ i mem. copy_cell mem i) mem j
      ≡ (if leb (2 * i) j && ltb j (2 * (i + n)) then mem (j + 160) else mem j)
unfolding for_range
copy_loop zero i mem j = ground arith
copy_loop (suc n) i mem j =
    copy_loop n (i + 1) (copy_cell mem i) j
    ∙ ground (arith, copy_cell-at mem i j, copy_cell-at mem i (j + 160))

pub copy_rows-at :
    (mem : ℕ → ℕ) (j : ℕ) → copy_rows mem j ≡ (if ltb j 3840 then mem (j + 160) else mem j)
unfolding copy_rows copy_cell
copy_rows-at mem j = copy_loop 1920 0 mem j ∙ ground arith

-- The byte that a clearing loop leaves: a space, or the attribute.
abbrev pub blank : ℕ → ℕ → ℕ
blank attribute j = if j % 2 == 0 then empty_space else attribute

blank_cell-at :
    (mem : ℕ → ℕ) (i attribute j : ℕ)
    → put_cell mem i empty_space attribute j
      ≡ (if leb (2 * i) j && ltb j (2 * i + 2) then blank attribute j else mem j)
blank_cell-at mem i attribute j = ground arith

pub blank_loop :
    (attribute k n i : ℕ) (mem : ℕ → ℕ) (j : ℕ)
    → for_range n i (λ i mem. put_cell mem (i + k) empty_space attribute) mem j
      ≡ (if leb (2 * (i + k)) j && ltb j (2 * (i + k + n)) then blank attribute j else mem j)
unfolding for_range
blank_loop attribute k zero i mem j = ground arith
blank_loop attribute k (suc n) i mem j =
    blank_loop attribute k n (i + 1) (put_cell mem (i + k) empty_space attribute) j
    ∙ ground (arith, blank_cell-at mem (i + k) attribute j)

clear_last_row-at :
    (attribute : ℕ) (mem : ℕ → ℕ) (j : ℕ)
    → clear_last_row attribute mem j
      ≡ (if leb 3840 j && ltb j 4000 then blank attribute j else mem j)
unfolding clear_last_row
clear_last_row-at attribute mem j = blank_loop attribute 1920 80 0 mem j ∙ ground arith

-- shift_screen_up moves every row up by one, clears the last, and touches no byte past the 4000
-- of the screen.
pub shift_screen_up-mem :
    (s : Screen) (j : ℕ)
    → (shift_screen_up s).mem j ≡ (
        if ltb j 3840 then s.mem (j + 160) else if ltb j 4000 then blank s.attribute j else s.mem j)
unfolding shift_screen_up
shift_screen_up-mem s j =
    clear_last_row-at s.attribute (copy_rows s.mem) j ∙ ground (arith, copy_rows-at s.mem j)
