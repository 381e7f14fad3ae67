-- ===== src/Screen/Put.antt =====
-- The character functions of student-distrib/lib.c: putc_screen, putc_kbd, putc and put_t.
use snoop_diggity_d_os.Prelude.{
  ℕ, zero, suc, ◌+◌, ◌-◌, ◌*◌, ◌/◌, ◌%◌, ◌<◌, ◌≤◌, ◌≡◌, refl, ◌∙◌, List, [], ◌∷◌, Bool, true, false,
  ◌&&◌, ◌||◌, leb, ◌==◌, arith, Bool-cases, inl, inr, some, not, length,
}
use snoop_diggity_d_os.Strings.{c_string}
use snoop_diggity_d_os.Strings.Compare.{IsReadable, tail_IsReadable}
use snoop_diggity_d_os.Screen.{
  Screen, put_cell, num_cols, num_rows, empty_space, new_line, carriage_return, bksp_char, place,
  putc_screen, putc, put_t, shift_screen_up,
}
use snoop_diggity_d_os.Screen.Scroll.{shift_screen_up-mem, blank}

-- The cursor is on the screen.
pub record IsValid (s : Screen) : Type 0 where
  pub in_cols : s.x < 80
  pub in_rows : s.y < 25

-- Not a line break or a backspace.
abbrev pub is_ordinary : ℕ → Bool
is_ordinary c = not (c == new_line || c == carriage_return) && not (c == bksp_char)

place-x : (s : Screen) (c : ℕ) → IsValid s → ((place s c).x < 80) × ((place s c).y ≤ 25)
unfolding place
place-x s c v = ground arith

place-mem : (s : Screen) (c j : ℕ) → IsValid s → 4000 ≤ j → (place s c).mem j ≡ s.mem j
unfolding place
place-mem s c j v h = ground arith

shift_screen_up-place :
    (s : Screen) → ((shift_screen_up s).x ≡ s.x) × ((shift_screen_up s).y ≡ s.y - 1)
unfolding shift_screen_up
shift_screen_up-place s = (refl, refl)

-- What the third branch of the character functions makes of the screen.
abbrev printed : Screen → ℕ → Screen
printed s c = record s {
  mem = put_cell s.mem (num_cols * s.y + s.x) c s.attribute;
  y = s.y + (s.x + 1) / num_cols;
  x = (s.x + 1) % num_cols;
}

place-printed : (s : Screen) (c : ℕ) → is_ordinary c ≡ true → place s c ≡ printed s c
unfolding place
place-printed s c o =
    let a : (c == new_line || c == carriage_return) ≡ false = ground arith in
    let b : (c == bksp_char) ≡ false = ground arith in rw (a, b)

putc_screen-printed :
    (s : Screen) (c : ℕ)
    → is_ordinary c ≡ true
    → (printed s c).y < 25
    → putc_screen s c ≡ printed s c
unfolding putc_screen
putc_screen-printed s c o h =
    let fits : leb num_rows (printed s c).y ≡ false = ground arith in rw (place-printed s c o, fits)

-- Whatever the character, putc_screen leaves a cursor that is on the screen on the screen, and
-- changes no byte past the 4000 of the screen.
pub putc_screen-IsValid :
    (s : Screen) (c : ℕ)
    → IsValid s
    → IsValid (putc_screen s c) × ((j : ℕ) → 4000 ≤ j → (putc_screen s c).mem j ≡ s.mem j)
unfolding putc_screen
putc_screen-IsValid s c v = elim (Bool-cases (leb num_rows (place s c).y)) [
  | inl over ↦
      let (hx, hy) = place-x s c v in
      let (sx, sy) = shift_screen_up-place (place s c) in
      rw over (
        record { in_cols = omega arith; in_rows = ground arith },
        λ j h. ground (arith, shift_screen_up-mem (place s c) j, place-mem s c j v h),
      )
  | inr fits ↦
      let (hx, hy) = place-x s c v in
      rw fits (record { in_cols = hx; in_rows = ground arith }, λ j h. place-mem s c j v h)
]

-- With the cursor on the screen and before its last cell, an ordinary character is put into the
-- cell of the cursor with the current attribute, all other bytes stay, and the cursor moves to
-- the next cell.
pub putc_screen-ordinary :
    (s : Screen) (c : ℕ)
    → IsValid s
    → is_ordinary c ≡ true
    → s.y * 80 + s.x < 1999
    → let s' = putc_screen s c in
      (s'.y * 80 + s'.x ≡ s.y * 80 + s.x + 1)
      × ((j : ℕ) → s'.mem j ≡ put_cell s.mem (80 * s.y + s.x) c s.attribute j)
putc_screen-ordinary s c v o room =
    rw (putc_screen-printed s c o (omega arith)) (omega arith, λ j. refl)

-- An ordinary character in the screen's last cell scrolls: the character is then at the end of
-- the row above the last, the rows have moved up by one, the last row is blank, and the cursor
-- is at its start.
pub putc_screen-last_cell :
    (s : Screen) (c : ℕ)
    → s.x ≡ 79
    → s.y ≡ 24
    → is_ordinary c ≡ true
    → let s' = putc_screen s c in
      (s'.x ≡ 0)
      × (s'.y ≡ 24)
      × (s'.mem 3838 ≡ c)
      × ((j : ℕ) → j < 3838 → s'.mem j ≡ s.mem (j + 160))
      × ((j : ℕ) → 3840 ≤ j → j < 4000 → s'.mem j ≡ blank s.attribute j)
unfolding putc_screen
putc_screen-last_cell s c ex ey o =
    let over : leb num_rows (printed s c).y ≡ true = ground arith in
    let (sx, sy) = shift_screen_up-place (printed s c) in
    rw (place-printed s c o, over)
      (
        omega arith,
        omega arith,
        ground (arith, shift_screen_up-mem (printed s c) 3838),
        λ j h. ground (arith, shift_screen_up-mem (printed s c) j),
        λ j h k. ground (arith, shift_screen_up-mem (printed s c) j),
      )

bksp-printed :
    (s : Screen) (c : ℕ)
    → IsValid s
    → s.y * 80 + s.x < 1999
    → let s' = putc_screen (printed s c) bksp_char in
      (s'.x ≡ s.x)
      × (s'.y ≡ s.y)
      × ((j : ℕ) → s'.mem j ≡ put_cell s.mem (80 * s.y + s.x) empty_space s.attribute j)
unfolding putc_screen place
bksp-printed s c v room = (ground arith, ground arith, λ j. ground arith)

-- With the cursor on the screen and before its last cell, a backspace after an ordinary
-- character brings the cursor back, blanks the character's cell and leaves the rest of the
-- screen.
pub putc_screen-bksp :
    (s : Screen) (c : ℕ)
    → IsValid s
    → is_ordinary c ≡ true
    → s.y * 80 + s.x < 1999
    → let s' = putc_screen (putc_screen s c) bksp_char in
      (s'.x ≡ s.x)
      × (s'.y ≡ s.y)
      × ((j : ℕ) → s'.mem j ≡ put_cell s.mem (80 * s.y + s.x) empty_space s.attribute j)
putc_screen-bksp s c v o room =
    rw (putc_screen-printed s c o (omega arith))
      (let (ex, ey, em) = bksp-printed s c v room in (ex, ey, em))

-- putc does not scroll for a line break: a line break in the last row and a character then write
-- that character past the 4000 bytes of the screen.
pub putc-overflows :
    (s : Screen) (c : ℕ)
    → s.y ≡ 24
    → is_ordinary c ≡ true
    → ((putc s new_line).y ≡ 25) × ((putc (putc s new_line) c).mem 4000 ≡ c)
unfolding putc
putc-overflows s c e o =
    let a : (c == new_line || c == carriage_return) ≡ false = ground arith in
    rw a (
      omega arith,
      ground (arith, shift_screen_up-mem (printed (record s { y = s.y + 1; x = 0 }) c) 4000),
    )

-- The screen after the characters of a list.
abbrev pub put_all : Screen → List ℕ → Screen
put_all s [] = s
put_all s (c ∷ cs) = put_all (putc_screen s c) cs

-- With the cursor on the screen and a readable string, put_t shows the characters of the string
-- up to its NUL or `size` bytes, in order, and returns their number; it ends with the cursor on
-- the screen and nothing written past the screen.
pub put_t-put_all :
    (s : Screen) (str : List ℕ) (size : ℕ)
    → IsValid s
    → IsReadable (suc size) str
    → (put_t s str size ≡ some (put_all s (c_string size str), length (c_string size str)))
      × IsValid (put_all s (c_string size str))
      × ((j : ℕ) → 4000 ≤ j → (put_all s (c_string size str)).mem j ≡ s.mem j)
unfolding put_t
put_t-put_all s [] size v r = absurd r
put_t-put_all s (c ∷ cs) zero v r = (refl, v, λ j h. refl)
put_t-put_all s (c ∷ cs) (suc size) v r = elim (Bool-cases (c == 0)) [
  | inl z ↦ rw z (refl, v, λ j h. refl)
  | inr nz ↦
      let (v', frame) = putc_screen-IsValid s c v in
      let (run, v'', frame') =
        put_t-put_all (putc_screen s c) cs size v' (tail_IsReadable (suc size) c cs r nz) in
      let count : length (c_string size cs) + 1 ≡ suc (length (c_string size cs)) = omega arith in
      rw (nz, run, count) (refl, v'', λ j h. frame' j h ∙ frame j h)
]
