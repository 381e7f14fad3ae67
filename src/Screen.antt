-- ===== src/Screen.antt =====
-- The text screen of student-distrib/lib.c: `screen_x`, `screen_y`, the attribute, and video memory
-- as bytes addressed from `video_mem`. Coordinates are natural numbers; a decrement below 0 is
-- written out where the source makes one. set_cursor_location only tells the video hardware
-- where to show the cursor; its two register writes are listed.
pub mod Scroll
pub mod Put
pub mod Pages
use snoop_diggity_d_os.Prelude.{
  ℕ, zero, suc, ◌+◌, ◌-◌, ◌*◌, ◌/◌, ◌%◌, ◌^◌, List, [], ◌∷◌, Bool, true, false, ◌&&◌, ◌||◌, ltb,
  leb, ◌==◌, if◌then◌else◌, update, bit_and, Option, none, some,
}
use snoop_diggity_d_os.Prelude.Tables.{for_range}
use snoop_diggity_d_os.Pic.{PortWrite, outb}

abbrev pub num_cols : ℕ
num_cols = 80

abbrev pub num_rows : ℕ
num_rows = 25

-- the characters that the console treats apart: '\n', '\r', BKSP_CHAR, EMPTY_SPACE
abbrev pub new_line : ℕ
new_line = 10

abbrev pub carriage_return : ℕ
carriage_return = 13

abbrev pub bksp_char : ℕ
bksp_char = 8

abbrev pub empty_space : ℕ
empty_space = 32

-- screen_x, screen_y, curr_attribute and the bytes from video_mem on
pub record Screen : Type 0 where
  pub x : ℕ
  pub y : ℕ
  pub attribute : ℕ
  pub mem : ℕ → ℕ

-- set_screen_x_y
unfoldable pub set_screen_x_y : Screen → ℕ → ℕ → Screen
set_screen_x_y s x y = record s { x = x; y = y }

-- the two bytes of cell `i`, its character and its attribute
abbrev pub put_cell : (ℕ → ℕ) → ℕ → ℕ → ℕ → ℕ → ℕ
put_cell mem i c attribute = update (update mem (2 * i) c) (2 * i + 1) attribute

-- clear
unfoldable pub clear : Screen → Screen
clear s = record s {
  mem = for_range (num_rows * num_cols) 0 (λ i mem. put_cell mem i empty_space s.attribute) s.mem;
}

-- clear_video_and_backing_stores
unfoldable pub clear_video_and_backing_stores : Screen → Screen
clear_video_and_backing_stores s = record s {
  mem =
      for_range (num_rows * num_cols * 4) 0 (λ i mem. put_cell mem i empty_space s.attribute) s.mem;
}

-- clear_and_reset
unfoldable pub clear_and_reset : Screen → Screen
clear_and_reset s = record (clear s) { x = 0; y = 0 }

-- initialize_video_memory
unfoldable pub initialize_video_memory : Screen → Screen
initialize_video_memory s = record (clear_video_and_backing_stores s) { x = 0; y = 0 }

-- the first loop of shift_screen_up: each cell takes the cell a row below it
unfoldable pub copy_rows : (ℕ → ℕ) → ℕ → ℕ
copy_rows =
    for_range ((num_rows - 1) * num_cols) 0
      (λ i mem. put_cell mem i (mem (2 * (i + num_cols))) (mem (2 * (i + num_cols) + 1)))

-- the second loop: the last row is cleared
unfoldable pub clear_last_row : ℕ → (ℕ → ℕ) → ℕ → ℕ
clear_last_row attribute =
    for_range num_cols 0
      (λ i mem. put_cell mem (i + (num_rows - 1) * num_cols) empty_space attribute)

-- shift_screen_up; it is called only with screen_y at NUM_ROWS or more
unfoldable pub shift_screen_up : Screen → Screen
shift_screen_up s = record s { mem = clear_last_row s.attribute (copy_rows s.mem); y = s.y - 1 }

-- the three branches of putc_screen and putc_kbd before the scroll
unfoldable pub place : Screen → ℕ → Screen
place s c =
    if c == new_line || c == carriage_return
    then record s { y = s.y + 1; x = 0 }
    else if c == bksp_char
    then (let x' = (if s.x == 0 then num_cols - 1 else s.x - 1) in
        let y' = (if s.x == 0 then s.y - 1 else s.y) in
        record s {
          x = x';
          y = y';
          mem = put_cell s.mem (num_cols * y' + x') empty_space s.attribute;
        })
    else record s {
      mem = put_cell s.mem (num_cols * s.y + s.x) c s.attribute;
      y = s.y + (s.x + 1) / num_cols;
      x = (s.x + 1) % num_cols;
    }

-- putc_screen
unfoldable pub putc_screen : Screen → ℕ → Screen
putc_screen s c = let s' = place s c in if leb num_rows s'.y then shift_screen_up s' else s'

-- set_cursor_location: the writes to the video controller
unfoldable pub set_cursor_location : ℕ → ℕ → List PortWrite
set_cursor_location x y =
    if leb num_cols x || leb num_rows y
    then []
    else outb 0x0F 0x3D4
      ∷ outb (bit_and (y * num_cols + x) 0xFF) 0x3D5
      ∷ outb 0x0E 0x3D4
      ∷ outb (bit_and ((y * num_cols + x) / 2 ^ 8) 0xFF) 0x3D5
      ∷ []

-- putc_kbd: as putc_screen, and the cursor is moved
unfoldable pub putc_kbd : Screen → ℕ → Screen × List PortWrite
putc_kbd s c =
    let s' = place s c in
    let s'' = (if leb num_rows s'.y then shift_screen_up s' else s') in
    (s'', set_cursor_location s''.x s''.y)

-- putc, which has no backspace, and scrolls only after a printed character
unfoldable pub putc : Screen → ℕ → Screen
putc s c =
    if c == new_line || c == carriage_return
    then record s { y = s.y + 1; x = 0 }
    else (let s' = record s {
      mem = put_cell s.mem (num_cols * s.y + s.x) c s.attribute;
      y = s.y + (s.x + 1) / num_cols;
      x = (s.x + 1) % num_cols;
    } in
        if leb num_rows s'.y then shift_screen_up s' else s')

-- put_t: the characters of `s` up to a NUL or `size` of them; `s[index]` is read before
-- `index < size` is tested, and none is a read past the end of the array
unfoldable pub put_t : Screen → List ℕ → ℕ → Option (Screen × ℕ)
put_t s [] size = none
put_t s (c ∷ cs) zero = some (s, 0)
put_t s (c ∷ cs) (suc size) =
    let rest = put_t (putc_screen s c) cs size in
    if c == 0 then some (s, 0) else elim rest [ none ↦ none | some (s', n) ↦ some (s', n + 1) ]

-- puts
unfoldable pub puts : Screen → List ℕ → Option (Screen × ℕ)
puts s [] = none
puts s (c ∷ cs) =
    let rest = puts (putc s c) cs in
    if c == 0 then some (s, 0) else elim rest [ none ↦ none | some (s', n) ↦ some (s', n + 1) ]

-- change_atribute
unfoldable pub change_atribute : Screen → ℕ → Screen
change_atribute s attribute = record s {
  mem = for_range (num_rows * num_cols) 0 (λ i mem. update mem (2 * i + 1) attribute) s.mem;
  attribute = attribute;
}
