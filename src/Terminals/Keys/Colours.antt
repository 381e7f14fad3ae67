-- ===== src/Terminals/Keys/Colours.antt =====
-- Control with 6 and 7 in student-distrib/devices/keyboard.c: the colours of the shown terminal.
use snoop_diggity_d_os.Prelude.{
  ℕ, zero, suc, ◌+◌, ◌-◌, ◌*◌, ◌%◌, ◌^◌, ◌<◌, ◌≡◌, ◌≢◌, refl, ◌∙◌, ==→eq, List, [], some, Bool,
  true, false, ◌==◌, ◌&&◌, if◌then◌else◌, ltb, leb, arith, bit_or, update, pos,
}
use snoop_diggity_d_os.Prelude.Tables.{all_below, all_below_sound, for_range}
use snoop_diggity_d_os.Pic.{PortWrite}
use snoop_diggity_d_os.Pids.{is_pid_used}
use snoop_diggity_d_os.Screen.{Screen, change_atribute}
use snoop_diggity_d_os.Terminals.{State, page_offset, through}
use snoop_diggity_d_os.Terminals.Display.{home, content, cursor_x, cursor_y, IsSame, IsValid}
use snoop_diggity_d_os.Terminals.Write.{page_of}
use snoop_diggity_d_os.Terminals.Keys.{
  Driver, recoloured, next_attribute, next_back_attribute, control_key,
}
use snoop_diggity_d_os.Terminals.Output.{shown_pid, on_page}

attribute_loop :
    (rounds i attribute : ℕ) (mem : ℕ → ℕ) (j : ℕ)
    → for_range rounds i (λ i mem. update mem (2 * i + 1) attribute) mem j
      ≡ (if leb (2 * i) j && ltb j (2 * (i + rounds)) && j % 2 == 1 then attribute else mem j)
unfolding for_range
attribute_loop zero i attribute mem j = ground arith
attribute_loop (suc rounds) i attribute mem j =
    attribute_loop rounds (i + 1) attribute (update mem (2 * i + 1) attribute) j ∙ ground arith

-- change_atribute gives every cell of the screen the attribute and keeps the characters.
change_atribute-mem :
    (p : Screen) (attribute j : ℕ)
    → (change_atribute p attribute).mem j
      ≡ (if ltb j 4000 && j % 2 == 1 then attribute else p.mem j)
unfolding change_atribute
change_atribute-mem p attribute j = attribute_loop 2000 0 attribute p.mem j ∙ ground arith

colours :
    all_below 16
      (λ back. all_below 16 (λ fore. bit_or (back * 2 ^ 4) fore % 256 == back * 16 + fore))
    ≡ true
unfolding all_below
colours = refl

colour_byte :
    (back fore : ℕ) → back < 16 → fore < 16 → bit_or (back * 2 ^ 4) fore % 256 ≡ back * 16 + fore
colour_byte back fore hb hf =
    let row =
      all_below_sound 16
        (λ back. all_below 16 (λ fore. bit_or (back * 2 ^ 4) fore % 256 == back * 16 + fore)) back
        colours hb in
    ==→eq _ _ (
      all_below_sound 16 (λ fore. bit_or (back * 2 ^ 4) fore % 256 == back * 16 + fore) fore row hf)

-- Terminal `t` shows what it showed, with one attribute in every cell.
pub record IsColoured (s s' : State) (t attribute : ℕ) : Type 0 where
  pub bytes :
      (j : ℕ)
      → j < 4096
      → content s' t j ≡ (if ltb j 4000 && j % 2 == 1 then attribute else content s t j)
  pub x : cursor_x s' t ≡ cursor_x s t
  pub y : cursor_y s' t ≡ cursor_y s t

recoloured-mem :
    (k : Driver) (i : ℕ)
    → page_offset (k.terminals.tables (shown_pid k.terminals)) ≡ 0
    → k.curr_attribute < 16
    → k.curr_back_attribute < 16
    → (recoloured k).screen.mem i ≡ (
        if ltb i 4000 && i % 2 == 1
        then k.curr_back_attribute * 16 + k.curr_attribute
        else k.terminals.screen.mem i)
recoloured-mem k i page hf hb =
    let p : Screen = record (k.terminals.screen) { mem = through 0 k.terminals.screen.mem } in
    let a = bit_or (k.curr_back_attribute * 2 ^ 4) k.curr_attribute % 256 in
    let colour = colour_byte k.curr_back_attribute k.curr_attribute hb hf in
    let offset : i - 0 ≡ i = omega arith in
    rw (page, offset) (ground (arith, change_atribute-mem p a i, colour))

change_atribute-place :
    (p : Screen) (a : ℕ) → ((change_atribute p a).x ≡ p.x) × ((change_atribute p a).y ≡ p.y)
unfolding change_atribute
change_atribute-place p a = (refl, refl)

recoloured-place :
    (k : Driver)
    → ((recoloured k).screen.x ≡ k.terminals.screen.x)
      × ((recoloured k).screen.y ≡ k.terminals.screen.y)
recoloured-place k =
    change_atribute-place (on_page k.terminals k.terminals.screen)
      (bit_or (k.curr_back_attribute * 2 ^ 4) k.curr_attribute % 256)

module _ (k : Driver) (hf : k.curr_attribute < 16) (hb : k.curr_back_attribute < 16)
    (page : page_offset (k.terminals.tables (shown_pid k.terminals)) ≡ 0) where
  recoloured-IsColoured :
      IsColoured k.terminals
        (recoloured k)
        k.terminals.terminal_state
        (k.curr_back_attribute * 16 + k.curr_attribute)
  recoloured-IsColoured = record {
    bytes = λ j h.
        ground
          (arith, recoloured-mem k (home k.terminals k.terminals.terminal_state + j) page hf hb);
    x = (let e = (recoloured-place k).0 in ground arith);
    y = (let e = (recoloured-place k).1 in ground arith);
  }

  recoloured-IsSame : (t : ℕ) → t ≢ k.terminals.terminal_state → IsSame k.terminals (recoloured k) t
  recoloured-IsSame t ne = record {
    bytes = λ j h. ground (arith, recoloured-mem k (home k.terminals t + j) page hf hb);
    x = (let e = (recoloured-place k).0 in ground arith);
    y = (let e = (recoloured-place k).1 in ground arith);
  }

-- From a state as IsValid says, where the process of the shown terminal is in use and owned by it,
-- and the colours are below 16: control with 6 takes the colour of the text from 1 to 15 and back to 1, and control with 7
-- that of the background from 0 to 15 and back to 0. The shown terminal then has that pair of colours in
-- every cell, with its characters and its cursor as they were, and the other terminals are as they were.
pub control_key-IsColoured :
    (k : Driver) (six : Bool) (t : ℕ)
    → IsValid k.terminals
    → shown_pid k.terminals < 6
    → is_pid_used k.terminals.pid_avail (pos (shown_pid k.terminals)) ≢ 0
    → k.terminals.owned_by_terminal (shown_pid k.terminals) ≡ k.terminals.terminal_state
    → k.curr_attribute < 16
    → k.curr_back_attribute < 16
    → t ≢ k.terminals.terminal_state
    → (r : Driver × List PortWrite) × (control_key k (if six then 54 else 55) ≡ some r)
      × (r.0.curr_attribute ≡ (if six then k.curr_attribute % 15 + 1 else k.curr_attribute))
      × (r.0.curr_back_attribute
          ≡ (if six then k.curr_back_attribute else (k.curr_back_attribute + 1) % 16))
      × IsColoured k.terminals r.0.terminals k.terminals.terminal_state
          (r.0.curr_back_attribute * 16 + r.0.curr_attribute)
      × IsSame k.terminals r.0.terminals t
unfolding control_key next_attribute next_back_attribute
control_key-IsColoured k true t v low used own hf hb ne =
    let page =
      page_of k.terminals (shown_pid k.terminals) k.terminals.terminal_state v low used own in
    let zero_page : page_offset (k.terminals.tables (shown_pid k.terminals)) ≡ 0 = ground arith in
    let k' : Driver = record k { curr_attribute = next_attribute k.curr_attribute } in
    let small : next_attribute k.curr_attribute < 16 = ground arith in
    (
      (record k' { terminals = recoloured k' }, []),
      refl,
      ground arith,
      refl,
      recoloured-IsColoured k' small hb zero_page,
      recoloured-IsSame k' small hb zero_page t ne,
    )
control_key-IsColoured k false t v low used own hf hb ne =
    let page =
      page_of k.terminals (shown_pid k.terminals) k.terminals.terminal_state v low used own in
    let zero_page : page_offset (k.terminals.tables (shown_pid k.terminals)) ≡ 0 = ground arith in
    let k' : Driver = record k {
      curr_back_attribute = next_back_attribute k.curr_back_attribute;
    } in
    let small : next_back_attribute k.curr_back_attribute < 16 = ground arith in
    (
      (record k' { terminals = recoloured k' }, []),
      refl,
      refl,
      ground arith,
      recoloured-IsColoured k' hf small zero_page,
      recoloured-IsSame k' hf small zero_page t ne,
    )
