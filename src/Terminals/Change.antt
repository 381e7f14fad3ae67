-- ===== src/Terminals/Change.antt =====
-- change_terminal_state of student-distrib/devices/keyboard.c.
use snoop_diggity_d_os.Prelude.{
  ℕ, zero, suc, ◌+◌, ◌*◌, ◌/◌, ◌^◌, ◌<◌, ◌≡◌, ◌≢◌, refl, sym, ◌∙◌, ==→eq, ◌==◌, ltb, leb, ◌&&◌,
  if◌then◌else◌, arith, Bool-cases, inl, inr, pos, true, false,
}
use mathlib.Core.Path.{subst}
use snoop_diggity_d_os.Prelude.Tables.{for_range}
use snoop_diggity_d_os.Paging.{Table, change_table_mapping, video}
use snoop_diggity_d_os.Paging.Vidmap.{change_table_mapping-at}
use snoop_diggity_d_os.Pids.{is_pid_used}
use snoop_diggity_d_os.Terminals.{State, memcpy, remap, change_terminal_state}
use snoop_diggity_d_os.Terminals.Display.{IsSame, IsValid}

-- When the shown terminal is switched to another, every terminal keeps its text and its cursor.
pub change_terminal_state-IsSame :
    (s : State) (to t : ℕ)
    → to ≢ s.terminal_state
    → s.terminal_state < 3
    → to < 3
    → t < 3
    → IsSame s (change_terminal_state s s.terminal_state to).0 t
unfolding change_terminal_state memcpy
change_terminal_state-IsSame s to t ne hs hto ht = record {
  bytes = λ j hj. ground arith;
  x = ground arith;
  y = ground arith;
}

-- what remap makes of the table of one process
abbrev remapped : (ℕ → ℕ) → ℕ → ℕ → ℕ → ℕ → Table → Table
remapped owner pid_avail source to i table =
    let table₁ =
      (if owner i == source
        then change_table_mapping table video (video + (source + 1) * 4096)
        else table) in
    if is_pid_used pid_avail (pos i) == 0
    then table
    else if owner i == to
    then change_table_mapping table₁ video video
    else table₁

remap-at :
    (owner : ℕ → ℕ) (pid_avail source to i : ℕ) (tables : ℕ → Table) (k : ℕ)
    → remap owner pid_avail source to i tables k
      ≡ (if k == i then remapped owner pid_avail source to i (tables i) else tables k)
unfolding remap
remap-at owner pid_avail source to i tables k = ground arith

remap_loop :
    (owner : ℕ → ℕ) (pid_avail source to n i : ℕ) (tables : ℕ → Table) (k : ℕ)
    → for_range n i (remap owner pid_avail source to) tables k ≡ (
        if leb i k && ltb k (i + n)
        then remapped owner pid_avail source to k (tables k)
        else tables k)
unfolding for_range
remap_loop owner pid_avail source to zero i tables k = ground arith
remap_loop owner pid_avail source to (suc n) i tables k =
    remap_loop owner pid_avail source to n (i + 1) (remap owner pid_avail source to i tables) k
    ∙ elim (Bool-cases (k == i)) [
      | inl e ↦
          (let e' : k ≡ i = ==→eq k i e in
            rw e' (ground (arith, remap-at owner pid_avail source to i tables i)))
      | inr ne ↦ ground (arith, remap-at owner pid_avail source to i tables k)
    ]

-- the page that an entry for VIDEO leads to, after it has been changed
video_entry :
    (table : Table) (n : ℕ)
    → n < 2 ^ 20
    → change_table_mapping table video (n * 4096) 184 / 4096 ≡ n
video_entry table n h = ground (arith, change_table_mapping-at table video n 184 h)

remapped_page :
    (owner : ℕ → ℕ) (pid_avail source to i : ℕ) (table : Table)
    → is_pid_used pid_avail (pos i) ≢ 0
    → source < 3
    → source ≢ to
    → remapped owner pid_avail source to i table 184 / 4096 ≡ (
        if owner i == to
        then 184
        else if owner i == source
        then 184 + (source + 1)
        else table 184 / 4096)
remapped_page owner pid_avail source to i table used hs ne =
    let live : (is_pid_used pid_avail (pos i) == 0) ≡ false = ground arith in
    elim (Bool-cases (owner i == to)) [
      | inl e ↦ rw (live, e) (video_entry _ 184 (omega arith))
      | inr n ↦ elim (Bool-cases (owner i == source)) [
        | inl e ↦
            let v = video_entry table (184 + (source + 1)) (omega arith) in
            let page : (184 + (source + 1)) * 4096 ≡ video + (source + 1) * 4096 = omega arith in
            rw (live, n, e)
              (subst (λ a. change_table_mapping table video a 184 / 4096 ≡ 184 + (source + 1)) page
                v)
        | inr m ↦ rw (live, n, m) refl
      ]
    ]

-- A switch of terminals keeps every process's output on the page of its own terminal.
pub change_terminal_state-IsValid :
    (s : State) (to : ℕ)
    → to ≢ s.terminal_state
    → to < 3
    → IsValid s
    → IsValid (change_terminal_state s s.terminal_state to).0
unfolding change_terminal_state
change_terminal_state-IsValid s to ne hto v = record {
  shown = hto;
  owned = v.owned;
  mapped = λ i hi used.
      (let loop = remap_loop s.owned_by_terminal s.pid_avail s.terminal_state to 6 0 s.tables i in
        let inside : (leb 0 i && ltb i (0 + 6)) ≡ true = ground arith in
        let page =
          remapped_page s.owned_by_terminal s.pid_avail s.terminal_state to i (s.tables i) used
            v.shown (λ e. ne (sym e)) in
        let was = v.mapped i hi used in
        let own = v.owned i hi in rw (loop, inside, page) (ground (arith, was)));
}
