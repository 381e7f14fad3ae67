-- ===== src/Paging/Vidmap.antt =====
-- The vidmap system call's change to a program's tables, and change_table_mapping, in
-- student-distrib/paging.c.
use snoop_diggity_d_os.Prelude.{
  ℕ, ◌+◌, ◌*◌, ◌/◌, ◌%◌, ◌^◌, ◌<◌, ◌≡◌, refl, true, false, ◌==◌, if◌then◌else◌, bit_and, arith,
  Bool-cases, inl, inr, some, none, ==→eq, eq→==,
}
use snoop_diggity_d_os.Prelude.Bits.{bit_and_ones}
use snoop_diggity_d_os.Paging.{
  Table, setup_base_page_table, setup_task_paging, video, is_video_page, change_table_mapping,
  setup_user_access_pte, setup_user_access_pde,
}
use snoop_diggity_d_os.Paging.Entry.{entry_of_lem, and_flags, or_flags}
use snoop_diggity_d_os.Paging.Setup.{task_directory_at, base_table_at}
use snoop_diggity_d_os.Paging.Isolation.{translate, allows, not_user, shared_not_user, scale}

base_not_user : (pt : Table) (i : ℕ) → i < 1024 → allows true (setup_base_page_table pt i) ≡ false
base_not_user pt i h = elim (Bool-cases (is_video_page i)) [
  | inl yes' ↦ rw (base_table_at pt i h, yes') (not_user i 3 (omega arith) (omega arith) refl)
  | inr no' ↦ rw (base_table_at pt i h, no') (not_user i 2 (omega arith) (omega arith) refl)
]

-- change_table_mapping puts the new page's address in the entry of the address, keeps the low ten
-- bits of that entry, and leaves the other entries.
pub change_table_mapping-at :
    (table : Table) (address n i : ℕ)
    → n < 2 ^ 20
    → change_table_mapping table address (n * 4096) i ≡ (
        if i == address / 4096 % 1024
        then n * 4096 + table (address / 4096 % 1024) % 1024
        else table i)
unfolding change_table_mapping
change_table_mapping-at table address n i hn =
    let index : bit_and (address / 2 ^ 12) 0x3FF ≡ address / 4096 % 1024 =
      bit_and_ones 10 (address / 4096) in
    let low : bit_and (table (address / 4096 % 1024)) 0x3FF ≡ table (address / 4096 % 1024) % 1024 =
      bit_and_ones 10 (table (address / 4096 % 1024)) in
    let entry = entry_of_lem n (table (address / 4096 % 1024) % 1024) hn (omega arith) in
    rw (index, low) (ground (arith, entry))

module _ (a q : ℕ) (pd pt : Table) (ha : a < 2 ^ 20) (hq : q < 1024) where
  -- The tables of a program after setup_task_paging and vidmap.
  abbrev pub vidmap_directory : Table
  vidmap_directory =
      setup_user_access_pde (setup_task_paging (a * 4096) pd pt (q * 0x400000)).0 video

  abbrev pub vidmap_table : Table
  vidmap_table = setup_user_access_pte (setup_task_paging (a * 4096) pd pt (q * 0x400000)).1 video

  directory_first : vidmap_directory 0 ≡ a * 4096 + 7
  unfolding setup_user_access_pde
  directory_first =
      rw
        (
          task_directory_at (a * 4096) pd pt (q * 0x400000) 0 (omega arith),
          entry_of_lem a 3 ha (omega arith),
        )
        (or_flags a 3 6 (omega arith) (omega arith))

  directory_rest :
      (i : ℕ)
      → (i == 0) ≡ false
      → vidmap_directory i ≡ (setup_task_paging (a * 4096) pd pt (q * 0x400000)).0 i
  unfolding setup_user_access_pde
  directory_rest i ne = ground arith

  table_video : vidmap_table 184 ≡ 184 * 4096 + 7
  unfolding setup_user_access_pte setup_task_paging
  table_video = rw (base_table_at pt 184 (omega arith)) refl

  table_rest : (i : ℕ) → (i == 184) ≡ false → vidmap_table i ≡ setup_base_page_table pt i
  unfolding setup_user_access_pte setup_task_paging
  table_rest i ne = rw ne

  -- After vidmap, with a page table on a 4 KB boundary and a block on a 4 MB boundary, the
  -- program also reaches the page of video memory, at its own address, and nothing else besides
  -- its 4 MB.
  pub vidmap-user :
      (v : ℕ)
      → v < 2 ^ 32
      → translate true (a * 4096) vidmap_directory vidmap_table v ≡ (
          if v / 2 ^ 22 == 32
          then some (q * 0x400000 + v % 2 ^ 22)
          else if v / 2 ^ 12 == video / 2 ^ 12
          then some v
          else none)
  unfolding translate
  vidmap-user v hv = elim (Bool-cases (v / 2 ^ 22 == 0)) [
    | inl low ↦
        let zero_index : v / 2 ^ 22 ≡ 0 = ==→eq _ _ low in
        let flag : (b : ℕ) → b < 4096 → bit_and (a * 4096 + 7) b ≡ bit_and 7 b =
          λ b hb. and_flags a 7 b (omega arith) hb in
        let frame : (a * 4096 + 7) / 2 ^ 12 * 2 ^ 12 ≡ a * 4096 = omega arith in
        elim (Bool-cases (v / 2 ^ 12 % 1024 == 184)) [
          | inl vid ↦
              let index : v / 2 ^ 12 % 1024 ≡ 184 = ==→eq _ _ vid in
              let page : (v / 2 ^ 12 == 184) ≡ true = ground arith in
              let whole : 184 * 4096 + v % 2 ^ 12 ≡ v = omega arith in
              rw (
                zero_index,
                directory_first,
                flag 1 (omega arith),
                flag 4 (omega arith),
                flag 0x80 (omega arith),
                frame,
                index,
                table_video,
                eq→== (a * 4096) (a * 4096) refl,
                page,
                whole,
              )
          | inr other ↦
              let page : (v / 2 ^ 12 == 184) ≡ false = ground arith in
              let shut : allows true (vidmap_table (v / 2 ^ 12 % 1024)) ≡ false =
                rw (table_rest (v / 2 ^ 12 % 1024) other)
                  (base_not_user pt (v / 2 ^ 12 % 1024) (omega arith)) in
              rw (
                zero_index,
                directory_first,
                flag 1 (omega arith),
                flag 4 (omega arith),
                flag 0x80 (omega arith),
                frame,
                shut,
                eq→== (a * 4096) (a * 4096) refl,
                page,
              )
        ]
    | inr high ↦
        let page : (v / 2 ^ 12 == 184) ≡ false = ground arith in
        let at = task_directory_at (a * 4096) pd pt (q * 0x400000) (v / 2 ^ 22) (omega arith) in
        let same = directory_rest (v / 2 ^ 22) high in
        elim (Bool-cases (v / 2 ^ 22 == 32)) [
          | inl here ↦
              let entry : vidmap_directory (v / 2 ^ 22) ≡ q * 1024 * 4096 + 0x87 =
                rw (same, at, here, scale q)
                  (entry_of_lem (q * 1024) 0x87 (omega arith) (omega arith)) in
              let flag : (b : ℕ) → b < 4096 → bit_and (q * 1024 * 4096 + 0x87) b ≡ bit_and 0x87 b =
                λ b hb. and_flags (q * 1024) 0x87 b (omega arith) hb in
              let frame : (q * 1024 * 4096 + 0x87) / 2 ^ 22 * 2 ^ 22 ≡ q * 0x400000 = omega arith in
              rw (
                entry,
                here,
                flag 1 (omega arith),
                flag 4 (omega arith),
                flag 0x80 (omega arith),
                frame,
              )
          | inr elsewhere ↦
              let shut : allows true (vidmap_directory (v / 2 ^ 22)) ≡ false =
                rw (same, at, elsewhere) (shared_not_user a (v / 2 ^ 22) ha (omega arith)) in
              rw (shut, elsewhere, page)
        ]
  ]
