-- ===== src/Paging/Setup.antt =====
-- The tables that setup_task_paging and init_kernel_pages of student-distrib/paging.c leave.
use snoop_diggity_d_os.Prelude.{
  ℕ, ◌*◌, ◌<◌, ◌≡◌, ◌∙◌, true, false, ◌==◌, ltb, leb, if◌then◌else◌, arith, Bool-cases, ◌&&◌, inl,
  inr,
}
use snoop_diggity_d_os.Paging.{
  Table, set_entry, setup_base_page_table, map_process_blocks, setup_task_paging, init_kernel_pages,
  is_video_page, task_virtual_base_address, kernel_base_address,
}
use snoop_diggity_d_os.Paging.Entry.{entry_of, set_entry_lem, for_range-fill}

pub base_table_at :
    (table : Table) (i : ℕ)
    → i < 1024
    → setup_base_page_table table i ≡ entry_of (i * 4096) (if is_video_page i then 3 else 2)
unfolding setup_base_page_table
base_table_at table i h =
    for_range-fill _ (λ k. entry_of (k * 4096) (if is_video_page k then 3 else 2))
      (λ k t j. set_entry_lem t k (k * 4096) (if is_video_page k then 3 else 2) j) 1024 0 table i
    ∙ ground arith

process_blocks_at :
    (table : Table) (i : ℕ)
    → map_process_blocks table i
      ≡ (if leb 2 i && ltb i 8 then entry_of (i * 0x400000) 0x83 else table i)
unfolding map_process_blocks
process_blocks_at table i =
    for_range-fill _ (λ k. entry_of (k * 0x400000) 0x83)
      (λ k t j. set_entry_lem t k (k * 0x400000) 0x83 j) 6 2 table i

-- The entries that the program's own page aside.
abbrev pub shared_entry : ℕ → ℕ → ℕ
shared_entry pt_address i =
    if i == 0
    then entry_of pt_address 3
    else if i == 1
    then entry_of kernel_base_address 0x83
    else if ltb i 8
    then entry_of (i * 0x400000) 0x83
    else entry_of (i * 0x400000) 2

-- The first two entries are written.
abbrev before : ℕ → Table → Table
before pt_address pd = set_entry (set_entry pd 0 pt_address 3) 1 kernel_base_address 0x83

before_at :
    (pt_address : ℕ) (pd : Table) (i : ℕ)
    → before pt_address pd i ≡ (
        if i == 1
        then entry_of kernel_base_address 0x83
        else if i == 0
        then entry_of pt_address 3
        else pd i)
before_at pt_address pd i = ground arith

pub task_directory_at :
    (pt_address : ℕ) (pd pt : Table) (phys i : ℕ)
    → i < 1024
    → (setup_task_paging pt_address pd pt phys).0 i
      ≡ (if i == 32 then entry_of phys 0x87 else shared_entry pt_address i)
unfolding setup_task_paging
task_directory_at pt_address pd pt phys i h =
    for_range-fill _ program_entry round 1016 8 (map_process_blocks (before pt_address pd)) i
    ∙ ground (arith, process_blocks_at (before pt_address pd) i, before_at pt_address pd i)
  where
    program_entry : ℕ → ℕ
    program_entry k = if k == 32 then entry_of phys 0x87 else entry_of (k * 0x400000) 2

    round :
        (k : ℕ) (t : Table) (j : ℕ)
        → (if k * 0x400000 == task_virtual_base_address
              then set_entry t k phys 0x87
              else set_entry t k (k * 0x400000) 2)
            j
          ≡ (if j == k then program_entry k else t j)
    round k t j = elim (Bool-cases (k == 32)) [
      | inl e ↦
          let e' : (k * 0x400000 == task_virtual_base_address) ≡ true = ground arith in
          rw (e, e') (set_entry_lem t k phys 0x87 j)
      | inr ne ↦
          let ne' : (k * 0x400000 == task_virtual_base_address) ≡ false = ground arith in
          rw (ne, ne') (set_entry_lem t k (k * 0x400000) 2 j)
    ]

pub kernel_directory_at :
    (pt_address : ℕ) (pd pt : Table) (i : ℕ)
    → i < 1024
    → (init_kernel_pages pt_address pd pt).0 i ≡ shared_entry pt_address i
unfolding init_kernel_pages
kernel_directory_at pt_address pd pt i h =
    for_range-fill _ (λ k. entry_of (k * 0x400000) 2)
      (λ k t j. set_entry_lem t k (k * 0x400000) 2 j) 1016 8
      (map_process_blocks (before pt_address pd)) i
    ∙ ground (arith, process_blocks_at (before pt_address pd) i, before_at pt_address pd i)
