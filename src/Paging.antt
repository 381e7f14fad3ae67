-- ===== src/Paging.antt =====
-- student-distrib/paging.c: page directories and page tables. A table of 1024 entries is a function
-- of the index, and a function that writes one returns the new table. The addresses of the static
-- tables, which the linker chooses, are arguments.
pub mod Entry
pub mod Setup
pub mod Isolation
pub mod Vidmap
use snoop_diggity_d_os.Prelude.{
  ℕ, zero, suc, ◌+◌, ◌-◌, ◌*◌, ◌/◌, ◌%◌, ◌^◌, Bool, true, false, ◌&&◌, ◌||◌, not, ℤ, pos, negsuc,
  ◌==◌, ltb, leb, if◌then◌else◌, bit_and, bit_or, update, Option, none, some,
}
use snoop_diggity_d_os.Prelude.Tables.{for_range}

abbrev pub Table : Type 0
Table = ℕ → ℕ

abbrev pub video : ℕ
video = 0xB8000

abbrev pub kernel_base_address : ℕ
kernel_base_address = 0x400000

abbrev pub task_virtual_base_address : ℕ
task_virtual_base_address = 0x08000000

abbrev pub pte_entry_present : ℕ
pte_entry_present = 3

abbrev pub pte_entry_not_present : ℕ
pte_entry_not_present = 2

abbrev pub pde_entry_4mb_present : ℕ
pde_entry_4mb_present = 0x83

abbrev pub pde_user_accessible : ℕ
pde_user_accessible = 4

abbrev pub grant_user_access : ℕ
grant_user_access = 6

-- PDE_ADDRESS_ASSIGN and PTE_ADDRESS_ASSIGN
abbrev pub address_assign : ℕ → ℕ
address_assign address = bit_and address 0xFFFFF000

-- table[i] |= bits
abbrev pub or_entry : Table → ℕ → ℕ → Table
or_entry table i bits = update table i (bit_or (table i) bits)

-- table[i] = ADDRESS_ASSIGN(address); table[i] |= bits;
abbrev pub set_entry : Table → ℕ → ℕ → ℕ → Table
set_entry table i address bits = or_entry (update table i (address_assign address)) i bits

-- the test in the loop of setup_base_page_table
abbrev pub is_video_page : ℕ → Bool
is_video_page i =
    i * 4096 == video
    || (i * 4096 == video + 0x1000 || (i * 4096 == video + 0x2000 || i * 4096 == video + 0x3000))

-- setup_base_page_table
unfoldable pub setup_base_page_table : Table → Table
setup_base_page_table base_page_table =
    for_range 1024 0
      (λ i table.
        set_entry table i (i * 4096)
          (if is_video_page i then pte_entry_present else pte_entry_not_present))
      base_page_table

-- the loops of init_kernel_pages and setup_task_paging over the process blocks
unfoldable pub map_process_blocks : Table → Table
map_process_blocks directory =
    for_range 6 2 (λ i table. set_entry table i (i * 0x400000) pde_entry_4mb_present) directory

-- init_kernel_pages: the kernel's directory and its page table, which lies at `pt_address`
unfoldable pub init_kernel_pages : ℕ → Table → Table → Table × Table
init_kernel_pages pt_address directory page_table =
    let d₀ = set_entry directory 0 pt_address pte_entry_present in
    let d₁ = set_entry d₀ 1 kernel_base_address pde_entry_4mb_present in
    let d₂ = map_process_blocks d₁ in
    (
      for_range 1016 8 (λ i table. set_entry table i (i * 0x400000) pte_entry_not_present) d₂,
      setup_base_page_table page_table,
    )

-- setup_task_paging
unfoldable pub setup_task_paging : ℕ → Table → Table → ℕ → Table × Table
setup_task_paging pt_address page_directory base_page_table phys_program_address =
    let d₀ = set_entry page_directory 0 pt_address pte_entry_present in
    let d₁ = set_entry d₀ 1 kernel_base_address pde_entry_4mb_present in
    let d₂ = map_process_blocks d₁ in
    (
      for_range 1016 8
          (λ i table.
            if i * 0x400000 == task_virtual_base_address
            then set_entry table i phys_program_address
                (bit_or pde_entry_4mb_present pde_user_accessible)
            else set_entry table i (i * 0x400000) pte_entry_not_present)
          d₂,
      setup_base_page_table base_page_table,
    )

-- change_table_mapping; ISOLATE_BTM_12BITS is 0x3FF
unfoldable pub change_table_mapping : Table → ℕ → ℕ → Table
change_table_mapping table address_of_entry new_value =
    let index = bit_and (address_of_entry / 2 ^ 12) 0x3FF in
    let entry = table index in
    or_entry (update table index (address_assign new_value)) index (bit_and entry 0x3FF)

-- setup_user_access_pte
unfoldable pub setup_user_access_pte : Table → ℕ → Table
setup_user_access_pte base_page_table videomem =
    or_entry base_page_table (bit_and (videomem / 2 ^ 12) 0x3FF) grant_user_access

-- setup_user_access_pde
unfoldable pub setup_user_access_pde : Table → ℕ → Table
setup_user_access_pde page_directory videomem =
    or_entry page_directory (videomem / 2 ^ 22) grant_user_access

-- get_page_directory_for_pid and get_base_page_table_for_pid: the index of the pid's table in the
-- static array, NULL for a pid past the last. A negative pid indexes before the array.
unfoldable pub table_for_pid : ℤ → Option ℤ
table_for_pid (pos pid) = if leb 6 pid then none else some (pos pid)
table_for_pid (negsuc n) = some (negsuc n)
