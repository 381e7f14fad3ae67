-- ===== src/Tests/Memory.antt =====
-- The processes' memory: pids, blocks and page tables.
use snoop_diggity_d_os.Prelude.{ℕ, ◌<◌, ◌≡◌, refl, [], ◌∷◌, some, true, arith, pos}
use snoop_diggity_d_os.Pids.{get_available_pid, scan_pids, block_address_for_process}
use snoop_diggity_d_os.Pids.Table.{used}
use snoop_diggity_d_os.Pids.Set.{use_pid, free_pid, run, run_set, run-used}
use snoop_diggity_d_os.Paging.{Table, setup_task_paging}
use snoop_diggity_d_os.Paging.Isolation.{translate, setup_task_paging-user, task_isolation}
use snoop_diggity_d_os.Paging.Vidmap.{vidmap-user, vidmap_directory, vidmap_table}

run-used_example :
    (run 1 (use_pid (pos 2) ∷ free_pid (pos 0) ∷ use_pid (pos 9) ∷ []) < 64)
    × ((j : ℕ)
        → j < 6
        → used (run 1 (use_pid (pos 2) ∷ free_pid (pos 0) ∷ use_pid (pos 9) ∷ [])) j
          ≡ run_set (used 1 j) j (use_pid (pos 2) ∷ free_pid (pos 0) ∷ use_pid (pos 9) ∷ []))
run-used_example =
    run-used (use_pid (pos 2) ∷ free_pid (pos 0) ∷ use_pid (pos 9) ∷ []) 1 (omega arith)

available : get_available_pid 11 ≡ pos 2
unfolding get_available_pid scan_pids
available = refl

abbrev empty_table : Table
empty_table _ = 0

-- the second block of memory, at 12 MB
setup_task_paging-user_example :
    translate true 0x200000
      (setup_task_paging 0x200000 empty_table empty_table 0xC00000).0
      (setup_task_paging 0x200000 empty_table empty_table 0xC00000).1
      0x08048000
    ≡ some 0xC48000
setup_task_paging-user_example =
    setup_task_paging-user 512 3 empty_table empty_table 0x08048000 (omega arith) (omega arith)
      (omega arith)

reaches :
    translate true 0x200000
      (setup_task_paging 0x200000 empty_table empty_table (block_address_for_process (pos 1))).0
      (setup_task_paging 0x200000 empty_table empty_table (block_address_for_process (pos 1))).1
      0x08048000
    ≡ some 0xC48000
unfolding block_address_for_process
reaches =
    setup_task_paging-user 512 3 empty_table empty_table 0x08048000 (omega arith) (omega arith)
      (omega arith)

task_isolation_example : ◌≡◌ {A = ℕ} 1 1 × ◌≡◌ {A = ℕ} 0x08048000 0x08048000
task_isolation_example =
    task_isolation 512 512 1 1 0x08048000 0x08048000 0xC48000 empty_table empty_table empty_table
      empty_table (omega arith) (omega arith) (omega arith) (omega arith) (omega arith)
      (omega arith) reaches reaches

vidmap-user_example :
    translate true 0x200000
      (vidmap_directory 512 3 empty_table empty_table (omega arith) (omega arith))
      (vidmap_table 512 3 empty_table empty_table (omega arith) (omega arith))
      0xB8004
    ≡ some 0xB8004
vidmap-user_example =
    vidmap-user 512 3 empty_table empty_table (omega arith) (omega arith) 0xB8004 (omega arith)
