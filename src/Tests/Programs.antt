-- ===== src/Tests/Programs.antt =====
-- A program is started and ends.
use snoop_diggity_d_os.Prelude.{
  ℕ, ◌+◌, ◌-◌, ◌*◌, ◌/◌, ◌<◌, ◌≡◌, ◌≢◌, refl, sym, zero, suc, ◌∙◌, ap, List, [], ◌∷◌, Option, some,
  none, true, ◌==◌, if◌then◌else◌, arith, inl, inr, pos, negsuc, ℤ, Option-cases, replicate,
}
use snoop_diggity_d_os.Strings.{strlen, strcpy, strncmp, char_diff}
use snoop_diggity_d_os.Strings.Copy.{chars}
use snoop_diggity_d_os.Fs.{
  Image, Dentry, Outcome, ok, fails, fault, read_dentry_by_name, find_dentry, read_data,
  file_length, seek, copy_bytes, next_block, bad_block,
}
use snoop_diggity_d_os.Fs.Blocks.{HasBlocks, file_byte, file_bytes}
use snoop_diggity_d_os.Pids.{get_available_pid, scan_pids, all_pids_available}
use snoop_diggity_d_os.Descriptors.{closed_file}
use snoop_diggity_d_os.Scheduler.{pcb_address, stack_top}
use snoop_diggity_d_os.Execute.{
  Pcb, System, Unset, started, Split, split_loop, split_command, child_system, user_context,
  start_process, load_file, internal_execute, word_of,
}
use snoop_diggity_d_os.Execute.Command.{IsArgument, split_command-IsArgument}
use snoop_diggity_d_os.Execute.Start.{Program, Refusal, guarded}
use snoop_diggity_d_os.Execute.Memory.{user_byte, internal_execute-user_byte}

-- "a b"
split_command-IsArgument_example :
    (split : Split) × (split_command (replicate 8 1) (97 ∷ 32 ∷ 98 ∷ 0 ∷ []) 3 ≡ some split)
    × (chars split.commandstring ≡ 97 ∷ [])
    × IsArgument (97 ∷ 32 ∷ 98 ∷ []) split.argstring
split_command-IsArgument_example =
    split_command-IsArgument (replicate 8 1) (97 ∷ 32 ∷ 98 ∷ 0 ∷ []) (inr (inr (inr (inl refl))))
      (omega arith)

-- a file system with one program of 30 bytes, "a"
abbrev pub program : Dentry
program = record { filename = 97 ∷ replicate 31 0; filetype = 2; inode = 0; reserved = [] }

abbrev pub image : Image
image = record {
  direntries = 1;
  inodes = 1;
  datablocks = 1;
  files = program ∷ [];
  words = λ i. if i == 0 then 30 else 0;
  bytes = λ i.
      if i == 0
      then 0x7f
      else if i == 1
      then 0x45
      else if i == 2
      then 0x4c
      else if i == 3
      then 0x46
      else i;
}

image-HasBlocks : HasBlocks image 0 30
unfolding bad_block
image-HasBlocks k h = (let first : k ≡ 0 = omega arith in rw first refl)

-- every entry that is found is that of the program
inode_or : Outcome Dentry → ℕ
inode_or (ok entry) = entry.inode
inode_or fails = 0
inode_or fault = 0

compared_inode :
    (name : List ℕ) (r : ℤ)
    → strncmp name program.filename 32 ≡ some r
    → inode_or (read_dentry_by_name image name) ≡ 0
unfolding read_dentry_by_name find_dentry inode_or
compared_inode name (pos zero) e = rw (inode_or, e) refl
compared_inode name (pos (suc n)) e = rw (inode_or, e) refl
compared_inode name (negsuc n) e = rw (inode_or, e) refl

found_inode :
    (name : List ℕ) (entry : Dentry) → read_dentry_by_name image name ≡ ok entry → entry.inode ≡ 0
unfolding read_dentry_by_name find_dentry inode_or
found_inode name entry found =
    sym (ap inode_or found) ∙ elim (Option-cases (strncmp name program.filename 32)) [
      | inl lost ↦ rw (inode_or, lost) refl
      | inr (r, e) ↦ compared_inode name r e
    ]

abbrev pub unset : Unset
unset = record {
  table_address = λ i. (512 + i) * 4096;
  commandstring = replicate 128 1;
  magic = replicate 4 0;
  entry_point = replicate 4 0;
}

abbrev shell_pcb : Pcb
shell_pcb = record {
  fd_array = λ _. closed_file;
  ret_val = 0;
  args = none;
  parent_pcb = pcb_address 0;
  esp0 = stack_top 0;
  esp_k = 0;
  ebp_k = 0;
  flags = 1;
  pid = pos 0;
  owned_by_terminal = 0;
}

-- the system with the pids of a word in use
abbrev pub system : ℕ → System
system pid_avail = record {
  pcbs = λ _. shell_pcb;
  pid_avail = pid_avail;
  esp0 = stack_top 0;
  terminal_pid = λ _. 0;
  terminal_state = 0;
  memory = λ _. 0;
  directories = λ _ _. 0;
  tables = λ _ _. 0;
  directory = pos 0;
  interrupts = true;
  esp = 0x7FFF00;
  ebp = 0x7FFF40;
  frames = λ _. record { pid = 0; pcb_child = 0; interrupts = true };
  image = image;
}

-- "a b"
abbrev pub command : List ℕ
command = 97 ∷ 32 ∷ 98 ∷ 0 ∷ []

abbrev pub argument : Option (List ℕ)
argument = some (98 ∷ 0 ∷ replicate 124 1)

abbrev pub running : System
running = child_system unset (guarded (system 1)) true program argument 0 1

abbrev first_shell : System
first_shell = child_system unset (guarded (system 0)) true program argument 1 0

pub program_runs :
    internal_execute unset (system 1) command 0 ≡ started running (user_context unset image program)
unfolding internal_execute get_available_pid scan_pids strlen split_command split_loop strcpy
    load_file read_dentry_by_name find_dentry strncmp char_diff read_data bad_block seek copy_bytes
    next_block start_process all_pids_available
program_runs = refl

boots :
    internal_execute unset (system 0) command 1
    ≡ started first_shell (user_context unset image program)
unfolding internal_execute get_available_pid scan_pids strlen split_command split_loop strcpy
    load_file read_dentry_by_name find_dentry strncmp char_diff read_data bad_block seek copy_bytes
    next_block start_process all_pids_available
boots = refl

internal_execute-user_byte_example :
    (p : Program unset (system 1) command) × ((k : ℕ)
      → k < file_length image p.entry.inode
      → k < 0x400000 - 0x48000
      → user_byte unset running p.pid (0x08048000 + k) ≡ some (file_byte image p.entry.inode k))
    × (27 < file_length image p.entry.inode
        → (user_context unset image program).eip ≡ word_of (file_bytes image p.entry.inode 24 4))
    × ((a : ℕ) → a / 0x400000 ≢ p.pid + 2 → running.memory a ≡ 0)
    × ((i : ℕ) → i ≢ p.pid → (running.directories i ≡ (λ _. 0)) × (running.tables i ≡ (λ _. 0)))
internal_execute-user_byte_example =
    internal_execute-user_byte unset (system 1) running command 0 (user_context unset image program)
      (λ i h. (512 + i, refl, omega arith))
      (λ name entry found regular.
        (let first = found_inode name entry found in rw first (omega arith, image-HasBlocks)))
      (omega arith) program_runs
