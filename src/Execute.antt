-- ===== src/Execute.antt =====
-- Starting a program: internal_execute of student-distrib/syscalls.c, and the state that halt shares.
-- Process control blocks are found by their address. What internal_execute keeps on the stack of the
-- caller until halt jumps back into it is a frame, found by the frame pointer. The addresses of the
-- page tables and what the uninitialised arrays hold are parameters.
pub mod Command
pub mod Start
pub mod Refusal
pub mod Memory
pub mod Leave
pub mod Back
pub mod Halt
pub mod Keeps
pub mod Nested
use snoop_diggity_d_os.Prelude.{
  ℕ, zero, suc, ◌+◌, ◌-◌, ◌*◌, ◌/◌, ◌%◌, ◌^◌, List, [], ◌∷◌, ◌++◌, Option, none, some, Bool, true,
  false, ◌&&◌, ◌||◌, not, ltb, leb, ◌==◌, if◌then◌else◌, update, bit_and, bit_or, ℤ, pos, negsuc,
  is_neg, signed32, length, get_or, set, drop,
}
use snoop_diggity_d_os.Strings.{strlen, strcpy}
use snoop_diggity_d_os.Fs.{Image, Dentry, ok, fails, fault, read_dentry_by_name, read_data}
use snoop_diggity_d_os.Pids.{
  all_pids_available, get_available_pid, mark_pid_used, mark_pid_free, block_address_for_process,
}
use snoop_diggity_d_os.Paging.{Table, setup_task_paging}
use snoop_diggity_d_os.Descriptors.{FileInfo, execute_fds}
use snoop_diggity_d_os.Scheduler.{current_pcb, pcb_address, stack_top}

-- pcb_t; the arguments are the bytes that `args` points at, and none is NULL
pub record Pcb : Type 0 where
  pub fd_array : ℕ → FileInfo
  pub ret_val : ℕ
  pub args : Option (List ℕ)
  pub parent_pcb : ℕ
  pub esp0 : ℕ
  pub esp_k : ℕ
  pub ebp_k : ℕ
  pub flags : ℕ
  pub pid : ℤ
  pub owned_by_terminal : ℕ

-- The variables of a call of internal_execute that it reads after the jump from halt: `pid`,
-- `pcb_child` and the interrupt flag in `interrupt_flags`.
pub record Frame : Type 0 where
  pub pid : ℕ
  pub pcb_child : ℕ
  pub interrupts : Bool

-- What the two calls read and change: the blocks, the word of pids, the task state's `esp0`, the
-- pids of the terminals with the one that is shown, physical memory, the page directories and page
-- tables of the processes, the pid of the page directory in force, the interrupt flag, the stack and
-- frame pointers with the frames, and the file system.
pub record System : Type 0 where
  pub pcbs : ℕ → Pcb
  pub pid_avail : ℕ
  pub esp0 : ℕ
  pub terminal_pid : ℕ → ℕ
  pub terminal_state : ℕ
  pub memory : ℕ → ℕ
  pub directories : ℕ → Table
  pub tables : ℕ → Table
  pub directory : ℤ
  pub interrupts : Bool
  pub esp : ℕ
  pub ebp : ℕ
  pub frames : ℕ → Frame
  pub image : Image

-- What the source does not set: the addresses of the static page tables, and the bytes on the stack
-- under `commandstring`, `magic` and `entry_point_address`.
pub record Unset : Type 0 where
  pub table_address : ℕ → ℕ
  pub commandstring : List ℕ
  pub magic : List ℕ
  pub entry_point : List ℕ

-- The registers that iret_to_user loads.
pub record UserContext : Type 0 where
  pub eip : ℕ
  pub esp : ℕ
  pub eflags : ℕ

-- How internal_execute ends: it returns FAILURE, the program runs, or it reads out of bounds.
pub data Executed : Type 0 where
  refused : System → Executed
  started : System → UserContext → Executed
  faults : Executed

abbrev pub max_execute_arg_size : ℕ
max_execute_arg_size = 128

abbrev pub kernel_pid : ℤ
kernel_pid = negsuc 0

-- the loop over `commandstring` from index `i` on, with the index that `argstring` points at
unfoldable pub split_loop : ℕ → ℕ → List ℕ → Option ℕ → List ℕ × Option ℕ
split_loop zero i commandstring argstring = (commandstring, argstring)
split_loop (suc rounds) i commandstring argstring =
    let rest = split_loop rounds (i + 1) commandstring (some (i + 1)) in
    if get_or commandstring i 0 == 32 then (set commandstring i 0, some (i + 1)) else rest

-- What the command is split into: `commandstring` with the name, and what `argstring` points at.
pub record Split : Type 0 where
  pub commandstring : List ℕ
  pub argstring : Option (List ℕ)

abbrev pub pointed : List ℕ → Option ℕ → Option (List ℕ)
pointed bytes none = none
pointed bytes (some i) = some (drop i bytes)

-- strcpy and the split; none when `commandstring` is overrun
unfoldable pub split_command : List ℕ → List ℕ → ℕ → Option Split
unfolding split_loop
split_command commandstring command len = elim (strcpy commandstring command) [
  | none ↦ none
  | some copied ↦
      let (bytes, argstring) = split_loop len 0 copied none in
      some (record { commandstring = bytes; argstring = pointed bytes argstring })
]

-- an array of bytes after read_data has written to it
abbrev pub overwrite : List ℕ → List ℕ → List ℕ
overwrite written array = written ++ drop (length written) array

-- magic == 0x7f 'E' 'L' 'F'
abbrev pub is_executable : List ℕ → Bool
is_executable magic =
    get_or magic 0 0 == 0x7f
    && (get_or magic 1 0 == 0x45 && (get_or magic 2 0 == 0x4c && get_or magic 3 0 == 0x46))

-- a 32-bit number, its low byte first
abbrev pub word_of : List ℕ → ℕ
word_of bytes =
    get_or bytes 0 0
    + 2 ^ 8 * get_or bytes 1 0
    + 2 ^ 16 * get_or bytes 2 0
    + 2 ^ 24 * get_or bytes 3 0

-- memory with a list of bytes at an address
abbrev pub load_at : (ℕ → ℕ) → ℕ → List ℕ → ℕ → ℕ
load_at memory address bytes a =
    if leb address a && ltb a (address + length bytes)
    then get_or bytes (a - address) 0
    else memory a

-- `if(all_pids_available())`
abbrev pub first_process : System → System
first_process s =
    if all_pids_available s.pid_avail
    then (let curr = current_pcb s.esp0 in
        record s {
          pcbs = update s.pcbs curr (record (s.pcbs curr) {
            pid = kernel_pid;
            parent_pcb = 0;
            args = none;
            ret_val = 0;
            esp0 = 0;
          });
        })
    else s

-- from block_address_for_process to the last write before iret_to_user, for the free `pid`;
-- `interrupts` is the flag that cli_and_save has kept
unfoldable pub child_system : Unset → System → Bool → Dentry → Option (List ℕ) → ℕ → ℕ → System
child_system unset s interrupts entry argstring flags pid =
    let proc_memory_start = block_address_for_process (pos pid) in
    let program = (read_data s.image entry.inode 0 (0x400000 - 0x48000)).written in
    let (pd, base_pt) =
      setup_task_paging (unset.table_address pid) (s.directories pid) (s.tables pid)
        proc_memory_start in
    let curr = current_pcb s.esp0 in
    let child = pcb_address pid in
    let pcbs = update s.pcbs child (record (s.pcbs child) {
      esp0 = s.esp0;
      parent_pcb = curr;
      pid = pos pid;
      args = argstring;
      flags = flags;
      owned_by_terminal = s.terminal_state;
      fd_array = execute_fds (s.pcbs child).fd_array;
    }) in
    record s {
      pcbs =
          if bit_and flags 1 == 0
          then update pcbs curr (record (pcbs curr) { esp_k = s.esp; ebp_k = s.ebp })
          else pcbs;
      pid_avail = (mark_pid_used s.pid_avail (pos pid)).0;
      esp0 = stack_top pid;
      terminal_pid = update s.terminal_pid s.terminal_state pid;
      memory = load_at s.memory (proc_memory_start + 0x48000) program;
      directories = update s.directories pid pd;
      tables = update s.tables pid base_pt;
      directory = pos pid;
      frames =
          update s.frames s.ebp (record { pid = pid; pcb_child = child; interrupts = interrupts });
    }

-- the context of iret_to_user
unfoldable pub user_context : Unset → Image → Dentry → UserContext
user_context unset image entry = record {
  eip = word_of (overwrite (read_data image entry.inode 24 4).written unset.entry_point);
  esp = 0x8000000 + 0x400000;
  eflags = bit_or (bit_or 0x200 0x3000) 0x6;
}

-- from the reading of the entry point to iret_to_user
unfoldable pub start_process : Unset → System → Bool → Dentry → Option (List ℕ) → ℕ → ℕ → Executed
start_process unset s interrupts entry argstring flags pid =
    started (child_system unset s interrupts entry argstring flags pid)
      (user_context unset s.image entry)

-- internal_execute from the search for the file on
unfoldable pub load_file : Unset → System → Bool → Split → ℕ → ℕ → Executed
load_file unset s interrupts split flags pid =
    elim (read_dentry_by_name s.image split.commandstring) [
      | fails ↦ refused s
      | fault ↦ faults
      | ok entry ↦
          if not (entry.filetype == 2)
          then refused s
          else if not
              (is_executable (overwrite (read_data s.image entry.inode 0 4).written unset.magic))
          then refused s
          else start_process unset s interrupts entry split.argstring flags pid
    ]

-- internal_execute
unfoldable pub internal_execute : Unset → System → List ℕ → ℕ → Executed
internal_execute unset s command flags =
    let s₁ = first_process (record s { interrupts = false }) in
    elim (get_available_pid s₁.pid_avail) [
      | negsuc n ↦ refused s₁
      | pos pid ↦ elim (strlen command) [
        | none ↦ faults
        | some len ↦
            if leb max_execute_arg_size len
            then refused s₁
            else elim (split_command unset.commandstring command len) [
              | none ↦ faults
              | some split ↦ load_file unset s₁ s.interrupts split flags pid
            ]
      ]
    ]
