-- ===== src/Descriptors.antt =====
-- The file descriptors of a process: open, close, read, write, getargs and clear_fd_array of
-- student-distrib/syscalls.c and read_file and read_directory of student-distrib/filesystem.c.
-- The fd_array of the process is a function on the indices below 8. A call through a jump table
-- is reported with the table that it goes through; what it does is in the driver's own file. A
-- position is kept as the 32-bit word that read_data takes it for.
pub mod Valid
pub mod Open
pub mod Close
pub mod Reads
pub mod Listing
use snoop_diggity_d_os.Prelude.{
  ℕ, zero, suc, ◌+◌, ◌*◌, ◌%◌, ◌^◌, List, [], ◌∷◌, Option, none, some, Bool, true, false, ◌&&◌,
  ◌||◌, not, ltb, leb, ◌==◌, if◌then◌else◌, update, bit_and, ℤ, pos, negsuc, failure, success,
  get_or, ◌++◌, length,
}
use snoop_diggity_d_os.Strings.{strlen, strncpy}
use snoop_diggity_d_os.Fs.{
  Image, Dentry, Outcome, ok, fails, fault, read_dentry_by_name, dentry_at, read_data, ReadResult,
}
use snoop_diggity_d_os.Fs.Pointers.{null, get_inode_ptr, get_inode_num}

-- The value of `fops_jmp_table`: NULL or one of the four tables.
pub data Fops : Type 0 where
  no_table rtc_table terminal_table regular_file_table directory_table : Fops

-- file_info_t
pub record FileInfo : Type 0 where
  pub fops_jmp_table : Fops
  pub inode : ℕ
  pub position : ℕ
  pub flags : ℕ

abbrev pub max_fd_per_process : ℕ
max_fd_per_process = 8

abbrev pub task_virtual_base_address : ℕ
task_virtual_base_address = 0x08000000

-- the check of a pointer from the user
abbrev pub outside_user : ℕ → Bool
outside_user p = ltb p task_virtual_base_address || leb (task_virtual_base_address + 0x400000) p

-- flags & ISOLATE_BIT_0
abbrev pub in_use : FileInfo → Bool
in_use f = not (bit_and f.flags 1 == 0)

abbrev pub closed_file : FileInfo
closed_file = record { fops_jmp_table = no_table; inode = null; position = 0; flags = 0 }

-- `for (i = MIN_FD_PER_PROCESS; i < MAX_FD_PER_PROCESS; i++)` from `i` on, with `rounds` left
abbrev clear_from : ℕ → ℕ → (ℕ → FileInfo) → ℕ → FileInfo
clear_from zero i files = files
clear_from (suc rounds) i files = clear_from rounds (i + 1) (update files i closed_file)

-- clear_fd_array
unfoldable pub clear_fd_array : (ℕ → FileInfo) → ℕ → FileInfo
clear_fd_array files = clear_from 6 2 files

-- what internal_execute stores for stdin and for stdout
abbrev terminal_file : FileInfo
terminal_file = record { fops_jmp_table = terminal_table; inode = null; position = 0; flags = 1 }

-- the part of internal_execute that makes the child's descriptors
unfoldable pub execute_fds : (ℕ → FileInfo) → ℕ → FileInfo
unfolding clear_fd_array
execute_fds files = clear_fd_array (update (update files 0 terminal_file) 1 terminal_file)

-- the loop of open for an unused descriptor
unfoldable pub unused_fd : (ℕ → FileInfo) → ℕ → ℕ → ℕ
unused_fd files zero i = i
unused_fd files (suc rounds) i =
    let rest = unused_fd files rounds (i + 1) in if not (in_use (files i)) then i else rest

-- the switch on the type of the file; any other type leaves the table as it is
abbrev pub table_for : ℕ → Fops → Fops
table_for filetype old =
    if filetype == 0
    then rtc_table
    else if filetype == 1
    then directory_table
    else if filetype == 2
    then regular_file_table
    else old

-- a call through the table, which faults at NULL
abbrev pub call_through {ℓ} : {A : Type ℓ} → Fops → A → Outcome A
call_through no_table result = fault
call_through _ result = ok result

-- What open changes: the descriptor that it returns, the array, and the table whose open function
-- it calls.
pub record Opened : Type 0 where
  pub fd : ℕ
  pub files : ℕ → FileInfo
  pub calls : Fops

-- the part of open behind the search, for the entry that it found and the index of the loop
unfoldable pub open_entry : Image → ℕ → (ℕ → FileInfo) → Dentry → ℕ → Outcome Opened
open_entry img base files entry i =
    if i == max_fd_per_process
    then fails
    else (let table = table_for entry.filetype (files i).fops_jmp_table in
        call_through table (record {
          fd = i;
          files = update files i (record {
            fops_jmp_table = table;
            inode = if not (entry.filetype == 2) then null else get_inode_ptr img base entry.inode;
            position = 0;
            flags = 1;
          });
          calls = table;
        }))

-- the system call open, with `base` the address in `inodes`, `filename` the pointer and `name` what it points to
unfoldable pub sys_open : Image → ℕ → (ℕ → FileInfo) → ℕ → List ℕ → Outcome Opened
sys_open img base files filename name =
    if outside_user filename then fails else elim (read_dentry_by_name img name) [
      | ok entry ↦ open_entry img base files entry (unused_fd files 6 2)
      | fails ↦ fails
      | fault ↦ fault
    ]

-- fd >= MAX_FD_PER_PROCESS || fd < low
abbrev pub fd_in : ℕ → ℤ → Option ℕ
fd_in low (negsuc n) = none
fd_in low (pos fd) = if leb low fd && ltb fd max_fd_per_process then some fd else none

-- close: the array, and the table whose close function it calls
unfoldable pub close : (ℕ → FileInfo) → ℤ → Outcome ((ℕ → FileInfo) × Fops)
close files fd = elim (fd_in 2 fd) [
  | none ↦ fails
  | some i ↦
      if (files i).flags == 0
      then fails
      else call_through (files i).fops_jmp_table
          (update files i (record (files i) { flags = 0 }), (files i).fops_jmp_table)
]

-- read and write up to the call through the table: the table, whose r_func or w_func they call
unfoldable pub dispatch : (ℕ → FileInfo) → ℤ → ℕ → Outcome Fops
dispatch files fd buf = if outside_user buf then fails else elim (fd_in 0 fd) [
  | none ↦ fails
  | some i ↦
      if not (in_use (files i))
      then fails
      else call_through (files i).fops_jmp_table (files i).fops_jmp_table
]

-- the end of read_file: a positive count moves the position
unfoldable pub advance : (ℕ → FileInfo) → ℕ → ReadResult → ReadResult × (ℕ → FileInfo)
advance files fd r = elim r.ret [
  | negsuc n ↦ (r, files)
  | pos result ↦
      if ltb 0 result
      then (
        r,
        update files fd (record (files fd) { position = ((files fd).position + result) % 2 ^ 32 }),
      )
      else (r, files)
]

-- read_file: what read_data writes and returns, and the array
unfoldable pub read_file : Image → ℕ → (ℕ → FileInfo) → ℕ → ℕ → ReadResult × (ℕ → FileInfo)
read_file img base files fd nbytes =
    advance files fd
      (read_data img (get_inode_num base (files fd).inode) (files fd).position nbytes)

-- What read_directory does: the buffer, the array and the result.
pub record ReadEntry : Type 0 where
  pub buf : List ℕ
  pub files : ℕ → FileInfo
  pub ret : ℕ

-- the end of read_directory: FILE_NAME_SIZE, or the length of the string in the buffer
unfoldable pub name_length : List ℕ → Option ℕ
name_length buf =
    if leb (length buf) 31 then none else if not (get_or buf 31 0 == 0) then some 32 else strlen buf

-- read_directory, with the bytes of `buf` from its pointer on. The name's last byte is followed in
-- memory by the low byte of the entry's type.
unfoldable pub read_directory : Image → (ℕ → FileInfo) → ℕ → List ℕ → ℕ → Outcome ReadEntry
read_directory img files fd buf nbytes =
    let ls_count = (files fd).position in
    if leb img.direntries ls_count
    then ok (record { buf = buf; files = files; ret = 0 })
    else elim (dentry_at img.files ls_count) [
      | fails ↦ fault
      | fault ↦ fault
      | ok entry ↦ elim (strncpy buf (entry.filename ++ (entry.filetype % 256 ∷ [])) nbytes) [
        | none ↦ fault
        | some copied ↦ elim (name_length copied) [
          | none ↦ fault
          | some n ↦ ok (record {
            buf = copied;
            files = update files fd (record (files fd) { position = ls_count + 1 });
            ret = n;
          })
        ]
      ]
    ]

-- getargs, with `args` the string of the process; the new contents of `buf`
unfoldable pub getargs : List ℕ → ℕ → List ℕ → ℤ → Outcome (List ℕ)
getargs args address buf (negsuc n) = fails
getargs args address buf (pos num_bytes) =
    if outside_user address then fails else elim (strlen args) [
      | none ↦ fault
      | some n ↦
          if ltb num_bytes n
          then fails
          else elim (strncpy buf args num_bytes) [ none ↦ fault | some copied ↦ ok copied ]
    ]
