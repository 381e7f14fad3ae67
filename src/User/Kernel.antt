-- ===== src/User/Kernel.antt =====
-- The kernel as a program sees it: the system calls of student-distrib/syscalls.c through the jump
-- tables to the files of student-distrib/filesystem.c and the terminal. What a call of the clock,
-- a read from the keyboard and execute do hangs on interrupts and on other programs; they are fields
-- of a record of drivers.
use snoop_diggity_d_os.Prelude.{
  ℕ, List, ◌++◌, Option, none, some, ℤ, pos, negsuc, failure, success, ◌==◌, if◌then◌else◌, drop,
  length,
}
use snoop_diggity_d_os.Strings.{c_string}
use snoop_diggity_d_os.Fs.{Image, ok, fails, fault}
use snoop_diggity_d_os.Descriptors.{
  Fops, no_table, rtc_table, terminal_table, regular_file_table, directory_table, FileInfo, getargs,
  sys_open, dispatch, read_file, read_directory,
}
use snoop_diggity_d_os.User.{Calls}

-- A process: its descriptors, its arguments, an address of its page that stands for the pointers
-- that it passes, and the characters that write_terminal has put for it.
pub record Process : Type 0 where
  pub files : ℕ → FileInfo
  pub args : List ℕ
  pub place : ℕ
  pub shown : List ℕ

-- what a call with a buffer gives: its result, the buffer and the process
abbrev pub Answer : Type 0
Answer = Option (ℤ × List ℕ × Process)

-- write_terminal: put_t takes the characters up to a NUL
unfoldable pub write_shown : Process → ℕ → List ℕ → ℤ → Option (ℤ × Process)
write_shown p fd buf (negsuc n) = some (failure, p)
write_shown p fd buf (pos nbytes) =
    if fd == 1
    then some (pos nbytes, record p { shown = p.shown ++ c_string nbytes buf })
    else some (failure, p)

-- the descriptor, which dispatch has found to be one
abbrev pub index : ℤ → ℕ
index (pos n) = n
index (negsuc n) = 0

-- What the clock, the keyboard and execute do for a call, at the time that they return.
pub record Drivers : Type 0 where
  pub read_rtc : Process → List ℕ → ℕ → Answer
  pub write_rtc : Process → List ℕ → ℤ → Option (ℤ × Process)
  pub read_terminal : Process → List ℕ → ℕ → Answer
  pub execute : Process → List ℕ → Option (ℤ × Process)

module _ (img : Image) (base : ℕ) (drivers : Drivers) where
  -- the functions for read in the four tables
  unfoldable pub r_func : Fops → Process → ℕ → List ℕ → ℕ → Answer
  r_func no_table p fd buf nbytes = none
  r_func rtc_table p fd buf nbytes = drivers.read_rtc p buf nbytes
  r_func terminal_table p fd buf nbytes = drivers.read_terminal p buf nbytes
  r_func regular_file_table p fd buf nbytes =
      let r = read_file img base p.files fd nbytes in
      some (r.0.ret, r.0.written ++ drop (length r.0.written) buf, record p { files = r.1 })
  r_func directory_table p fd buf nbytes = elim (read_directory img p.files fd buf nbytes) [
    | ok r ↦ some (pos r.ret, r.buf, record p { files = r.files })
    | fails ↦ some (failure, buf, p)
    | fault ↦ none
  ]

  -- the functions for write in the four tables
  unfoldable pub w_func : Fops → Process → ℕ → List ℕ → ℤ → Option (ℤ × Process)
  w_func no_table p fd buf nbytes = none
  w_func rtc_table p fd buf nbytes = drivers.write_rtc p buf nbytes
  w_func terminal_table p fd buf nbytes = write_shown p fd buf nbytes
  w_func regular_file_table p fd buf nbytes = some (failure, p)
  w_func directory_table p fd buf nbytes = some (failure, p)

  -- read
  unfoldable pub sys_read : Process → ℤ → List ℕ → ℕ → Answer
  sys_read p fd buf nbytes = elim (dispatch p.files fd p.place) [
    | ok table ↦ r_func table p (index fd) buf nbytes
    | fails ↦ some (failure, buf, p)
    | fault ↦ none
  ]

  -- write
  unfoldable pub sys_write : Process → ℤ → List ℕ → ℤ → Option (ℤ × Process)
  sys_write p fd buf nbytes = elim (dispatch p.files fd p.place) [
    | ok table ↦ w_func table p (index fd) buf nbytes
    | fails ↦ some (failure, p)
    | fault ↦ none
  ]

  -- open, with the open functions that only return SUCCESS
  unfoldable pub open_call : Process → List ℕ → Option (ℤ × Process)
  open_call p name = elim (sys_open img base p.files p.place name) [
    | ok r ↦ some (pos r.fd, record p { files = r.files })
    | fails ↦ some (failure, p)
    | fault ↦ none
  ]

  -- getargs
  unfoldable pub getargs_call : Process → List ℕ → ℕ → Answer
  getargs_call p buf nbytes = elim (getargs p.args p.place buf (pos nbytes)) [
    | ok copied ↦ some (success, copied, p)
    | fails ↦ some (failure, buf, p)
    | fault ↦ none
  ]

  -- int 0x80 with the numbers of the calls
  abbrev pub kernel : Calls Process
  kernel = record {
    ece391_getargs = getargs_call;
    ece391_open = open_call;
    ece391_execute = drivers.execute;
    ece391_read = sys_read;
    ece391_write = sys_write;
  }
