-- ===== src/User/Access.antt =====
-- The calls read and write of a program on a regular file and on the terminal, in a process whose
-- descriptor stands at a byte of the file (student-distrib/syscalls.c, student-distrib/filesystem.c).
use snoop_diggity_d_os.Prelude.{
  ℕ, zero, suc, ◌+◌, ◌-◌, ◌<◌, ◌≤◌, min, ◌≡◌, ◌≢◌, refl, ◌∙◌, ap, List, ◌++◌, some, ℤ, pos, negsuc,
  lt→ltb, arith, length, drop, true, false, leb,
}
use snoop_diggity_d_os.Strings.{c_string}
use snoop_diggity_d_os.Fs.{Image, ok, file_length, read_data, ReadResult}
use snoop_diggity_d_os.Fs.Blocks.{file_byte, file_bytes}
use snoop_diggity_d_os.Descriptors.{
  Fops, regular_file_table, terminal_table, FileInfo, in_use, outside_user, read_file, advance,
  no_table, dispatch,
}
use snoop_diggity_d_os.Fs.Pointers.{get_inode_num}
use snoop_diggity_d_os.Descriptors.Valid.{call_through-has_table}
use snoop_diggity_d_os.Descriptors.Reads.{IsOpen, read_file-IsOpen}
use snoop_diggity_d_os.Descriptors.Listing.{c_string-append}
use snoop_diggity_d_os.User.Kernel.{
  Drivers, Process, sys_read, sys_write, r_func, w_func, write_shown,
}

-- No byte of the file is NUL.
abbrev pub IsText : Image → ℕ → Type 0
IsText img inode = (i : ℕ) → i < file_length img inode → file_byte img inode i ≢ 0

length-file_bytes : (img : Image) (inode p n : ℕ) → length (file_bytes img inode p n) ≡ n
length-file_bytes img inode p zero = refl
length-file_bytes img inode p (suc n) = ap suc (length-file_bytes img inode (p + 1) n)

-- a text is one C string
c_string-file_bytes :
    (img : Image) (inode p n : ℕ)
    → IsText img inode
    → p + n ≤ file_length img inode
    → c_string n (file_bytes img inode p n) ≡ file_bytes img inode p n
c_string-file_bytes img inode p zero text h = refl
c_string-file_bytes img inode p (suc n) text h =
    let here = text p (omega arith) in
    let rest = c_string-file_bytes img inode (p + 1) n text (omega arith) in
    ground (arith, here, rest)

-- what the first byte of a count of bytes gives the terminal
pub c_string-read :
    (img : Image) (inode p n : ℕ) (buf : List ℕ)
    → IsText img inode
    → p + n ≤ file_length img inode
    → c_string n (file_bytes img inode p n ++ buf) ≡ file_bytes img inode p n
c_string-read img inode p n buf text h =
    c_string-append n (file_bytes img inode p n) buf (length-file_bytes img inode p n)
    ∙ c_string-file_bytes img inode p n text h

-- no call of read_file changes a table or a flag
advance-keeps :
    (files : ℕ → FileInfo) (fd j : ℕ) (r : ReadResult) (ret : ℤ)
    → r.ret ≡ ret
    → let after = (advance files fd r).1 in
      ((after j).fops_jmp_table ≡ (files j).fops_jmp_table) × ((after j).flags ≡ (files j).flags)
unfolding advance
advance-keeps files fd j r (pos k) e = rw e (ground arith, ground arith)
advance-keeps files fd j r (negsuc k) e = rw e (refl, refl)

-- The descriptor `fd` of a process stands at byte `at` of a regular file, and stdout is a terminal.
pub record Stands (img : Image) (base inode at fd : ℕ) (p : Process) : Type 0 where
  pub page : outside_user p.place ≡ false
  pub small : fd < 8
  pub open_at : IsOpen img base inode at (p.files fd)
  pub table : (p.files fd).fops_jmp_table ≡ regular_file_table
  pub used : in_use (p.files fd) ≡ true
  pub stdout : (p.files 1).fops_jmp_table ≡ terminal_table
  pub stdout_used : in_use (p.files 1) ≡ true

pub Stands-read_file :
    (img : Image) (base inode at n fd : ℕ) (p : Process)
    → Stands img base inode at fd p
    → Stands img base inode
        (at + min n (file_length img inode - at))
        fd
        (record p { files = (read_file img base p.files fd n).1 })
unfolding read_file
Stands-read_file img base inode at n fd p v =
    let r = read_data img (get_inode_num base (p.files fd).inode) (p.files fd).position n in
    let here = advance-keeps p.files fd fd r _ refl in
    let out = advance-keeps p.files fd 1 r _ refl in
    record {
      page = v.page;
      small = v.small;
      open_at = (read_file-IsOpen img base inode at n fd p.files v.open_at).1;
      table = here.0 ∙ v.table;
      used = rw here.1 v.used;
      stdout = out.0 ∙ v.stdout;
      stdout_used = rw out.1 v.stdout_used;
    }

pub dispatch-table :
    (files : ℕ → FileInfo) (fd place : ℕ) (table : Fops)
    → outside_user place ≡ false
    → fd < 8
    → in_use (files fd) ≡ true
    → (files fd).fops_jmp_table ≡ table
    → table ≢ no_table
    → dispatch files (pos fd) place ≡ ok table
unfolding dispatch
dispatch-table files fd place table page small used e has =
    let low : leb 0 fd ≡ true = ground arith in
    rw (page, low, lt→ltb fd 8 small, used, e) (call_through-has_table table table has)

-- the read of cat and of any program on a regular file
pub sys_read-Stands :
    (img : Image) (base : ℕ) (drivers : Drivers) (inode at n fd : ℕ) (buf : List ℕ) (p : Process)
    → Stands img base inode at fd p
    → let k = min n (file_length img inode - at) in
      sys_read img base drivers p (pos fd) buf n
      ≡ some (
        pos k,
        file_bytes img inode at k ++ drop k buf,
        record p { files = (read_file img base p.files fd n).1 },
      )
unfolding sys_read r_func
sys_read-Stands img base drivers inode at n fd buf p v =
    let reads = (read_file-IsOpen img base inode at n fd p.files v.open_at).0 in
    let long = length-file_bytes img inode at (min n (file_length img inode - at)) in
    rw
      (
        dispatch-table p.files fd p.place _ v.page v.small v.used v.table (λ e. ground (arith, e)),
        sys_read,
        r_func,
        reads,
        long,
      )
      refl

-- the write of a program on stdout: the terminal gets the bytes up to a NUL
pub sys_write-stdout :
    (img : Image) (base : ℕ) (drivers : Drivers) (n : ℕ) (buf : List ℕ) (p : Process)
    → outside_user p.place ≡ false
    → in_use (p.files 1) ≡ true
    → (p.files 1).fops_jmp_table ≡ terminal_table
    → sys_write img base drivers p (pos 1) buf (pos n)
      ≡ some (pos n, record p { shown = p.shown ++ c_string n buf })
unfolding sys_write w_func write_shown
sys_write-stdout img base drivers n buf p page used table =
    rw
      (
        dispatch-table p.files 1 p.place _ page (omega arith) used table (λ e. ground (arith, e)),
        sys_write,
        w_func,
      )
      refl

pub Stands-write :
    (img : Image) (base inode at fd : ℕ) (p : Process) (shown : List ℕ)
    → Stands img base inode at fd p
    → Stands img base inode at fd (record p { shown = shown })
Stands-write img base inode at fd p shown v = record {
  page = v.page;
  small = v.small;
  open_at = v.open_at;
  table = v.table;
  used = v.used;
  stdout = v.stdout;
  stdout_used = v.stdout_used;
}
