-- ===== src/User/Ls/Shows.antt =====
-- main of syscalls/ece391ls.c, from the start of its process.
use snoop_diggity_d_os.Prelude.{ℕ, ◌+◌, ◌<◌, ◌≡◌, refl, List, ◌++◌, arith, length, update, false}
use snoop_diggity_d_os.Fs.{Image, Dentry, ok, read_dentry_by_name}
use snoop_diggity_d_os.Descriptors.{
  directory_table, FileInfo, outside_user, sys_open, open_entry, unused_fd, execute_fds,
}
use snoop_diggity_d_os.Fs.Pointers.{null}
use snoop_diggity_d_os.User.{literal, ls, exits}
use snoop_diggity_d_os.User.Kernel.{Drivers, Process, kernel, open_call}
use snoop_diggity_d_os.User.Listing.{listing, HasNames}
use snoop_diggity_d_os.User.Ls.{Stands, LsEnds, ls_loop-LsEnds}

-- the directory as open leaves it
abbrev opened : FileInfo
opened = record { fops_jmp_table = directory_table; inode = null; position = 0; flags = 1 }

-- a new process opens the directory at descriptor 2
sys_open-directory :
    (img : Image) (base place : ℕ) (files : ℕ → FileInfo) (entry : Dentry)
    → outside_user place ≡ false
    → read_dentry_by_name img (literal ".") ≡ ok entry
    → entry.filetype ≡ 1
    → sys_open img base (execute_fds files) place (literal ".")
      ≡ ok (record { fd = 2; files = update (execute_fds files) 2 opened; calls = directory_table })
unfolding sys_open open_entry unused_fd execute_fds
sys_open-directory img base place files entry page found directory =
    rw (page, found, open_entry, directory) refl

Stands-opened :
    (files : ℕ → FileInfo) (p : Process)
    → outside_user p.place ≡ false
    → p.files ≡ update (execute_fds files) 2 opened
    → Stands 0 p
unfolding execute_fds
Stands-opened files p page same = record {
  page = page;
  position = rw same refl;
  table = rw same refl;
  used = rw same refl;
  stdout = rw same refl;
  stdout_used = rw same refl;
}

-- ls in a process with the descriptors that execute makes, on a disk whose first entry named "." is
-- a directory, whose count is that of its entries, whose name fields have 32 bytes and none of whose
-- names is empty, comes to an end with status 0 after one round of its loop more than there are
-- entries, and the terminal has got every name of the disk in order, each on a line of its own, and
-- nothing else.
pub ls-shows :
    (img : Image) (base fuel : ℕ) (drivers : Drivers) (files : ℕ → FileInfo) (p : Process)
    (buf : List ℕ) (entry : Dentry)
    → p.files ≡ execute_fds files
    → outside_user p.place ≡ false
    → read_dentry_by_name img (literal ".") ≡ ok entry
    → entry.filetype ≡ 1
    → img.direntries ≡ length img.files
    → HasNames img.files
    → length buf ≡ 33
    → length img.files < fuel
    → (p' : Process) × (ls (kernel img base drivers) fuel p buf ≡ exits 0 p')
      × (p'.shown ≡ p.shown ++ listing img.files)
unfolding ls open_call LsEnds
ls-shows img base fuel drivers files p buf entry started page found directory count names room
      enough =
    let opens = sys_open-directory img base p.place files entry page found directory in
    let p₁ = record p { files = update (execute_fds files) 2 opened } in
    let (p', ends, shows) =
      ls_loop-LsEnds img base drivers img.files 0 fuel buf p₁ (Stands-opened files p₁ page refl)
        (omega arith) (λ j. let same : 0 + j ≡ j = omega arith in rw same refl) names room enough in
    (p', rw (ls, open_call, started, opens, ends) refl, shows)
