-- ===== src/User/Cat/Shows.antt =====
-- main of syscalls/ece391cat.c, from the start of its process.
use snoop_diggity_d_os.Prelude.{
  ℕ, suc, ◌-◌, ◌*◌, ◌<◌, ◌≤◌, ◌^◌, ◌≡◌, refl, ap, ◌∙◌, List, ◌++◌, pos, arith, update, false,
}
use snoop_diggity_d_os.Fs.{
  Image, Dentry, ok, file_length, bad_block, block_number, read_dentry_by_name,
}
use snoop_diggity_d_os.Fs.Blocks.{file_bytes, HasBlocks}
use snoop_diggity_d_os.Descriptors.{
  regular_file_table, FileInfo, outside_user, execute_fds, getargs, unused_fd, open_entry, sys_open,
}
use snoop_diggity_d_os.Fs.Pointers.{get_inode_ptr}
use snoop_diggity_d_os.User.{exits, cat, cat_file}
use snoop_diggity_d_os.User.Kernel.{Drivers, Process, kernel, open_call, getargs_call}
use snoop_diggity_d_os.User.Access.{IsText, Stands}
use snoop_diggity_d_os.User.Cat.{CatEnds, cat_loop-CatEnds}

-- A regular file with a pointer that finds it back, and valid blocks.
pub record IsRegular (img : Image) (base : ℕ) (entry : Dentry) : Type 0 where
  pub filetype : entry.filetype ≡ 2
  pub address : base < 2 ^ 32
  pub valid : entry.inode < img.inodes
  pub small : entry.inode < 128
  pub sized : file_length img entry.inode < 2 ^ 32
  pub blocks : HasBlocks img entry.inode (file_length img entry.inode)
  pub start : bad_block img (block_number img entry.inode 0) ≡ false

-- the file that open makes of an entry
abbrev opened : Image → ℕ → Dentry → FileInfo
opened img base entry = record {
  fops_jmp_table = regular_file_table;
  inode = get_inode_ptr img base entry.inode;
  position = 0;
  flags = 1;
}

-- a new process opens a regular file at descriptor 2
sys_open-execute_fds :
    (img : Image)
    → (base place : ℕ) → (files : ℕ → FileInfo) → (name : List ℕ) → (entry : Dentry)
    → outside_user place ≡ false
    → read_dentry_by_name img name ≡ ok entry
    → entry.filetype ≡ 2
    → sys_open img base (execute_fds files) place name
      ≡ ok (record {
        fd = 2;
        files = update (execute_fds files) 2 (opened img base entry);
        calls = regular_file_table;
      })
unfolding sys_open open_entry unused_fd execute_fds
sys_open-execute_fds img base place files name entry page found regular =
    rw (page, found, open_entry, regular) refl

Stands-opened :
    (img : Image)
    → (base : ℕ) → (files : ℕ → FileInfo) → (entry : Dentry) → (p : Process)
    → IsRegular img base entry
    → outside_user p.place ≡ false
    → p.files ≡ update (execute_fds files) 2 (opened img base entry)
    → Stands img base entry.inode 0 2 p
unfolding execute_fds
Stands-opened img base files entry p r page same = record {
  page = page;
  small = omega arith;
  open_at = record {
    address = r.address;
    valid = r.valid;
    small = r.small;
    sized = r.sized;
    blocks = r.blocks;
    start = r.start;
    pointer = rw same refl;
    place = rw same refl;
    inside = omega arith;
  };
  table = rw same refl;
  used = rw same refl;
  stdout = rw same refl;
  stdout_used = rw same refl;
}

-- cat in a process with the descriptors that execute makes, whose argument names a regular file with
-- valid blocks, an inode below 128 and no NUL in it, comes to an end with status 0, after one round
-- of its loop more than the file has parts of 1024 bytes, and the terminal has got the whole file,
-- byte by byte, and nothing else.
pub cat-shows :
    (img : Image) (base rounds : ℕ) (drivers : Drivers) (files : ℕ → FileInfo) (p : Process)
    (buf name : List ℕ) (entry : Dentry)
    → p.files ≡ execute_fds files
    → outside_user p.place ≡ false
    → getargs p.args p.place buf (pos 1024) ≡ ok name
    → read_dentry_by_name img name ≡ ok entry
    → IsRegular img base entry
    → IsText img entry.inode
    → file_length img entry.inode ≤ 1024 * rounds
    → (p' : Process) × (cat (kernel img base drivers) (suc rounds) p buf ≡ exits 0 p')
      × (p'.shown ≡ p.shown ++ file_bytes img entry.inode 0 (file_length img entry.inode))
unfolding cat cat_file open_call getargs_call CatEnds
cat-shows img base rounds drivers files p buf name entry started page given found r text few =
    let opens = sys_open-execute_fds img base p.place files name entry page found r.filetype in
    let p₁ = record p { files = update (execute_fds files) 2 (opened img base entry) } in
    let (p', ends, shows) =
      cat_loop-CatEnds img base drivers entry.inode 0 rounds 2 name p₁
        (Stands-opened img base files entry p₁ r page refl) text (omega arith) in
    let all : file_length img entry.inode - 0 ≡ file_length img entry.inode = omega arith in
    (
      p',
      rw (given, cat, getargs_call, cat_file, open_call, started, opens, ends) refl,
      shows ∙ ap (λ n. p.shown ++ file_bytes img entry.inode 0 n) all,
    )
