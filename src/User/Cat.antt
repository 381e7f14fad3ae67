-- ===== src/User/Cat.antt =====
-- The loop of main in syscalls/ece391cat.c on the kernel's calls.
pub mod Shows
use mathlib.Core.List.{append-nil, append_assoc}
use snoop_diggity_d_os.Prelude.{
  ℕ, zero, suc, ◌+◌, ◌-◌, ◌*◌, ◌<◌, ◌≤◌, ◌^◌, min, ◌≡◌, ◌≢◌, refl, sym, ◌∙◌, ap, List, [], ◌∷◌,
  ◌++◌, Option, some, ℤ, pos, negsuc, lt→ltb, arith, Bool-cases, inl, inr, length, drop, update,
  true, false, ltb, leb, ◌==◌,
}
use snoop_diggity_d_os.Strings.{c_string}
use snoop_diggity_d_os.Fs.{
  Image, Dentry, ok, file_length, bad_block, block_number, read_data, ReadResult,
  read_dentry_by_name,
}
use snoop_diggity_d_os.Fs.Blocks.{file_byte, file_bytes, HasBlocks}
use snoop_diggity_d_os.Descriptors.{
  Fops, regular_file_table, terminal_table, FileInfo, in_use, outside_user, read_file, advance,
  no_table, dispatch, execute_fds, getargs, unused_fd, open_entry, sys_open,
}
use snoop_diggity_d_os.Fs.Pointers.{get_inode_ptr, get_inode_num}
use snoop_diggity_d_os.Descriptors.Valid.{call_through-has_table}
use snoop_diggity_d_os.Descriptors.Reads.{IsOpen, file_bytes-append, read_file-IsOpen}
use snoop_diggity_d_os.Descriptors.Listing.{c_string-append}
use snoop_diggity_d_os.User.{Ends, exits, cat, cat_file, cat_loop, cat_count, write_on}
use snoop_diggity_d_os.User.Kernel.{
  Drivers, Process, Answer, kernel, sys_read, sys_write, r_func, w_func, write_shown, open_call,
  getargs_call,
}
use snoop_diggity_d_os.User.Access.{
  IsText, Stands, c_string-read, Stands-read_file, sys_read-Stands, sys_write-stdout, Stands-write,
}

-- the process after a round of cat that shows `n` bytes
abbrev after_round : Image → ℕ → ℕ → ℕ → ℕ → ℕ → Process → Process
after_round img base inode at fd n p = record p {
  files = (read_file img base p.files fd 1024).1;
  shown = p.shown ++ file_bytes img inode at n;
}

cat_loop-ended :
    (img : Image) (base : ℕ) (drivers : Drivers) (inode at fuel fd : ℕ) (buf : List ℕ) (p : Process)
    → Stands img base inode at fd p
    → file_length img inode - at ≡ 0
    → cat_loop (kernel img base drivers) (suc fuel) p (pos fd) buf
      ≡ exits 0 (record p { files = (read_file img base p.files fd 1024).1 })
unfolding cat_loop cat_count
cat_loop-ended img base drivers inode at fuel fd buf p v ended =
    let reads = sys_read-Stands img base drivers inode at 1024 fd buf p v in
    let none_left : min 1024 (file_length img inode - at) ≡ 0 = omega arith in
    rw (reads, cat_loop, none_left, cat_count) refl

cat_loop-goes :
    (img : Image)
    → (base : ℕ) → (drivers : Drivers) → (inode at fuel fd m : ℕ) → (buf : List ℕ) → (p : Process)
    → Stands img base inode at fd p
    → IsText img inode
    → min 1024 (file_length img inode - at) ≡ suc m
    → cat_loop (kernel img base drivers) (suc fuel) p (pos fd) buf
      ≡ cat_loop
          (kernel img base drivers)
          fuel
          (after_round img base inode at fd (suc m) p)
          (pos fd)
          (file_bytes img inode at (suc m) ++ drop (suc m) buf)
unfolding cat_loop cat_count write_on
cat_loop-goes img base drivers inode at fuel fd m buf p v text some_left =
    let reads = sys_read-Stands img base drivers inode at 1024 fd buf p v in
    let v' = Stands-read_file img base inode at 1024 fd p v in
    let got = file_bytes img inode at (suc m) ++ drop (suc m) buf in
    let writes =
      sys_write-stdout img base drivers (suc m) got
        (record p { files = (read_file img base p.files fd 1024).1 }) v'.page v'.stdout_used
        v'.stdout in
    let shows = c_string-read img inode at (suc m) (drop (suc m) buf) text (omega arith) in
    rw (reads, cat_loop, some_left, cat_count, write_on, writes, shows) refl

-- cat shows the rest of the file and ends.
unfoldable pub CatEnds : Image → ℕ → Drivers → ℕ → ℕ → ℕ → ℕ → List ℕ → Process → Type 0
CatEnds img base drivers inode at fuel fd buf p =
    (p' : Process) × (cat_loop (kernel img base drivers) fuel p (pos fd) buf ≡ exits 0 p')
    × (p'.shown ≡ p.shown ++ file_bytes img inode at (file_length img inode - at))

cat_loop-now :
    (img : Image) (base : ℕ) (drivers : Drivers) (inode at fuel fd : ℕ) (buf : List ℕ) (p : Process)
    → Stands img base inode at fd p
    → file_length img inode - at ≡ 0
    → CatEnds img base drivers inode at (suc fuel) fd buf p
unfolding CatEnds
cat_loop-now img base drivers inode at fuel fd buf p v ended = (
  record p { files = (read_file img base p.files fd 1024).1 },
  cat_loop-ended img base drivers inode at fuel fd buf p v ended,
  rw ended (sym (append-nil p.shown)),
)

Stands-round :
    (img : Image) (base inode at fd m : ℕ) (p : Process)
    → Stands img base inode at fd p
    → min 1024 (file_length img inode - at) ≡ suc m
    → Stands img base inode (at + suc m) fd (after_round img base inode at fd (suc m) p)
Stands-round img base inode at fd m p v some_left =
    let v₁ = rw some_left at (Stands-read_file img base inode at 1024 fd p v) in
    Stands-write img base inode (at + suc m) fd _ _ v₁

cat_loop-round :
    (img : Image)
    → (base : ℕ) → (drivers : Drivers) → (inode at fuel fd m : ℕ) → (buf : List ℕ) → (p : Process)
    → Stands img base inode at fd p
    → IsText img inode
    → min 1024 (file_length img inode - at) ≡ suc m
    → CatEnds img base drivers inode
        (at + suc m)
        fuel
        fd
        (file_bytes img inode at (suc m) ++ drop (suc m) buf)
        (after_round img base inode at fd (suc m) p)
    → CatEnds img base drivers inode at (suc fuel) fd buf p
unfolding CatEnds
cat_loop-round img base drivers inode at fuel fd m buf p v text some_left (p', ends, shows) =
    let rest = file_length img inode - (at + suc m) in
    let whole : file_length img inode - at ≡ suc m + rest = omega arith in
    let bytes = file_bytes-append img inode at (at + suc m) (suc m) rest refl in
    (
      p',
      cat_loop-goes img base drivers inode at fuel fd m buf p v text some_left ∙ ends,
      rw (whole, bytes)
          (shows
            ∙ append_assoc p.shown (file_bytes img inode at (suc m))
                (file_bytes img inode (at + suc m) rest)),
    )

pub cat_loop-CatEnds :
    (img : Image)
    → (base : ℕ) → (drivers : Drivers) → (inode at rounds fd : ℕ) → (buf : List ℕ) → (p : Process)
    → Stands img base inode at fd p
    → IsText img inode
    → file_length img inode - at ≤ 1024 * rounds
    → CatEnds img base drivers inode at (suc rounds) fd buf p
cat_loop-CatEnds img base drivers inode at zero fd buf p v text few =
    cat_loop-now img base drivers inode at 0 fd buf p v (omega arith)
cat_loop-CatEnds img base drivers inode at (suc rounds) fd buf p v text few =
    let left = file_length img inode - at in
    elim (Bool-cases (ltb 0 left)) [
      | inr ended ↦
          cat_loop-now img base drivers inode at (suc rounds) fd buf p v (ground (arith, ended))
      | inl goes ↦
          (let m = min 1024 left - 1 in
            let some_left : min 1024 left ≡ suc m = ground (arith, goes) in
            cat_loop-round img base drivers inode at (suc rounds) fd m buf p v text some_left (
              cat_loop-CatEnds img base drivers inode (at + suc m) rounds fd _ _
                (Stands-round img base inode at fd m p v some_left) text (omega arith)))
    ]
