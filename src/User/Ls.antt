-- ===== src/User/Ls.antt =====
-- The loop of main in syscalls/ece391ls.c on the kernel's calls.
pub mod Shows
use mathlib.Core.List.{append_assoc, append-nil}
use snoop_diggity_d_os.Prelude.{
  ℕ, zero, suc, ◌+◌, ◌-◌, ◌<◌, ◌≤◌, ◌≡◌, ◌≢◌, refl, sym, ap, ◌∙◌, List, [], ◌∷◌, ◌++◌, some, pos,
  arith, Bool-cases, inl, inr, length, drop, update, set, replicate, true, false, leb, ◌==◌, le→leb,
  gt→leb, length-append, length-replicate, length-set,
}
use snoop_diggity_d_os.Strings.{c_string}
use snoop_diggity_d_os.Fs.{Image, Dentry, ok, dentry_at, read_dentry_by_name}
use snoop_diggity_d_os.Descriptors.{
  directory_table, terminal_table, FileInfo, in_use, outside_user, read_directory, sys_open,
  open_entry, unused_fd, execute_fds, no_table,
}
use snoop_diggity_d_os.Fs.Pointers.{null}
use snoop_diggity_d_os.Descriptors.Listing.{named, length-c_string, read_directory-named}
use snoop_diggity_d_os.User.{literal, ls, exits, ls_loop, ls_count, write_on}
use snoop_diggity_d_os.User.Kernel.{Drivers, Process, kernel, open_call, sys_read, r_func}
use snoop_diggity_d_os.User.Access.{dispatch-table, sys_write-stdout}
use snoop_diggity_d_os.User.Listing.{listing, HasNames, line-named, length-line}

-- Descriptor 2 of a process stands at an entry of the directory, and stdout is a terminal.
pub record Stands (at : ℕ) (p : Process) : Type 0 where
  pub page : outside_user p.place ≡ false
  pub position : (p.files 2).position ≡ at
  pub table : (p.files 2).fops_jmp_table ≡ directory_table
  pub used : in_use (p.files 2) ≡ true
  pub stdout : (p.files 1).fops_jmp_table ≡ terminal_table
  pub stdout_used : in_use (p.files 1) ≡ true

sys_read-ended :
    (img : Image) (base : ℕ) (drivers : Drivers) (at : ℕ) (buf : List ℕ) (p : Process)
    → Stands at p
    → leb img.direntries at ≡ true
    → sys_read img base drivers p (pos 2) buf 32 ≡ some (pos 0, buf, p)
unfolding sys_read r_func read_directory
sys_read-ended img base drivers at buf p v ended =
    let reads =
      dispatch-table p.files 2 p.place _ v.page (omega arith) v.used v.table
        (λ e. ground (arith, e)) in
    rw (reads, sys_read, r_func, v.position, ended, read_directory) refl

-- the process after the read of an entry
abbrev next_entry : Process → Process
next_entry p = record p {
  files = update p.files 2 (record (p.files 2) { position = (p.files 2).position + 1 });
}

sys_read-entry :
    (img : Image)
    → (base : ℕ) → (drivers : Drivers) → (at : ℕ) → (buf : List ℕ) → (p : Process)
    → (entry : Dentry) → Stands at p
    → leb img.direntries at ≡ false
    → 32 ≤ length buf
    → length entry.filename ≡ 32
    → dentry_at img.files at ≡ ok entry
    → sys_read img base drivers p (pos 2) buf 32
      ≡ some (pos (length (c_string 32 entry.filename)), named entry.filename buf, next_entry p)
unfolding sys_read r_func
sys_read-entry img base drivers at buf p entry v more room full found =
    let reads =
      dispatch-table p.files 2 p.place _ v.page (omega arith) v.used v.table
        (λ e. ground (arith, e)) in
    let here : dentry_at img.files (p.files 2).position ≡ ok entry = rw v.position found in
    let named = read_directory-named img p.files 2 buf entry room full here in
    rw (reads, sys_read, r_func, named, v.position, more) refl

-- the process after a round of ls
abbrev after_round : Dentry → Process → Process
after_round entry p = record (next_entry p) {
  shown = p.shown ++ (c_string 32 entry.filename ++ (b'\n' ∷ []));
}

Stands-round :
    (at : ℕ) (p : Process) (entry : Dentry) → Stands at p → Stands (at + 1) (after_round entry p)
Stands-round at p entry v = record {
  page = v.page;
  position = ap (λ n. n + 1) v.position;
  table = v.table;
  used = v.used;
  stdout = v.stdout;
  stdout_used = v.stdout_used;
}

ls_loop-goes :
    (img : Image) (base : ℕ) (drivers : Drivers) (at fuel m : ℕ) (buf : List ℕ) (p : Process)
    (entry : Dentry)
    → Stands at p
    → leb img.direntries at ≡ false
    → length buf ≡ 33
    → length entry.filename ≡ 32
    → length (c_string 32 entry.filename) ≡ suc m
    → dentry_at img.files at ≡ ok entry
    → ls_loop (kernel img base drivers) (suc fuel) p (pos 2) buf
      ≡ ls_loop
          (kernel img base drivers)
          fuel
          (after_round entry p)
          (pos 2)
          (set (named entry.filename buf) (suc m) b'\n')
unfolding ls_loop ls_count write_on
ls_loop-goes img base drivers at fuel m buf p entry v more room full some_name found =
    let reads = sys_read-entry img base drivers at buf p entry v more (omega arith) full found in
    let line = rw some_name at (line-named entry.filename buf room) in
    let got = set (named entry.filename buf) (suc m) b'\n' in
    let count : suc m + 1 ≡ suc (suc m) = omega arith in
    let writes = rw some_name at (
      sys_write-stdout img base drivers (suc (suc m)) got (next_entry p) v.page v.stdout_used
        v.stdout) in
    rw (reads, ls_loop, some_name, ls_count, write_on, count, writes, line) refl

-- ls shows these entries and ends.
unfoldable pub LsEnds : Image → ℕ → Drivers → List Dentry → ℕ → List ℕ → Process → Type 0
LsEnds img base drivers files fuel buf p =
    (p' : Process) × (ls_loop (kernel img base drivers) fuel p (pos 2) buf ≡ exits 0 p')
    × (p'.shown ≡ p.shown ++ listing files)

length-some : (xs : List ℕ) → xs ≢ [] → length xs ≡ suc (length xs - 1)
length-some [] h = absurd (h refl)
length-some (x ∷ xs) h = omega arith

-- the entry to come, and those behind it
dentry_at-next :
    (img : Image) (at : ℕ) (entry : Dentry) (files : List Dentry)
    → ((j : ℕ) → dentry_at img.files (at + j) ≡ dentry_at (entry ∷ files) j)
    → (dentry_at img.files at ≡ ok entry)
      × ((j : ℕ) → dentry_at img.files (at + 1 + j) ≡ dentry_at files j)
unfolding dentry_at
dentry_at-next img at entry files found = (
  (let here : at ≡ at + 0 = omega arith in rw here (found 0)),
  λ j. let step : at + 1 + j ≡ at + suc j = omega arith in rw step (found (suc j)),
)

pub ls_loop-LsEnds :
    (img : Image) (base : ℕ) (drivers : Drivers) (files : List Dentry) (at fuel : ℕ) (buf : List ℕ)
    (p : Process)
    → Stands at p
    → img.direntries ≡ at + length files
    → ((j : ℕ) → dentry_at img.files (at + j) ≡ dentry_at files j)
    → HasNames files
    → length buf ≡ 33
    → length files < fuel
    → LsEnds img base drivers files fuel buf p
unfolding LsEnds ls_loop ls_count
ls_loop-LsEnds img base drivers files at zero buf p v count found names room enough =
    absurd (omega arith)
ls_loop-LsEnds img base drivers [] at (suc fuel) buf p v count found names room enough =
    let reads =
      sys_read-ended img base drivers at buf p v (le→leb img.direntries at (omega arith)) in
    (p, rw (reads, ls_loop, ls_count) refl, sym (append-nil p.shown))
ls_loop-LsEnds img base drivers (entry ∷ files) at (suc fuel) buf p v count found names room
      enough =
    let (full, some_name, others) = names in
    let (here, behind) = dentry_at-next img at entry files found in
    let m = length (c_string 32 entry.filename) - 1 in
    let buf' = set (named entry.filename buf) (suc m) b'\n' in
    let (p', ends, shows) =
      ls_loop-LsEnds img base drivers files (at + 1) fuel buf' (after_round entry p)
        (Stands-round at p entry v) (omega arith) behind others
        (length-line entry.filename buf (suc m) room) (omega arith) in
    let goes =
      ls_loop-goes img base drivers at fuel m buf p entry v (gt→leb img.direntries at (omega arith))
        room full (length-some _ some_name) here in
    (
      p',
      goes ∙ ends,
      shows
          ∙ append_assoc p.shown _ _
          ∙ ap (λ l. p.shown ++ l) (append_assoc (c_string 32 entry.filename) _ _),
    )
