-- ===== src/Descriptors/Open.antt =====
-- open on the fd_array of a process (student-distrib/syscalls.c).
use mathlib.Core.Path.{subst}
use snoop_diggity_d_os.Prelude.{
  ℕ, zero, suc, ◌+◌, ◌<◌, ◌≤◌, ◌≡◌, ◌≢◌, List, true, false, ◌==◌, arith, Bool-cases, inl, inr,
}
use snoop_diggity_d_os.Fs.{Image, Dentry, Outcome, ok, fails, fault, read_dentry_by_name}
use snoop_diggity_d_os.Descriptors.{
  outside_user, FileInfo, in_use, Opened, open_entry, sys_open, unused_fd,
}
use snoop_diggity_d_os.Descriptors.Valid.{IsValid, call_through-ok, IsValid-update}

-- the search gives the lowest free descriptor, or the end
unused_fd_lem :
    (files : ℕ → FileInfo)
    → (rounds i : ℕ)
    → let fd = unused_fd files rounds i in
      (i ≤ fd)
      × (fd ≤ i + rounds)
      × (fd < i + rounds → in_use (files fd) ≡ false)
      × ((j : ℕ) → i ≤ j → j < fd → in_use (files j) ≡ true)
unfolding unused_fd
unused_fd_lem files zero i =
    (omega arith, omega arith, λ h. absurd (omega arith), λ j l h. absurd (omega arith))
unused_fd_lem files (suc rounds) i =
    let (low, high, free, used) = unused_fd_lem files rounds (i + 1) in
    (ground arith, ground arith, λ h. ground arith, λ j l h. ground (arith, used j))

-- What holds when open returns a descriptor.
pub record Opens (files : ℕ → FileInfo) (r : Opened) : Type 0 where
  pub low : 2 ≤ r.fd
  pub high : r.fd < 8
  pub unused : in_use (files r.fd) ≡ false
  pub lowest : (j : ℕ) → 2 ≤ j → j < r.fd → in_use (files j) ≡ true
  pub used : in_use (r.files r.fd) ≡ true
  pub start : (r.files r.fd).position ≡ 0
  pub table : (r.files r.fd).fops_jmp_table ≡ r.calls
  pub others : (j : ℕ) → j ≢ r.fd → r.files j ≡ files j
  pub valid : IsValid files → IsValid r.files

open_entry-Opens :
    (img : Image)
    → (base : ℕ) → (files : ℕ → FileInfo) → (entry : Dentry) → (r : Opened)
    → open_entry img base files entry (unused_fd files 6 2) ≡ ok r
    → Opens files r
unfolding open_entry
open_entry-Opens img base files entry r e = elim (Bool-cases (unused_fd files 6 2 == 8)) [
  | inl none_left ↦ absurd (let f = rw none_left at e in ground arith)
  | inr found ↦
      (let fd = unused_fd files 6 2 in
        let (low, high, free, used) = unused_fd_lem files 6 2 in
        let (has_table, same) = call_through-ok _ _ r (rw found at e) in
        subst (Opens files) same (record {
          low = low;
          high = ground arith;
          unused = free (ground arith);
          lowest = used;
          used = ground arith;
          start = ground arith;
          table = ground arith;
          others = λ j n. ground arith;
          valid = λ v. IsValid-update files fd _ low (λ _. has_table) v;
        }))
]

-- When open returns a descriptor, it is the lowest one from 2 to 7 that was not in use, it is in
-- use now at position 0 with the table whose open function was called, no other descriptor has
-- changed, and a valid array is left valid.
pub sys_open-Opens :
    (img : Image)
    → (base : ℕ) → (files : ℕ → FileInfo) → (filename : ℕ) → (name : List ℕ) → (r : Opened)
    → sys_open img base files filename name ≡ ok r
    → Opens files r
unfolding sys_open
sys_open-Opens img base files filename name r e = elim (Bool-cases (outside_user filename)) [
  | inl outside ↦ absurd (let f = rw outside at e in ground arith)
  | inr inside ↦ go (read_dentry_by_name img name) (rw inside at e)
]
  where
    go :
        (found : Outcome Dentry)
        → (elim found [
          | ok entry ↦ open_entry img base files entry (unused_fd files 6 2)
          | fails ↦ fails
          | fault ↦ fault
        ])
          ≡ ok r
        → Opens files r
    go (ok entry) h = open_entry-Opens img base files entry r h
    go fails h = absurd (ground arith)
    go fault h = absurd (ground arith)
