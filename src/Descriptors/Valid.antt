-- ===== src/Descriptors/Valid.antt =====
-- The invariant of the fd_array of a process (student-distrib/syscalls.c), and its start.
use snoop_diggity_d_os.Prelude.{
  ℕ, ◌<◌, ◌≤◌, ◌≡◌, ◌≢◌, refl, true, ◌==◌, update, arith, Bool-cases, inl, inr,
}
use snoop_diggity_d_os.Fs.{ok}
use snoop_diggity_d_os.Descriptors.{
  Fops, no_table, rtc_table, terminal_table, directory_table, call_through, regular_file_table,
  FileInfo, in_use, execute_fds,
}

-- Whatever is in use has a table to call through; stdin and stdout are in use.
pub record IsValid (files : ℕ → FileInfo) : Type 0 where
  pub stdin : in_use (files 0) ≡ true
  pub stdout : in_use (files 1) ≡ true
  pub tables : (i : ℕ) → i < 8 → (files i).flags ≢ 0 → (files i).fops_jmp_table ≢ no_table

-- A process starts with stdin and stdout in use and every other descriptor free, whatever its
-- memory held.
pub execute_fds-IsValid :
    (files : ℕ → FileInfo)
    → IsValid (execute_fds files) × ((i : ℕ) → 1 < i → i < 8 → (execute_fds files i).flags ≡ 0)
unfolding execute_fds
execute_fds-IsValid files =
    (record { stdin = refl; stdout = refl; tables = λ i h f. ground arith }, λ i l h. ground arith)

pub call_through-ok :
    {A : Type 0}
    → (table : Fops) → (a r : A) → call_through table a ≡ ok r
    → (table ≢ no_table) × (a ≡ r)
call_through-ok no_table a r e = absurd (ground arith)
call_through-ok rtc_table a r e = (ground arith, ground arith)
call_through-ok terminal_table a r e = (ground arith, ground arith)
call_through-ok regular_file_table a r e = (ground arith, ground arith)
call_through-ok directory_table a r e = (ground arith, ground arith)

pub call_through-has_table :
    {A : Type 0} → (table : Fops) → (a : A) → table ≢ no_table → call_through table a ≡ ok a
call_through-has_table no_table a h = absurd (h refl)
call_through-has_table rtc_table a h = refl
call_through-has_table terminal_table a h = refl
call_through-has_table regular_file_table a h = refl
call_through-has_table directory_table a h = refl

-- one descriptor is replaced by one that has a table if it is in use
pub IsValid-update :
    (files : ℕ → FileInfo)
    → (i : ℕ) → (f : FileInfo) → 2 ≤ i
    → (f.flags ≢ 0 → f.fops_jmp_table ≢ no_table)
    → IsValid files
    → IsValid (update files i f)
IsValid-update files i f low h v = record {
  stdin = (let s = v.stdin in ground arith);
  stdout = (let s = v.stdout in ground arith);
  tables = λ j small flags. elim (Bool-cases (j == i)) [
    | inl e ↦ rw e (h (rw e at flags))
    | inr n ↦ rw n (v.tables j small (rw n at flags))
  ];
}
