-- ===== src/Paging/Isolation.antt =====
-- What a program reaches under the tables of student-distrib/paging.c: address translation of the
-- x86 with 4 KB and 4 MB pages, after setup_task_paging, the vidmap calls and
-- change_table_mapping.
use snoop_diggity_d_os.Prelude.{
  ℕ, ◌+◌, ◌*◌, ◌/◌, ◌%◌, ◌^◌, ◌<◌, ◌≡◌, refl, ◌∙◌, Bool, true, false, ◌==◌, ltb, if◌then◌else◌,
  bit_and, arith, Bool-cases, ◌||◌, ◌&&◌, inl, inr, not, Option, some, none, pos,
}
use snoop_diggity_d_os.Paging.{Table, setup_task_paging}
use snoop_diggity_d_os.Paging.Entry.{entry_of, entry_of_lem, and_flags}
use snoop_diggity_d_os.Paging.Setup.{task_directory_at, shared_entry}
use snoop_diggity_d_os.Pids.{block_address_for_process}

-- An entry lets an access through: it is present, and for a user's access has the user bit.
abbrev pub allows : Bool → ℕ → Bool
allows user entry = bit_and entry 1 == 1 && (not user || bit_and entry 4 == 4)

-- The physical address of `v`, by the directory `pd` and the page table `pt` at `pt_address`.
unfoldable pub translate : Bool → ℕ → Table → Table → ℕ → Option ℕ
translate user pt_address pd pt v =
    if not (allows user (pd (v / 2 ^ 22)))
    then none
    else if bit_and (pd (v / 2 ^ 22)) 0x80 == 0x80
    then some (pd (v / 2 ^ 22) / 2 ^ 22 * 2 ^ 22 + v % 2 ^ 22)
    else if pd (v / 2 ^ 22) / 2 ^ 12 * 2 ^ 12 == pt_address && allows user (pt (v / 2 ^ 12 % 1024))
    then some (pt (v / 2 ^ 12 % 1024) / 2 ^ 12 * 2 ^ 12 + v % 2 ^ 12)
    else none

-- Of an entry of an aligned address, the flags decide.
pub allows-entry_of :
    (user : Bool) (q b : ℕ)
    → q < 2 ^ 20
    → b < 4096
    → allows user (entry_of (q * 4096) b) ≡ allows user b
allows-entry_of user q b hq hb =
    rw (entry_of_lem q b hq hb, and_flags q b 1 hb (omega arith), and_flags q b 4 hb (omega arith))

large-entry_of :
    (q b : ℕ) → q < 2 ^ 20 → b < 4096 → bit_and (entry_of (q * 4096) b) 0x80 ≡ bit_and b 0x80
large-entry_of q b hq hb = rw (entry_of_lem q b hq hb) (and_flags q b 0x80 hb (omega arith))

-- A 4 MB page's address is a multiple of 4 KB.
pub scale : (i : ℕ) → i * 0x400000 ≡ i * 1024 * 4096
scale i = omega arith

pub not_user :
    (q b : ℕ)
    → q < 2 ^ 20
    → b < 4096
    → allows true b ≡ false
    → allows true (entry_of (q * 4096) b) ≡ false
not_user q b hq hb e = allows-entry_of true q b hq hb ∙ e

pub shared_not_user :
    (a i : ℕ) → a < 2 ^ 20 → i < 1024 → allows true (shared_entry (a * 4096) i) ≡ false
shared_not_user a i ha hi = elim (Bool-cases (i == 0)) [
  | inl z ↦ rw z (not_user a 3 ha (omega arith) refl)
  | inr nz ↦ elim (Bool-cases (i == 1)) [
    | inl one ↦ rw (nz, one) refl
    | inr more ↦ elim (Bool-cases (ltb i 8)) [
      | inl low ↦
          rw (nz, more, low, scale i) (not_user (i * 1024) 0x83 (omega arith) (omega arith) refl)
      | inr high ↦
          rw (nz, more, high, scale i) (not_user (i * 1024) 2 (omega arith) (omega arith) refl)
    ]
  ]
]

-- After setup_task_paging, with a page table on a 4 KB boundary and a block on a 4 MB boundary,
-- a user program reaches by 32-bit addresses exactly the 4 MB from 128 MB on, and these are
-- mapped to the block that it was given.
pub setup_task_paging-user :
    (a q : ℕ) (pd pt : Table) (v : ℕ)
    → a < 2 ^ 20
    → q < 1024
    → v < 2 ^ 32
    → let tables = setup_task_paging (a * 4096) pd pt (q * 0x400000) in
      translate true (a * 4096) tables.0 tables.1 v
      ≡ (if v / 2 ^ 22 == 32 then some (q * 0x400000 + v % 2 ^ 22) else none)
unfolding translate
setup_task_paging-user a q pd pt v ha hq hv =
    let at = task_directory_at (a * 4096) pd pt (q * 0x400000) (v / 2 ^ 22) (omega arith) in
    elim (Bool-cases (v / 2 ^ 22 == 32)) [
      | inl here ↦
          let entry : (setup_task_paging (a * 4096) pd pt (q * 0x400000)).0 (v / 2 ^ 22)
              ≡ q * 1024 * 4096 + 0x87 =
            rw (at, here, scale q) (entry_of_lem (q * 1024) 0x87 (omega arith) (omega arith)) in
          let frame : (q * 1024 * 4096 + 0x87) / 2 ^ 22 * 2 ^ 22 ≡ q * 0x400000 = omega arith in
          rw (
            entry,
            here,
            and_flags (q * 1024) 0x87 1 (omega arith) (omega arith),
            and_flags (q * 1024) 0x87 4 (omega arith) (omega arith),
            and_flags (q * 1024) 0x87 0x80 (omega arith) (omega arith),
            frame,
          )
      | inr elsewhere ↦
          let shut : allows true
                ((setup_task_paging (a * 4096) pd pt (q * 0x400000)).0 (v / 2 ^ 22))
              ≡ false =
            rw (at, elsewhere) (shared_not_user a (v / 2 ^ 22) ha (omega arith)) in
          rw (shut, elsewhere)
    ]

-- Two programs whose page tables lie on 4 KB boundaries, with the tables that internal_execute
-- sets up for their valid pids, reach no common byte of memory by 32-bit addresses, and one
-- program reaches no byte at two addresses.
pub task_isolation :
    (a b i j v w p : ℕ) (pd pd' pt pt' : Table)
    → a < 2 ^ 20
    → b < 2 ^ 20
    → i < 6
    → j < 6
    → v < 2 ^ 32
    → w < 2 ^ 32
    → (let t = setup_task_paging (a * 4096) pd pt (block_address_for_process (pos i)) in
        translate true (a * 4096) t.0 t.1 v)
      ≡ some p
    → (let t = setup_task_paging (b * 4096) pd' pt' (block_address_for_process (pos j)) in
        translate true (b * 4096) t.0 t.1 w)
      ≡ some p
    → (i ≡ j) × (v ≡ w)
unfolding block_address_for_process
task_isolation a b i j v w p pd pd' pt pt' ha hb hi hj hv hw at_v at_w =
    let bi : block_address_for_process (pos i) ≡ (i + 2) * 0x400000 = ground arith in
    let bj : block_address_for_process (pos j) ≡ (j + 2) * 0x400000 = ground arith in
    ground (
      arith,
      rw (bi, setup_task_paging-user a (i + 2) pd pt v ha (omega arith) hv) at at_v,
      rw (bj, setup_task_paging-user b (j + 2) pd' pt' w hb (omega arith) hw) at at_w,
    )
