-- ===== src/Execute/Memory.antt =====
-- What a program that internal_execute of student-distrib/syscalls.c starts finds in its memory.
use snoop_diggity_d_os.Prelude.{
  ℕ, zero, suc, ◌+◌, ◌-◌, ◌*◌, ◌/◌, ◌%◌, ◌^◌, ◌<◌, min, ◌≡◌, ◌≢◌, refl, sym, ◌∙◌, ap, List, Option,
  none, some, Bool, true, false, ◌==◌, ◌&&◌, leb, ltb, if◌then◌else◌, arith, inl, inr, eq→==, pos,
  length, get_or,
}
use snoop_diggity_d_os.Fs.{Image, Dentry, ok, read_dentry_by_name, file_length}
use snoop_diggity_d_os.Fs.Blocks.{HasBlocks, file_byte, file_bytes}
use snoop_diggity_d_os.Fs.Data.{read_data_lem, read_data-fits}
use snoop_diggity_d_os.Pids.{block_address_for_process}
use snoop_diggity_d_os.Pids.Set.{get_available_pid-IsLowestFree}
use snoop_diggity_d_os.Paging.Isolation.{translate, setup_task_paging-user}
use snoop_diggity_d_os.Execute.Start.{Program, guarded, guarded_same, internal_execute-EndsAs}
use snoop_diggity_d_os.Execute.{
  System, Unset, UserContext, Executed, refused, started, faults, word_of, child_system,
  user_context, start_process, internal_execute,
}

-- The byte that a program reads at a user address, none where it has no access.
abbrev pub user_byte : Unset → System → ℕ → ℕ → Option ℕ
user_byte unset s pid v =
    elim (translate true (unset.table_address pid) (s.directories pid) (s.tables pid) v) [
      | none ↦ none
      | some p ↦ some (s.memory p)
    ]

file_bytes-get :
    (img : Image) (inode p n k : ℕ)
    → k < n
    → get_or (file_bytes img inode p n) k 0 ≡ file_byte img inode (p + k)
file_bytes-get img inode p zero k h = absurd (omega arith)
file_bytes-get img inode p (suc n) zero h = (let e : p + 0 ≡ p = omega arith in rw e refl)
file_bytes-get img inode p (suc n) (suc k) h =
    let e : p + suc k ≡ p + 1 + k = omega arith in
    rw e (file_bytes-get img inode (p + 1) n k (omega arith))

length-file_bytes : (img : Image) (inode p n : ℕ) → length (file_bytes img inode p n) ≡ n
length-file_bytes img inode p zero = refl
length-file_bytes img inode p (suc n) = ap suc (length-file_bytes img inode (p + 1) n)

user_byte_at :
    (unset : Unset) (s : System) (pid v p : ℕ)
    → translate true (unset.table_address pid) (s.directories pid) (s.tables pid) v ≡ some p
    → user_byte unset s pid v ≡ some (s.memory p)
user_byte_at unset s pid v p e = rw (user_byte, e) refl

module _ (unset : Unset) (s : System) (interrupts : Bool) (entry : Dentry) (args : Option (List ℕ))
    (flags pid a : ℕ) (img : Image) (same : s.image ≡ img)
    (aligned : unset.table_address pid ≡ a * 4096) (small : a < 2 ^ 20) (low : pid < 6)
    (valid : entry.inode < img.inodes)
    (good : HasBlocks img entry.inode (file_length img entry.inode)) where
  child_translate :
      (v : ℕ)
      → v < 2 ^ 32
      → let s' = child_system unset s interrupts entry args flags pid in
        translate true (unset.table_address pid) (s'.directories pid) (s'.tables pid) v
        ≡ (if v / 2 ^ 22 == 32 then some ((pid + 2) * 0x400000 + v % 2 ^ 22) else none)
  unfolding child_system block_address_for_process
  child_translate v hv =
      let block : block_address_for_process (pos pid) ≡ (pid + 2) * 0x400000 = ground arith in
      rw (eq→== pid pid refl, aligned, block)
        (setup_task_paging-user a (pid + 2) (s.directories pid) (s.tables pid) v small (omega arith)
          hv)

  child_byte :
      (k : ℕ)
      → k < file_length img entry.inode
      → k < 0x400000 - 0x48000
      → (child_system unset s interrupts entry args flags pid).memory
          (0x800000 + 0x400000 * pid + 0x48000 + k)
        ≡ file_byte img entry.inode k
  unfolding child_system block_address_for_process
  child_byte k inside fits =
      let n = min (0x400000 - 0x48000) (file_length img entry.inode - 0) in
      let loaded = read_data_lem img entry.inode 0 (0x400000 - 0x48000) valid good (omega arith) in
      let start : block_address_for_process (pos pid) ≡ 0x800000 + 0x400000 * pid = ground arith in
      let count = length-file_bytes img entry.inode 0 n in
      let index : 0x800000 + 0x400000 * pid + 0x48000 + k - (0x800000 + 0x400000 * pid + 0x48000)
          ≡ k =
        omega arith in
      let read = file_bytes-get img entry.inode 0 n k (omega arith) in
      let range : (leb (0x800000 + 0x400000 * pid + 0x48000)
              (0x800000 + 0x400000 * pid + 0x48000 + k)
            && ltb (0x800000 + 0x400000 * pid + 0x48000 + k)
                (0x800000 + 0x400000 * pid + 0x48000 + n))
          ≡ true =
        ground arith in
      let from_start : 0 + k ≡ k = omega arith in
      rw (same, loaded, start, count, index, read, range, from_start) refl

  -- The program finds its file in its memory, from 0x08048000 on, as far as it fits below 0x08400000.
  pub child_image :
      (k : ℕ)
      → k < file_length img entry.inode
      → k < 0x400000 - 0x48000
      → user_byte unset (child_system unset s interrupts entry args flags pid) pid (0x08048000 + k)
        ≡ some (file_byte img entry.inode k)
  child_image k inside fits =
      let page : ((0x08048000 + k) / 2 ^ 22 == 32) ≡ true = ground arith in
      let at : (pid + 2) * 0x400000 + (0x08048000 + k) % 2 ^ 22
          ≡ 0x800000 + 0x400000 * pid + 0x48000 + k =
        omega arith in
      let here = child_translate (0x08048000 + k) (omega arith) ∙ rw (page, at) refl in
      user_byte_at unset (child_system unset s interrupts entry args flags pid) pid (0x08048000 + k)
        _ here
      ∙ ap some (child_byte k inside fits)

-- Outside the block of the new process memory is as before, and so are the page directories and
-- page tables of the other processes.
pub child_elsewhere :
    (unset : Unset) (s : System) (interrupts : Bool) (entry : Dentry) (args : Option (List ℕ))
    (flags pid : ℕ)
    → pid < 6
    → let s' = child_system unset s interrupts entry args flags pid in
      ((p : ℕ) → p / 0x400000 ≢ pid + 2 → s'.memory p ≡ s.memory p)
      × ((i : ℕ) → i ≢ pid → (s'.directories i ≡ s.directories i) × (s'.tables i ≡ s.tables i))
unfolding child_system block_address_for_process
child_elsewhere unset s interrupts entry args flags pid low =
    let (fits, _) = read_data-fits s.image entry.inode 0 (0x400000 - 0x48000) in
    let start : block_address_for_process (pos pid) ≡ 0x800000 + 0x400000 * pid = ground arith in
    (
      λ p far. rw start (ground arith),
      λ i ne. (let other : (i == pid) ≡ false = ground arith in rw other (refl, refl)),
    )

state_of : System → Executed → System
state_of s (refused s') = s
state_of s (started s' user) = s'
state_of s faults = s

eip_of : Executed → ℕ
eip_of (refused s) = 0
eip_of (started s user) = user.eip
eip_of faults = 0

is_started : Executed → Bool
is_started (refused s) = false
is_started (started s user) = true
is_started faults = false

pub started_as :
    (unset : Unset) (s s' : System) (command : List ℕ) (flags : ℕ) (user : UserContext)
    → internal_execute unset s command flags ≡ started s' user
    → (p : Program unset s command) × (s'
        ≡ child_system unset (guarded s) s.interrupts p.entry p.split.argstring flags p.pid)
      × (user.eip ≡ (user_context unset (guarded s).image p.entry).eip)
unfolding start_process state_of eip_of is_started
started_as unset s s' command flags user run =
    elim (internal_execute-EndsAs unset s command flags) [
      | inl (why, refused_it) ↦
          absurd (let e : true ≡ false = ap is_started (sym run ∙ refused_it) in ground arith)
      | inr (inl lost) ↦
          absurd (let e : true ≡ false = ap is_started (sym run ∙ lost) in ground arith)
      | inr (inr (p, e)) ↦ (p, ap (state_of s) (sym run ∙ e), ap eip_of (sym run ∙ e))
    ]

entry_point :
    (unset : Unset) (img : Image) (entry : Dentry)
    → entry.inode < img.inodes
    → HasBlocks img entry.inode (file_length img entry.inode)
    → 27 < file_length img entry.inode
    → (user_context unset img entry).eip ≡ word_of (file_bytes img entry.inode 24 4)
unfolding user_context
entry_point unset img entry valid good long =
    let count : min 4 (file_length img entry.inode - 24) ≡ 4 = omega arith in
    let loaded = read_data_lem img entry.inode 24 4 valid good (omega arith) in
    rw (loaded, count) refl

-- When internal_execute starts a program, with page tables on 4 KB boundaries, a word of six pids, and
-- every regular file of the directory with a valid inode and valid blocks: the program finds its
-- file in its memory from 0x08048000 on, as far as it fits its 4 MB; it starts at the address in bytes 24 to 27 of
-- the file if the file has them; and outside the block of its pid memory, and the page directories and
-- tables of other pids, are as they were.
pub internal_execute-user_byte :
    (unset : Unset) (s s' : System) (command : List ℕ) (flags : ℕ) (user : UserContext)
    → ((i : ℕ) → i < 6 → (a : ℕ) × (unset.table_address i ≡ a * 4096) × (a < 2 ^ 20))
    → ((name : List ℕ) (entry : Dentry)
        → read_dentry_by_name s.image name ≡ ok entry
        → entry.filetype ≡ 2
        → (entry.inode < s.image.inodes)
          × HasBlocks s.image entry.inode (file_length s.image entry.inode))
    → s.pid_avail < 64
    → internal_execute unset s command flags ≡ started s' user
    → (p : Program unset s command) × ((k : ℕ)
        → k < file_length s.image p.entry.inode
        → k < 0x400000 - 0x48000
        → user_byte unset s' p.pid (0x08048000 + k) ≡ some (file_byte s.image p.entry.inode k))
      × (27 < file_length s.image p.entry.inode
          → user.eip ≡ word_of (file_bytes s.image p.entry.inode 24 4))
      × ((a : ℕ) → a / 0x400000 ≢ p.pid + 2 → s'.memory a ≡ s.memory a)
      × ((i : ℕ) → i ≢ p.pid → (s'.directories i ≡ s.directories i) × (s'.tables i ≡ s.tables i))
internal_execute-user_byte unset s s' command flags user aligned sound six run =
    let (p, state, eip) = started_as unset s s' command flags user run in
    let (image, word, memory, directories, tables) = guarded_same s in
    let (low, _, _) = rw p.available at (get_available_pid-IsLowestFree s.pid_avail six) in
    let (a, at, small) = aligned p.pid low in
    let (valid, good) = sound p.split.commandstring p.entry p.found p.regular in
    let (kept, others) =
      child_elsewhere unset (guarded s) s.interrupts p.entry p.split.argstring flags p.pid low in
    (
      p,
      λ k inside fits. rw state (
          child_image unset (guarded s) s.interrupts p.entry p.split.argstring flags p.pid a s.image
            image at small low valid good k inside fits),
      λ long. eip ∙ rw image (entry_point unset s.image p.entry valid good long),
      λ b far. rw (state, kept b far, memory) refl,
      λ i ne. rw (state, (others i ne).0, (others i ne).1, directories, tables) (refl, refl),
    )
