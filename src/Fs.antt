-- ===== src/Fs.antt =====
-- student-distrib/filesystem.c: the read-only file system image and the functions on it.
-- The image is what `init_filesystem` points `bootblock`, `inodes` and `datablocks` at. The inode
-- and data areas are memory addressed from their first byte, so an index past an inode's table
-- reads what the C code reads there. The `int` counters of read_data are numbers: they stay at or
-- below the length of the file, and an inode has room for 1023 blocks of 4096 bytes.
pub mod Lookup
pub mod Blocks
pub mod Data
pub mod Pointers
use snoop_diggity_d_os.Prelude.{
  ℕ, zero, suc, ◌+◌, ◌-◌, ◌*◌, ◌/◌, ◌%◌, ◌^◌, List, [], ◌∷◌, ◌++◌, Option, none, some, Bool, true,
  false, ◌&&◌, ◌||◌, not, ℤ, pos, negsuc, failure, success, signed32, ◌==◌, ltb, leb, if◌then◌else◌,
  length,
}
use snoop_diggity_d_os.Strings.{strncmp}

-- dentry_t
pub record Dentry : Type 0 where
  pub filename : List ℕ
  pub filetype : ℕ
  pub inode : ℕ
  pub reserved : List ℕ

-- boot_block_t with the two areas behind it: `words` is the inode area in 32-bit words, `bytes` the
-- data area in bytes.
pub record Image : Type 0 where
  pub direntries : ℕ
  pub inodes : ℕ
  pub datablocks : ℕ
  pub files : List Dentry
  pub words : ℕ → ℕ
  pub bytes : ℕ → ℕ

-- The result of a call: SUCCESS with what it copies out, FAILURE, or an access out of bounds.
pub data Outcome {ℓ} (A : Type ℓ) : Type ℓ where
  ok : A → Outcome A
  fails : Outcome A
  fault : Outcome A

abbrev pub file_name_size : ℕ
file_name_size = 32

abbrev pub fs_block_length : ℕ
fs_block_length = 4096

abbrev is_zero : ℤ → Bool
is_zero (pos zero) = true
is_zero _ = false

-- the loop of read_dentry_by_name over the entries from `i` on, `n` rounds before the end
unfoldable pub find_dentry : ℕ → List Dentry → List ℕ → Outcome Dentry
find_dentry zero files fname = fails
find_dentry (suc n) [] fname = fault
find_dentry (suc n) (entry ∷ files) fname =
    let rest = find_dentry n files fname in
    elim (strncmp fname entry.filename file_name_size) [
      | none ↦ fault
      | some r ↦ if is_zero r then ok entry else rest
    ]

-- read_dentry_by_name; `num_files` is an `int`
unfoldable pub read_dentry_by_name : Image → List ℕ → Outcome Dentry
read_dentry_by_name img fname =
    find_dentry (if ltb img.direntries (2 ^ 31) then img.direntries else 0) img.files fname

-- the array access bootblock->files[index]
unfoldable pub dentry_at : List Dentry → ℕ → Outcome Dentry
dentry_at [] index = fault
dentry_at (entry ∷ files) zero = ok entry
dentry_at (entry ∷ files) (suc index) = dentry_at files index

-- read_dentry_by_index
unfoldable pub read_dentry_by_index : Image → ℕ → Outcome Dentry
read_dentry_by_index img index =
    if leb img.direntries index then fails else dentry_at img.files index

-- inodes[inode].length and inodes[inode].block_numbers[idx]
abbrev pub file_length : Image → ℕ → ℕ
file_length img inode = img.words (inode * 1024)

abbrev pub block_number : Image → ℕ → ℕ → ℕ
block_number img inode idx = img.words (inode * 1024 + 1 + idx)

-- block_num < 0 || block_num >= bootblock->datablocks, with `block_num` an `int`
unfoldable pub bad_block : Image → ℕ → Bool
bad_block img block_num = leb (2 ^ 31) block_num || leb img.datablocks block_num

-- where the first loop of read_data stands: the index in the data block, the block's number and
-- its index in the inode
pub record Cursor : Type 0 where
  pub at : ℕ
  pub block_num : ℕ
  pub idx : ℕ

-- `if (at && at % FS_BLOCK_LENGTH == 0)`: the step to the next block, that both loops begin with
unfoldable pub next_block : Image → ℕ → Bool → Cursor → Option Cursor
next_block img inode ended c =
    if ended
    then if bad_block img (block_number img inode (c.idx + 1))
      then none
      else some (record { at = 0; block_num = block_number img inode (c.idx + 1); idx = c.idx + 1 })
    else some c

abbrev at_block_end : ℕ → Bool
at_block_end i = not (i == 0) && i % fs_block_length == 0

-- `while (i != offset)`, with `rounds` = offset - i
unfoldable pub seek : Image → ℕ → ℕ → ℕ → Cursor → Option Cursor
seek img inode zero i c = some c
seek img inode (suc rounds) i c = elim (next_block img inode (at_block_end i) c) [
  | none ↦ none
  | some c' ↦ seek img inode rounds (i + 1) (record c' { at = c'.at + 1 })
]

-- What read_data has written to `buf`, from its first byte on, and what it returns.
pub record ReadResult : Type 0 where
  pub written : List ℕ
  pub ret : ℤ

-- `while ((i < length) && (overall_byte_counter < inodes[inode].length))`, with `rounds` = length - i
-- and `counter` = overall_byte_counter
unfoldable pub copy_bytes : Image → ℕ → ℕ → ℕ → ℕ → Cursor → ReadResult
copy_bytes img inode zero i counter c = record { written = []; ret = pos i }
copy_bytes img inode (suc rounds) i counter c =
    if ltb counter (file_length img inode)
    then elim (next_block img inode (at_block_end c.at) c) [
      | none ↦ record { written = []; ret = failure }
      | some c' ↦
          let rest =
            copy_bytes img inode rounds (i + 1) (counter + 1) (record c' { at = c'.at + 1 }) in
          record rest {
            written = img.bytes (c'.block_num * fs_block_length + c'.at) ∷ rest.written;
          }
    ]
    else record { written = []; ret = pos i }

-- read_data
unfoldable pub read_data : Image → ℕ → ℕ → ℕ → ReadResult
read_data img inode offset len =
    if leb img.inodes inode
    then record { written = []; ret = failure }
    else if bad_block img (block_number img inode 0)
    then record { written = []; ret = failure }
    else if leb (file_length img inode) offset
    then record { written = []; ret = pos 0 }
    else elim (seek img inode offset 0
        (record { at = 0; block_num = block_number img inode 0; idx = 0 })) [
          | none ↦ record { written = []; ret = failure }
          | some c ↦ copy_bytes img inode len 0 offset c
        ]

-- get_file_length, with its `int32_t` result
unfoldable pub get_file_length : Image → Dentry → ℤ
get_file_length img entry =
    if leb img.inodes entry.inode then failure else signed32 (file_length img entry.inode)
