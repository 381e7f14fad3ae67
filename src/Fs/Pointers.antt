-- ===== src/Fs/Pointers.antt =====
-- get_inode_ptr and get_inode_num of student-distrib/filesystem.c, on 32-bit addresses. The inode
-- pointer of an open file is made by the one, and read_file recovers the inode by the other.
use snoop_diggity_d_os.Prelude.{
  ℕ, ◌+◌, ◌-◌, ◌*◌, ◌/◌, ◌%◌, ◌^◌, ◌<◌, ◌≡◌, ◌↔◌, ltb, if◌then◌else◌, arith,
}
use snoop_diggity_d_os.Fs.{Image, fs_block_length}

abbrev pub null : ℕ
null = 0

-- get_inode_ptr, with `base` the address in `inodes`. C scales the offset
-- `inode_idx*FS_BLOCK_LENGTH` by sizeof(inode_t), 4096, once more.
unfoldable pub get_inode_ptr : Image → ℕ → ℕ → ℕ
get_inode_ptr img base inode_idx =
    if ltb inode_idx img.inodes then (base + inode_idx * fs_block_length * 4096) % 2 ^ 32 else null

-- inode_ptr - inodes: the signed distance in bytes by sizeof(inode_t), as an unsigned word
unfoldable pub pointer_diff : ℕ → ℕ → ℕ
pointer_diff ptr base =
    let d = (ptr + 2 ^ 32 - base) % 2 ^ 32 in
    if ltb d (2 ^ 31) then d / 4096 else 2 ^ 32 - (2 ^ 32 - d) / 4096

-- get_inode_num
unfoldable pub get_inode_num : ℕ → ℕ → ℕ
unfolding pointer_diff
get_inode_num base inode_ptr = pointer_diff inode_ptr base / 4096

-- Wherever the inodes lie, an inode below 2 ^ 20 - 128 comes back from its pointer exactly when
-- it is below 128: past that the doubly scaled distance does not fit a signed word.
pub get_inode_num-get_inode_ptr :
    (img : Image) (base inode : ℕ)
    → base < 2 ^ 32
    → inode < img.inodes
    → inode < 2 ^ 20 - 128
    → (get_inode_num base (get_inode_ptr img base inode) ≡ inode) ↔ (inode < 128)
unfolding get_inode_num get_inode_ptr
get_inode_num-get_inode_ptr img base inode hb valid small = (there, back)
  where
    there : get_inode_num base (get_inode_ptr img base inode) ≡ inode → inode < 128
    there e = ground arith

    back : inode < 128 → get_inode_num base (get_inode_ptr img base inode) ≡ inode
    back h = ground arith
