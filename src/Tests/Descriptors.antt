-- ===== src/Tests/Descriptors.antt =====
-- A process that opens, reads and closes a file.
use snoop_diggity_d_os.Prelude.{
  ℕ, ◌%◌, ◌≡◌, refl, List, [], ◌∷◌, ◌==◌, if◌then◌else◌, arith, pos, replicate,
}
use snoop_diggity_d_os.Fs.{Dentry, Image, ok, bad_block, read_dentry_by_name, find_dentry}
use snoop_diggity_d_os.Fs.Blocks.{HasBlocks}
use snoop_diggity_d_os.Fs.Pointers.{get_inode_ptr}
use snoop_diggity_d_os.Strings.{strncmp, char_diff}
use snoop_diggity_d_os.Descriptors.{
  FileInfo, closed_file, execute_fds, clear_fd_array, sys_open, open_entry, unused_fd, Opened,
  close, regular_file_table,
}
use snoop_diggity_d_os.Descriptors.Valid.{execute_fds-IsValid}
use snoop_diggity_d_os.Descriptors.Open.{Opens, sys_open-Opens}
use snoop_diggity_d_os.Descriptors.Close.{Closes, close-Closes}
use snoop_diggity_d_os.Descriptors.Reads.{IsOpen, read_sizes, read_file-sizes}

abbrev entry : Dentry
entry = record { filename = 97 ∷ replicate 31 0; filetype = 2; inode = 1; reserved = [] }

abbrev disk : Image
disk = record {
  direntries = 1;
  inodes = 3;
  datablocks = 8;
  files = entry ∷ [];
  words = λ i. if i == 1024 then 5 else if i == 1025 then 2 else 0;
  bytes = λ i. i % 256;
}

abbrev start : ℕ → FileInfo
start = execute_fds (λ _. closed_file)

-- The command line's name, in the program's memory.
abbrev typed_name : List ℕ
typed_name = 97 ∷ 0 ∷ []

abbrev opened : Opened
opened = record {
  fd = 2;
  files = λ i.
      if i == 2
      then record {
        fops_jmp_table = regular_file_table;
        inode = 0x1500000;
        position = 0;
        flags = 1;
      }
      else start i;
  calls = regular_file_table;
}

opens : sys_open disk 0x500000 start 0x08001000 typed_name ≡ ok opened
unfolding sys_open open_entry unused_fd read_dentry_by_name find_dentry strncmp char_diff
    execute_fds clear_fd_array get_inode_ptr
opens = refl

sys_open-Opens_example : Opens start opened
sys_open-Opens_example = sys_open-Opens disk 0x500000 start 0x08001000 typed_name opened opens

close-Closes_example : Closes opened.files (pos 2) (close opened.files (pos 2))
close-Closes_example = close-Closes opened.files (pos 2) (
    (sys_open-Opens disk 0x500000 start 0x08001000 typed_name opened opens).valid
      (execute_fds-IsValid (λ _. closed_file)).0)

blocks : HasBlocks disk 1 5
unfolding bad_block
blocks k h = let z : k ≡ 0 = omega arith in rw z refl

reading : IsOpen disk 0x500000 1 0 (opened.files 2)
unfolding get_inode_ptr bad_block
reading = record {
  address = omega arith;
  valid = omega arith;
  small = omega arith;
  sized = omega arith;
  blocks = blocks;
  start = refl;
  pointer = refl;
  place = refl;
  inside = omega arith;
}

-- reads of 2, 2 and 9 bytes
read_file-sizes_example :
    read_sizes disk 0x500000 opened.files 2 (2 ∷ 2 ∷ 9 ∷ []) ≡ 0 ∷ 1 ∷ 2 ∷ 3 ∷ 4 ∷ []
read_file-sizes_example = read_file-sizes disk 0x500000 1 0 2 opened.files (2 ∷ 2 ∷ 9 ∷ []) reading
