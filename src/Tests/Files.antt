-- ===== src/Tests/Files.antt =====
-- A disk of two files, and what the file system and the file descriptors make of it.
use snoop_diggity_d_os.Prelude.{
  ℕ, ◌<◌, zero, suc, ◌%◌, ◌≡◌, refl, sym, ap, ◌∙◌, List, [], ◌∷◌, Option, none, some, ◌==◌,
  if◌then◌else◌, arith, inl, inr, pos, failure, replicate,
}
use snoop_diggity_d_os.Fs.{
  Dentry, Image, ok, read_data, bad_block, block_number, read_dentry_by_name, read_dentry_by_index,
  dentry_at,
}
use snoop_diggity_d_os.Fs.Blocks.{HasBlocks}
use snoop_diggity_d_os.Fs.Data.{IsBlock, read_data_lem, read_data-bad_block}
use snoop_diggity_d_os.Fs.Lookup.{
  read_dentry_by_name-IsFirst, IsFirst, HasNames, HasName, HasUniqueNames,
}
use snoop_diggity_d_os.Strings.{c_string}
use snoop_diggity_d_os.Strings.Compare.{IsBytes}

abbrev name_a : List ℕ
name_a = 97 ∷ replicate 31 0

abbrev name_b : List ℕ
name_b = 98 ∷ replicate 31 0

abbrev file_a : Dentry
file_a = record { filename = name_a; filetype = 2; inode = 1; reserved = [] }

abbrev file_b : Dentry
file_b = record { filename = name_b; filetype = 2; inode = 2; reserved = [] }

-- Inode 1 has 5 bytes in block 2; inode 2 has 5000 bytes in blocks 3 and 99, which is not there.
abbrev disk : Image
disk = record {
  direntries = 2;
  inodes = 3;
  datablocks = 8;
  files = file_a ∷ file_b ∷ [];
  words = λ i.
      if i == 1024
      then 5
      else if i == 1025
      then 2
      else if i == 2048
      then 5000
      else if i == 2049
      then 3
      else if i == 2050
      then 99
      else 0;
  bytes = λ i. i % 256;
}

blocks_a : HasBlocks disk 1 5
unfolding bad_block
blocks_a k h = let z : k ≡ 0 = omega arith in rw z refl

read_data_lem_example : read_data disk 1 2 10 ≡ record { written = 2 ∷ 3 ∷ 4 ∷ []; ret = pos 3 }
read_data_lem_example = read_data_lem disk 1 2 10 (omega arith) blocks_a (omega arith)

blocks_b : (i : ℕ) → i < 1 → IsBlock disk (block_number disk 2 i)
blocks_b i h = (let z : i ≡ 0 = omega arith in rw z (omega arith, omega arith))

read_data-bad_block_example :
    read_data disk 2 4094 10 ≡ record { written = 254 ∷ 255 ∷ []; ret = failure }
read_data-bad_block_example =
    read_data-bad_block disk 2 1 4094 10 blocks_b (inl (omega arith)) (omega arith) (omega arith)
      (omega arith) (omega arith) (omega arith)

IsBytes-zeros : (n : ℕ) → IsBytes (replicate n 0)
IsBytes-zeros zero = tt
IsBytes-zeros (suc n) = (omega arith, IsBytes-zeros n)

names : HasNames disk.files
names = (
  (omega arith, IsBytes-zeros 31),
  inr (inl refl),
  ((omega arith, IsBytes-zeros 31), inr (inl refl), tt),
)

read_dentry_by_name-IsFirst_example : IsFirst name_b disk.files 2 (read_dentry_by_name disk name_b)
read_dentry_by_name-IsFirst_example =
    read_dentry_by_name-IsFirst disk name_b (omega arith, IsBytes-zeros 31) (inr (inl refl)) names
      (omega arith) (omega arith)

found_b : read_dentry_by_index disk 1 ≡ ok file_b
unfolding read_dentry_by_index dentry_at
found_b = refl

abbrev name_of : Option Dentry → List ℕ
name_of none = []
name_of (some entry) = entry.filename

distinct :
    (a b : Dentry)
    → some file_a ≡ some a
    → some file_b ≡ some b
    → (HasName a.filename b → ⊥) × (HasName b.filename a → ⊥)
distinct a b ea eb =
    let na : name_a ≡ a.filename = ap name_of ea in
    let nb : name_b ≡ b.filename = ap name_of eb in
    let split : c_string 32 name_a ≡ c_string 32 name_b → ⊥ = λ e. ground arith in
    (
      λ h. split (ap (c_string 32) na ∙ h ∙ ap (c_string 32) (sym nb)),
      λ h. split (ap (c_string 32) na ∙ sym h ∙ ap (c_string 32) (sym nb)),
    )

unique : HasUniqueNames disk.files
unique zero zero a b ea eb h = refl
unique zero (suc zero) a b ea eb h = absurd ((distinct a b ea eb).0 h)
unique (suc zero) zero a b ea eb h = absurd ((distinct b a eb ea).1 h)
unique (suc zero) (suc zero) a b ea eb h = refl
unique zero (suc (suc j)) a b ea eb h = absurd (ground arith)
unique (suc zero) (suc (suc j)) a b ea eb h = absurd (ground arith)
unique (suc (suc i)) j a b ea eb h = absurd (ground arith)
