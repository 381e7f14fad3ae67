-- ===== src/Descriptors/Reads.antt =====
-- Successive calls of read_file on one descriptor.
use snoop_diggity_d_os.Prelude.{
  ℕ, zero, suc, ◌+◌, ◌-◌, ◌^◌, ◌<◌, ◌≤◌, min, ◌≡◌, refl, sym, ap, ◌∙◌, List, [], ◌∷◌, ◌++◌, ltb,
  leb, pos, arith, Bool-cases, inl, inr, gt→leb, eq→==, false,
}
use snoop_diggity_d_os.Fs.{Image, read_data, file_length, bad_block, block_number}
use snoop_diggity_d_os.Fs.Blocks.{file_byte, file_bytes, HasBlocks}
use snoop_diggity_d_os.Fs.Data.{read_data_lem}
use snoop_diggity_d_os.Fs.Pointers.{get_inode_ptr, get_inode_num-get_inode_ptr}
use snoop_diggity_d_os.Descriptors.{FileInfo, advance, read_file}

pub file_bytes-append :
    (img : Image) (inode p q a b : ℕ)
    → q ≡ p + a
    → file_bytes img inode p (a + b) ≡ file_bytes img inode p a ++ file_bytes img inode q b
file_bytes-append img inode p q zero b e =
    let here : q ≡ p = omega arith in let all : 0 + b ≡ b = omega arith in rw (here, all) refl
file_bytes-append img inode p q (suc a) b e =
    let step : suc a + b ≡ suc (a + b) = omega arith in
    rw step (
      ap (λ l. file_byte img inode p ∷ l) (file_bytes-append img inode (p + 1) q a b (omega arith)))

-- The file behind a descriptor, its inode below 128, and the place in it.
pub record IsOpen (img : Image) (base inode p : ℕ) (f : FileInfo) : Type 0 where
  pub address : base < 2 ^ 32
  pub valid : inode < img.inodes
  pub small : inode < 128
  pub sized : file_length img inode < 2 ^ 32
  pub blocks : HasBlocks img inode (file_length img inode)
  pub start : bad_block img (block_number img inode 0) ≡ false
  pub pointer : f.inode ≡ get_inode_ptr img base inode
  pub place : f.position ≡ p
  pub inside : p ≤ file_length img inode

-- read_data at any place of a file, its end included
read_data-inside :
    (img : Image) (base inode p n : ℕ) (f : FileInfo)
    → IsOpen img base inode p f
    → let k = min n (file_length img inode - p) in
      read_data img inode p n ≡ record { written = file_bytes img inode p k; ret = pos k }
unfolding read_data
read_data-inside img base inode p n f v = elim (Bool-cases (leb (file_length img inode) p)) [
  | inl over ↦
      (let none_left : min n (file_length img inode - p) ≡ 0 = ground arith in
        rw (gt→leb img.inodes inode v.valid, v.start, over, none_left) refl)
  | inr under ↦ read_data_lem img inode p n v.valid v.blocks (ground arith)
]

IsOpen-move :
    (img : Image) (base inode p q : ℕ) (f g : FileInfo)
    → IsOpen img base inode p f
    → g.inode ≡ f.inode
    → g.position ≡ q
    → q ≤ file_length img inode
    → IsOpen img base inode q g
IsOpen-move img base inode p q f g v same place inside = record {
  address = v.address;
  valid = v.valid;
  small = v.small;
  sized = v.sized;
  blocks = v.blocks;
  start = v.start;
  pointer = same ∙ v.pointer;
  place = place;
  inside = inside;
}

-- after a read that gives the bytes up to its count, the place has moved by the count
advance-IsOpen :
    (img : Image) (base inode p k fd : ℕ) (files : ℕ → FileInfo) (bytes : List ℕ)
    → IsOpen img base inode p (files fd)
    → k ≤ file_length img inode - p
    → let r = advance files fd (record { written = bytes; ret = pos k }) in
      (r.0 ≡ record { written = bytes; ret = pos k }) × IsOpen img base inode (p + k) (r.1 fd)
unfolding advance
advance-IsOpen img base inode p k fd files bytes v h =
    let place = v.place in
    let sized = v.sized in
    let inside = v.inside in
    elim (Bool-cases (ltb 0 k)) [
      | inl moves ↦
          rw (moves, eq→== fd fd refl)
            (
              refl,
              IsOpen-move img base inode p (p + k) (files fd) _ v refl (omega arith) (omega arith),
            )
      | inr stays ↦ rw stays (
        refl,
        IsOpen-move img base inode p (p + k) (files fd) (files fd) v refl (ground arith)
            (ground arith),
      )
    ]

pub read_file-IsOpen :
    (img : Image) (base inode p n fd : ℕ) (files : ℕ → FileInfo)
    → IsOpen img base inode p (files fd)
    → let k = min n (file_length img inode - p) in
      let r = read_file img base files fd n in
      (r.0 ≡ record { written = file_bytes img inode p k; ret = pos k })
      × IsOpen img base inode (p + k) (r.1 fd)
unfolding read_file
read_file-IsOpen img base inode p n fd files v =
    let same =
      (get_inode_num-get_inode_ptr img base inode v.address v.valid
          (let s = v.small in omega arith)).1
        v.small in
    rw (v.pointer, v.place, same, read_data-inside img base inode p n (files fd) v)
      (advance-IsOpen img base inode p (min n (file_length img inode - p)) fd files _ v
        (omega arith))

-- The bytes that calls of read_file with the given sizes write, in turn.
abbrev pub read_sizes : Image → ℕ → (ℕ → FileInfo) → ℕ → List ℕ → List ℕ
read_sizes img base files fd [] = []
read_sizes img base files fd (n ∷ sizes) =
    let r = read_file img base files fd n in r.0.written ++ read_sizes img base r.1 fd sizes

abbrev pub sum : List ℕ → ℕ
sum [] = 0
sum (n ∷ sizes) = n + sum sizes

-- On a descriptor that stands inside a file with an inode below 128, a length below 2 ^ 32 and
-- valid blocks, calls of read_file of any sizes write the bytes of the file in order from the
-- descriptor's position on, without a gap or a repetition, up to the sum of the sizes or the end
-- of the file.
pub read_file-sizes :
    (img : Image) (base inode p fd : ℕ) (files : ℕ → FileInfo) (sizes : List ℕ)
    → IsOpen img base inode p (files fd)
    → read_sizes img base files fd sizes
      ≡ file_bytes img inode p (min (sum sizes) (file_length img inode - p))
read_file-sizes img base inode p fd files [] v =
    let none_left : min 0 (file_length img inode - p) ≡ 0 = omega arith in rw none_left refl
read_file-sizes img base inode p fd files (n ∷ sizes) v =
    let inside = v.inside in
    let (reads, w) = read_file-IsOpen img base inode p n fd files v in
    let k = min n (file_length img inode - p) in
    let rest =
      read_file-sizes img base inode (p + k) fd (read_file img base files fd n).1 sizes w in
    let more = min (sum sizes) (file_length img inode - (p + k)) in
    let total : min (n + sum sizes) (file_length img inode - p) ≡ k + more = omega arith in
    rw (reads, rest, total) (sym (file_bytes-append img inode p (p + k) k more refl))
