-- ===== src/Fs/Blocks.antt =====
-- The two loops of read_data in student-distrib/filesystem.c, against the bytes of a file.
use snoop_diggity_d_os.Prelude.{
  ℕ, zero, suc, ◌+◌, ◌-◌, ◌*◌, ◌/◌, ◌%◌, ◌≤◌, ◌<◌, min, ◌≡◌, refl, sym, ap, ◌∙◌, List, [], ◌∷◌,
  some, Bool, true, false, ◌==◌, arith, pos, lt→ltb, ge→ltb,
}
use snoop_diggity_d_os.Fs.{
  Image, Cursor, file_length, block_number, bad_block, fs_block_length, next_block, at_block_end,
  seek, copy_bytes,
}

-- The byte at position `p` of a file: byte `p % 4096` of the file's block `p / 4096`.
abbrev pub file_byte : Image → ℕ → ℕ → ℕ
file_byte img inode p =
    img.bytes (block_number img inode (p / fs_block_length) * fs_block_length + p % fs_block_length)

-- The `n` bytes from position `p` on.
abbrev pub file_bytes : Image → ℕ → ℕ → ℕ → List ℕ
file_bytes img inode p zero = []
file_bytes img inode p (suc n) = file_byte img inode p ∷ file_bytes img inode (p + 1) n

-- Every block that holds one of the first `n` bytes has a valid number.
abbrev pub HasBlocks : Image → ℕ → ℕ → Type 0
HasBlocks img inode n =
    (k : ℕ) → k * fs_block_length < n → bad_block img (block_number img inode k) ≡ false

-- The cursor stands before byte `p`, perhaps at the end of the block before.
pub record IsAt (img : Image) (inode p : ℕ) (c : Cursor) : Type 0 where
  pub split : p ≡ c.idx * 4096 + c.at
  pub inside : c.at ≤ 4096
  pub start : c.at ≡ 0 → c.idx ≡ 0
  pub block : c.block_num ≡ block_number img inode c.idx

-- The cursor stands in the block of byte `p`.
pub record IsIn (img : Image) (inode p : ℕ) (c : Cursor) : Type 0 where
  pub at_byte : c.at ≡ p % 4096
  pub at_block : c.idx ≡ p / 4096
  pub number : c.block_num ≡ block_number img inode (p / 4096)

pub at_block_end_iff :
    (img : Image) (inode p : ℕ) (c : Cursor)
    → IsAt img inode p c
    → (at_block_end p ≡ (c.at == 4096)) × (at_block_end c.at ≡ (c.at == 4096))
at_block_end_iff img inode p c h = ground arith

block_number_lem :
    (img : Image) (inode : ℕ) {i j : ℕ}
    → i ≡ j
    → block_number img inode i ≡ block_number img inode j
block_number_lem img inode e = ap (block_number img inode) e

-- The step to the next block ends in the block of the byte to come.
pub next_block-IsIn :
    (img : Image) (inode p n : ℕ) (c : Cursor) (ended : Bool)
    → HasBlocks img inode n
    → p < n
    → IsAt img inode p c
    → ended ≡ (c.at == 4096)
    → (c' : Cursor) × (next_block img inode ended c ≡ some c') × IsIn img inode p c'
unfolding next_block
next_block-IsIn img inode p n c true good lt h e =
    let stop : c.at ≡ 4096 = ground arith in
    let eq : c.idx + 1 ≡ p / 4096 = omega arith in
    let fine : bad_block img (block_number img inode (c.idx + 1)) ≡ false =
      good (c.idx + 1) (omega arith) in
    (
      record { at = 0; block_num = block_number img inode (c.idx + 1); idx = c.idx + 1 },
      rw fine,
      record { at_byte = omega arith; at_block = eq; number = block_number_lem img inode eq },
    )
next_block-IsIn img inode p n c false good lt h e =
    let go : c.at < 4096 = ground arith in
    let eq : c.idx ≡ p / 4096 = omega arith in
    (
      c,
      refl,
      record {
        at_byte = omega arith;
        at_block = eq;
        number = h.block ∙ block_number_lem img inode eq;
      },
    )

-- Past a byte, the cursor stands before the next one.
pub IsIn-IsAt_next :
    (img : Image) (inode p : ℕ) (c : Cursor)
    → IsIn img inode p c
    → IsAt img inode (p + 1) (record c { at = c.at + 1 })
IsIn-IsAt_next img inode p c h = record {
  split = omega arith;
  inside = omega arith;
  start = λ z. absurd (omega arith);
  block = h.number ∙ block_number_lem img inode (sym h.at_block);
}

pub seek-IsAt :
    (img : Image) (inode rounds i offset n : ℕ) (c : Cursor)
    → HasBlocks img inode n
    → offset ≤ n
    → i + rounds ≡ offset
    → IsAt img inode i c
    → (c' : Cursor) × (seek img inode rounds i c ≡ some c') × IsAt img inode offset c'
unfolding seek
seek-IsAt img inode zero i offset n c good lt e h =
    let e' : i ≡ offset = omega arith in (c, refl, rw e' at h)
seek-IsAt img inode (suc rounds) i offset n c good lt e h =
    let (c₁, step, in_block) =
      next_block-IsIn img inode i n c (at_block_end i) good (omega arith) h
        (at_block_end_iff img inode i c h).0 in
    let (c₂, rest, there) =
      seek-IsAt img inode rounds (i + 1) offset n (record c₁ { at = c₁.at + 1 }) good lt
        (omega arith) (IsIn-IsAt_next img inode i c₁ in_block) in
    (c₂, rw (step, seek) rest, there)

pub file_byte-cursor :
    (img : Image) (inode p : ℕ) (c : Cursor)
    → IsIn img inode p c
    → img.bytes (c.block_num * fs_block_length + c.at) ≡ file_byte img inode p
file_byte-cursor img inode p c h = rw (h.number, h.at_byte)

-- `m` bytes are copied: up to the length asked for, or up to the end of the file.
pub copy_bytes_lem :
    (img : Image) (inode rounds i counter m : ℕ) (c : Cursor)
    → HasBlocks img inode (file_length img inode)
    → IsAt img inode counter c
    → m ≡ min rounds (file_length img inode - counter)
    → copy_bytes img inode rounds i counter c
      ≡ record { written = file_bytes img inode counter m; ret = pos (i + m) }
unfolding copy_bytes
copy_bytes_lem img inode zero i counter zero c good h e =
    ap (λ (k : ℕ). record { written = []; ret = pos k }) (omega arith)
copy_bytes_lem img inode zero i counter (suc m) c good h e = absurd (omega arith)
copy_bytes_lem img inode (suc rounds) i counter zero c good h e =
    rw (ge→ltb counter (file_length img inode) (omega arith))
      (ap (λ (k : ℕ). record { written = []; ret = pos k }) (omega arith))
copy_bytes_lem img inode (suc rounds) i counter (suc m) c good h e =
    let lt : counter < file_length img inode = omega arith in
    let (c₁, step, in_block) =
      next_block-IsIn img inode counter (file_length img inode) c (at_block_end c.at) good lt h
        (at_block_end_iff img inode counter c h).1 in
    let rest =
      copy_bytes_lem img inode rounds (i + 1) (counter + 1) m (record c₁ { at = c₁.at + 1 }) good
        (IsIn-IsAt_next img inode counter c₁ in_block) (omega arith) in
    let shift : i + 1 + m ≡ i + suc m = omega arith in
    rw (
      lt→ltb counter (file_length img inode) lt,
      step,
      copy_bytes,
      rest,
      shift,
      file_byte-cursor img inode counter c₁ in_block,
    )
