-- ===== src/Fs/Data.antt =====
-- read_data of student-distrib/filesystem.c as a whole.
use snoop_diggity_d_os.Prelude.{
  ℕ, zero, suc, ◌+◌, ◌-◌, ◌*◌, ◌≤◌, ◌^◌, ◌⊎◌, ◌<◌, min, ◌≡◌, inl, inr, refl, ap, ◌∙◌, none, Bool,
  true, false, ◌==◌, ltb, Bool-cases, Option-cases, length, arith, pos, failure, ltb→lt, ltb→ge,
  lt→ltb, gt→leb,
}
use snoop_diggity_d_os.Fs.{
  Image, Cursor, file_length, block_number, bad_block, fs_block_length, next_block, at_block_end,
  seek, copy_bytes, read_data,
}
use snoop_diggity_d_os.Fs.Blocks.{
  file_bytes, HasBlocks, IsAt, seek-IsAt, copy_bytes_lem, at_block_end_iff, next_block-IsIn,
  IsIn-IsAt_next, file_byte-cursor,
}

abbrev first_cursor : Image → ℕ → Cursor
first_cursor img inode = record { at = 0; block_num = block_number img inode 0; idx = 0 }

start-IsAt : (img : Image) (inode : ℕ) → IsAt img inode 0 (first_cursor img inode)
start-IsAt img inode = record {
  split = omega arith;
  inside = omega arith;
  start = λ _. refl;
  block = refl;
}

-- For a valid inode whose blocks are all valid, and an offset inside the file, read_data writes
-- the bytes of the file from the offset on, as many as asked for or up to the end of the file, and
-- returns their number.
pub read_data_lem :
    (img : Image) (inode offset len : ℕ)
    → inode < img.inodes
    → HasBlocks img inode (file_length img inode)
    → offset < file_length img inode
    → let n = min len (file_length img inode - offset) in
      read_data img inode offset len
      ≡ record { written = file_bytes img inode offset n; ret = pos n }
unfolding read_data
read_data_lem img inode offset len valid good inside =
    let (c, found, there) =
      seek-IsAt img inode offset 0 offset (file_length img inode) (first_cursor img inode) good
        (omega arith) (omega arith) (start-IsAt img inode) in
    rw
      (
        gt→leb img.inodes inode valid,
        good 0 (omega arith),
        gt→leb (file_length img inode) offset inside,
        found,
        read_data,
      )
      (copy_bytes_lem img inode len 0 offset (min len (file_length img inode - offset)) c good there
          refl
        ∙ ap
            (λ (k : ℕ). record {
              written = file_bytes img inode offset (min len (file_length img inode - offset));
              ret = pos k;
            })
            (omega arith))

-- What copy_bytes writes fits the rounds, and a count that it returns is that of the bytes written.
copy_bytes-fits :
    (img : Image) (inode rounds i counter : ℕ) (c : Cursor)
    → let r = copy_bytes img inode rounds i counter c in
      (length r.written ≤ rounds) × ((n : ℕ) → r.ret ≡ pos n → n ≡ i + length r.written)
unfolding copy_bytes
copy_bytes-fits img inode zero i counter c = (omega arith, λ n e. ground arith)
copy_bytes-fits img inode (suc rounds) i counter c =
    elim (Bool-cases (ltb counter (file_length img inode))) [
      | inr ge ↦ rw ge (omega arith, λ n e. ground arith)
      | inl lt ↦ elim (Option-cases (next_block img inode (at_block_end c.at) c)) [
        | inl bad ↦ rw (lt, bad, copy_bytes) (omega arith, λ n e. ground arith)
        | inr (c₁, step) ↦
            let (fits, counts) =
              copy_bytes-fits img inode rounds (i + 1) (counter + 1)
                (record c₁ { at = c₁.at + 1 }) in
            rw (lt, step, copy_bytes) (omega arith, λ n e. omega (arith, counts n e))
      ]
    ]

-- On any image and any arguments read_data writes at most `len` bytes, and when it returns a
-- count, that is the number of bytes that it wrote.
pub read_data-fits :
    (img : Image) (inode offset len : ℕ)
    → let r = read_data img inode offset len in
      (length r.written ≤ len) × ((n : ℕ) → r.ret ≡ pos n → n ≡ length r.written)
unfolding read_data
read_data-fits img inode offset len =
    elim (Option-cases (seek img inode offset 0 (first_cursor img inode))) [
      | inl lost ↦ rw (lost, read_data) (ground arith, λ n e. ground arith)
      | inr (c, found) ↦
          let (fits, counts) = copy_bytes-fits img inode len 0 offset c in
          rw (found, read_data) (ground arith, λ n e. ground (arith, counts n))
    ]

next_block-bad :
    (img : Image) (inode k : ℕ) (c : Cursor) (ended : Bool)
    → bad_block img (block_number img inode k) ≡ true
    → 0 < k
    → IsAt img inode (k * 4096) c
    → ended ≡ (c.at == 4096)
    → next_block img inode ended c ≡ none
unfolding next_block
next_block-bad img inode k c true bad p h e =
    let stop : c.at ≡ 4096 = ground arith in let eq : c.idx + 1 ≡ k = omega arith in rw (eq, bad)
next_block-bad img inode k c false bad p h e =
    let go : c.at < 4096 = ground arith in absurd (omega arith)

module _ (img : Image) (inode k : ℕ) (good : HasBlocks img inode (k * fs_block_length))
    (bad : bad_block img (block_number img inode k) ≡ true) (later : 0 < k) where
  seek-bad :
      (rounds i : ℕ) (c : Cursor)
      → i ≤ k * fs_block_length
      → k * fs_block_length < i + rounds
      → IsAt img inode i c
      → seek img inode rounds i c ≡ none
  unfolding seek
  seek-bad zero i c le lt h = absurd (omega arith)
  seek-bad (suc rounds) i c le lt h = elim (Bool-cases (i == k * fs_block_length)) [
    | inl e ↦
        let e' : i ≡ k * fs_block_length = ground arith in
        let stop =
          next_block-bad img inode k c (at_block_end i) bad later (rw e' at h)
            (at_block_end_iff img inode i c h).0 in
        rw (stop, seek)
    | inr ne ↦
        let lt' : i < k * fs_block_length = ground arith in
        let (c₁, step, in_block) =
          next_block-IsIn img inode i (k * fs_block_length) c (at_block_end i) good lt' h
            (at_block_end_iff img inode i c h).0 in
        rw (step, seek)
          (seek-bad rounds (i + 1) (record c₁ { at = c₁.at + 1 }) (omega arith) (omega arith)
            (IsIn-IsAt_next img inode i c₁ in_block))
  ]

  copy_bytes-bad :
      (rounds i counter : ℕ) (c : Cursor)
      → counter ≤ k * fs_block_length
      → k * fs_block_length < counter + rounds
      → k * fs_block_length < file_length img inode
      → IsAt img inode counter c
      → copy_bytes img inode rounds i counter c ≡ record {
        written = file_bytes img inode counter (k * fs_block_length - counter);
        ret = failure;
      }
  unfolding copy_bytes
  copy_bytes-bad zero i counter c le lt file h = absurd (omega arith)
  copy_bytes-bad (suc rounds) i counter c le lt file h =
      elim (Bool-cases (counter == k * fs_block_length)) [
        | inl e ↦
            let e' : counter ≡ k * fs_block_length = ground arith in
            let none_left : k * fs_block_length - counter ≡ 0 = omega arith in
            let stop =
              next_block-bad img inode k c (at_block_end c.at) bad later (rw e' at h)
                (at_block_end_iff img inode counter c h).1 in
            rw (lt→ltb counter (file_length img inode) (omega arith), stop, copy_bytes, none_left)
        | inr ne ↦
            let lt' : counter < k * fs_block_length = ground arith in
            let (c₁, step, in_block) =
              next_block-IsIn img inode counter (k * fs_block_length) c (at_block_end c.at) good lt'
                h (at_block_end_iff img inode counter c h).1 in
            let left : k * fs_block_length - counter ≡ suc (k * fs_block_length - (counter + 1)) =
              omega arith in
            rw (
              lt→ltb counter (file_length img inode) (omega arith),
              step,
              copy_bytes,
              copy_bytes-bad rounds (i + 1) (counter + 1) (record c₁ { at = c₁.at + 1 })
                  (omega arith) (omega arith) file (IsIn-IsAt_next img inode counter c₁ in_block),
              file_byte-cursor img inode counter c₁ in_block,
              left,
            )
      ]

  read_data-stops :
      (offset len : ℕ)
      → inode < img.inodes
      → offset < file_length img inode
      → k * fs_block_length < file_length img inode
      → k * fs_block_length < offset + len
      → read_data img inode offset len ≡ record {
        written = file_bytes img inode offset (k * fs_block_length - offset);
        ret = failure;
      }
  unfolding read_data
  read_data-stops offset len valid inside file reach =
      elim (Bool-cases (ltb (k * fs_block_length) offset)) [
        | inl past ↦
            let past' : k * fs_block_length < offset = ltb→lt _ _ past in
            let lost =
              seek-bad offset 0 (first_cursor img inode) (omega arith) (omega arith)
                (start-IsAt img inode) in
            let nothing : k * fs_block_length - offset ≡ 0 = omega arith in
            rw (
              gt→leb img.inodes inode valid,
              first,
              gt→leb (file_length img inode) offset inside,
              lost,
              read_data,
              nothing,
            )
        | inr before ↦
            let before' : offset ≤ k * fs_block_length = ltb→ge _ _ before in
            let (c, found, there) =
              seek-IsAt img inode offset 0 offset (k * fs_block_length) (first_cursor img inode)
                good before' (omega arith) (start-IsAt img inode) in
            rw
              (
                gt→leb img.inodes inode valid,
                first,
                gt→leb (file_length img inode) offset inside,
                found,
                read_data,
              )
              (copy_bytes-bad len 0 offset c before' reach file there)
      ]
    where
      first : bad_block img (block_number img inode 0) ≡ false
      first = good 0 (omega arith)

-- A block number that the image has: its data area has that block, and it is not negative as an `int`.
abbrev pub IsBlock : Image → ℕ → Type 0
IsBlock img n = (n < img.datablocks) × (n < 2 ^ 31)

bad_block-IsBlock : (img : Image) (n : ℕ) → IsBlock img n → bad_block img n ≡ false
unfolding bad_block
bad_block-IsBlock img n (low, positive) = ground arith

not_block-bad_block :
    (img : Image) (n : ℕ) → (img.datablocks ≤ n) ⊎ (2 ^ 31 ≤ n) → bad_block img n ≡ true
unfolding bad_block
not_block-bad_block img n (inl past) = ground arith
not_block-bad_block img n (inr negative) = ground arith

-- Where block `k`, not the first, of a valid inode is the first whose number is not below the count of
-- data blocks or is negative as an `int`, and lies inside the file, a read from inside the file that
-- reaches that block returns FAILURE, and has by then written the bytes from the offset up to it.
pub read_data-bad_block :
    (img : Image) (inode k offset len : ℕ)
    → ((i : ℕ) → i < k → IsBlock img (block_number img inode i))
    → (img.datablocks ≤ block_number img inode k) ⊎ (2 ^ 31 ≤ block_number img inode k)
    → 0 < k
    → inode < img.inodes
    → offset < file_length img inode
    → k * fs_block_length < file_length img inode
    → k * fs_block_length < offset + len
    → read_data img inode offset len ≡ record {
      written = file_bytes img inode offset (k * fs_block_length - offset);
      ret = failure;
    }
read_data-bad_block img inode k offset len good bad later =
    read_data-stops img inode k
      (λ i h. bad_block-IsBlock img (block_number img inode i) (good i (omega arith)))
      (not_block-bad_block img (block_number img inode k) bad) later offset len
