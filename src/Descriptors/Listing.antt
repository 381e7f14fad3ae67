-- ===== src/Descriptors/Listing.antt =====
-- read_directory of student-distrib/filesystem.c: what a program gets for each entry.
use snoop_diggity_d_os.Prelude.{
  ℕ, zero, suc, ◌+◌, ◌-◌, ◌%◌, ◌<◌, ◌≤◌, ◌≡◌, refl, List, [], ◌∷◌, ◌++◌, some, leb, ◌==◌, false,
  update, length, replicate, drop, get_or, arith, Bool-cases, inl, inr, gt→leb, leb→le, leb→gt,
  length-append, length-replicate, if◌then◌else◌,
}
use snoop_diggity_d_os.Strings.{strlen, strncpy, c_string}
use snoop_diggity_d_os.Strings.Compare.{IsReadable}
use snoop_diggity_d_os.Strings.Copy.{strncpy-c_string}
use snoop_diggity_d_os.Fs.{Image, Dentry, ok, dentry_at}
use snoop_diggity_d_os.Descriptors.{FileInfo, name_length, read_directory}

pub length-c_string : (n : ℕ) (s : List ℕ) → length (c_string n s) ≤ n
length-c_string zero s = omega arith
length-c_string (suc n) [] = omega arith
length-c_string (suc n) (c ∷ s) = ground (arith, length-c_string n s)

-- inside a string there is no NUL
get_or-c_string :
    (n : ℕ) (s rest : List ℕ) (i : ℕ)
    → i < length (c_string n s)
    → (get_or (c_string n s ++ rest) i 0 == 0) ≡ false
get_or-c_string zero s rest i h = absurd (omega arith)
get_or-c_string (suc n) [] rest i h = absurd (omega arith)
get_or-c_string (suc n) (c ∷ s) rest zero h = elim (Bool-cases (c == 0)) [
  | inl ends ↦ absurd (let none_left = rw ends at h in omega arith)
  | inr goes ↦ rw (goes, goes) refl
]
get_or-c_string (suc n) (c ∷ s) rest (suc i) h = elim (Bool-cases (c == 0)) [
  | inl ends ↦ absurd (let none_left = rw ends at h in omega arith)
  | inr goes ↦ (let longer = rw goes at h in rw goes (get_or-c_string n s rest i (omega arith)))
]

-- the NULs that fill up a field
get_or-fill :
    (xs rest : List ℕ) (k i : ℕ)
    → length xs ≤ i
    → i < length xs + k
    → get_or (xs ++ (replicate k 0 ++ rest)) i 0 ≡ 0
get_or-fill [] rest zero i low high = absurd (omega arith)
get_or-fill [] rest (suc k) zero low high = refl
get_or-fill [] rest (suc k) (suc i) low high = get_or-fill [] rest k i (omega arith) (omega arith)
get_or-fill (x ∷ xs) rest k zero low high = absurd (omega arith)
get_or-fill (x ∷ xs) rest k (suc i) low high = get_or-fill xs rest k i (omega arith) (omega arith)

strlen-c_string :
    (n : ℕ) (s rest : List ℕ) → strlen (c_string n s ++ (0 ∷ rest)) ≡ some (length (c_string n s))
unfolding strlen
strlen-c_string zero s rest = refl
strlen-c_string (suc n) [] rest = refl
strlen-c_string (suc n) (c ∷ s) rest = ground (arith, strlen-c_string n s rest)

-- the name in the field of an entry, with the byte behind it
pub c_string-append :
    (n : ℕ) (s rest : List ℕ) → length s ≡ n → c_string n (s ++ rest) ≡ c_string n s
c_string-append zero [] rest h = refl
c_string-append zero (c ∷ s) rest h = absurd (omega arith)
c_string-append (suc n) [] rest h = absurd (omega arith)
c_string-append (suc n) (c ∷ s) rest h = rw (c_string-append n s rest (omega arith)) refl

IsReadable-append : (n c : ℕ) (s : List ℕ) → length s ≡ n → IsReadable (suc n) (s ++ (c ∷ []))
IsReadable-append zero c [] h = inr tt
IsReadable-append zero c (d ∷ s) h = absurd (omega arith)
IsReadable-append (suc n) c [] h = absurd (omega arith)
IsReadable-append (suc n) c (d ∷ s) h = inr (IsReadable-append n c s (omega arith))

-- What read_directory is to leave in the buffer: the name, and NULs up to 32 bytes.
abbrev pub named : List ℕ → List ℕ → List ℕ
named name buf = c_string 32 name ++ (replicate (32 - length (c_string 32 name)) 0 ++ drop 32 buf)

length-named : (name buf : List ℕ) → 31 < length (named name buf)
length-named name buf =
    let short = length-c_string 32 name in
    let fill : List ℕ = replicate (32 - length (c_string 32 name)) 0 in
    omega (
      arith,
      length-append (c_string 32 name) (fill ++ drop 32 buf),
      length-append fill (drop 32 buf),
      length-replicate {A = ℕ} (32 - length (c_string 32 name)) 0,
    )

strlen-named :
    (name rest : List ℕ) (k : ℕ)
    → 0 < k
    → strlen (c_string 32 name ++ (replicate k 0 ++ rest)) ≡ some (length (c_string 32 name))
strlen-named name rest zero h = absurd (omega arith)
strlen-named name rest (suc k) h = strlen-c_string 32 name (replicate k 0 ++ rest)

name_length-named :
    (name buf : List ℕ) → name_length (named name buf) ≡ some (length (c_string 32 name))
unfolding name_length
name_length-named name buf =
    let short = length-c_string 32 name in
    let long = gt→leb (length (named name buf)) 31 (length-named name buf) in
    elim (Bool-cases (leb (length (c_string 32 name)) 31)) [
      | inl ends ↦
          (let ends' = leb→le (length (c_string 32 name)) 31 ends in
            let last =
              get_or-fill (c_string 32 name) (drop 32 buf) (32 - length (c_string 32 name)) 31 ends'
                (omega arith) in
            rw (long, last)
              (strlen-named name (drop 32 buf) (32 - length (c_string 32 name)) (omega arith)))
      | inr full ↦
          (let full' = leb→gt (length (c_string 32 name)) 31 full in
            let last =
              get_or-c_string 32 name (replicate (32 - length (c_string 32 name)) 0 ++ drop 32 buf)
                31 full' in
            let all : length (c_string 32 name) ≡ 32 = omega arith in rw (long, last, all) refl)
    ]

copied_lem :
    (name buf : List ℕ) (behind : ℕ)
    → 32 ≤ length buf
    → length name ≡ 32
    → strncpy buf (name ++ (behind ∷ [])) 32 ≡ some (named name buf)
copied_lem name buf behind room full =
    let copies =
      strncpy-c_string buf (name ++ (behind ∷ [])) 32 (IsReadable-append 32 behind name full)
        room in
    let same = c_string-append 32 name (behind ∷ []) full in rw same at copies

-- For a buffer of at least 32 bytes and an entry with a name field of 32 bytes at the
-- descriptor's position, read_directory with a size of 32 puts the name into the buffer, with
-- NULs up to 32 bytes, returns the length of the name, and moves the position to the next entry;
-- when the position is past the directory's count it returns 0 and changes nothing.
pub read_directory-named :
    (img : Image) (files : ℕ → FileInfo) (fd : ℕ) (buf : List ℕ) (entry : Dentry)
    → 32 ≤ length buf
    → length entry.filename ≡ 32
    → dentry_at img.files (files fd).position ≡ ok entry
    → read_directory img files fd buf 32 ≡ (
        if leb img.direntries (files fd).position
        then ok (record { buf = buf; files = files; ret = 0 })
        else ok (record {
          buf = named entry.filename buf;
          files = update files fd (record (files fd) { position = (files fd).position + 1 });
          ret = length (c_string 32 entry.filename);
        }))
unfolding read_directory
read_directory-named img files fd buf entry room name found =
    elim (Bool-cases (leb img.direntries (files fd).position)) [
      | inl ended ↦ rw (ended, read_directory)
      | inr more ↦ rw (
        more,
        found,
        copied_lem entry.filename buf (entry.filetype % 256) room name,
        name_length-named entry.filename buf,
        read_directory,
      )
    ]
