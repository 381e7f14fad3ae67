-- ===== src/Fs/Lookup.antt =====
-- read_dentry_by_name and read_dentry_by_index of student-distrib/filesystem.c.
use snoop_diggity_d_os.Prelude.{
  ℕ, zero, suc, ◌^◌, ◌≤◌, ◌<◌, ◌≡◌, inl, inr, refl, List, [], ◌∷◌, some, true, false, Bool-cases,
  arith, pos, negsuc, length, get_elem?, lt→ltb, ℤ,
}
use snoop_diggity_d_os.Strings.{c_string}
use snoop_diggity_d_os.Strings.Compare.{IsBytes, IsReadable, strncmp-eq_zero}
use snoop_diggity_d_os.Fs.{
  Image, Dentry, Outcome, ok, fails, fault, find_dentry, read_dentry_by_name, read_dentry_by_index,
  dentry_at, file_name_size, is_zero,
}

-- A directory entry has the name that is asked for, up to a NUL or 32 bytes.
abbrev pub HasName : List ℕ → Dentry → Type 0
HasName fname entry = c_string file_name_size fname ≡ c_string file_name_size entry.filename

-- The entries have name fields of 32 bytes.
abbrev pub HasNames : List Dentry → Type 0
HasNames [] = Unit
HasNames (entry ∷ files) =
    IsBytes entry.filename × IsReadable file_name_size entry.filename × HasNames files

-- What a lookup among the first `n` entries must answer: the first entry of that name, or FAILURE
-- if none has it.
abbrev pub IsFirst : List ℕ → List Dentry → ℕ → Outcome Dentry → Type 0
IsFirst fname files n (ok entry) =
    (i : ℕ) × (i < n)
    × (get_elem? files i ≡ some entry)
    × HasName fname entry
    × ((j : ℕ) (other : Dentry) → j < i → get_elem? files j ≡ some other → HasName fname other → ⊥)
IsFirst fname files n fails =
    (j : ℕ) (other : Dentry) → j < n → get_elem? files j ≡ some other → HasName fname other → ⊥
IsFirst fname files n fault = ⊥

is_zero-true : (r : ℤ) → is_zero r ≡ true → r ≡ pos 0
is_zero-true (pos zero) e = refl
is_zero-true (pos (suc n)) e = cc
is_zero-true (negsuc n) e = cc

is_zero-false : (r : ℤ) → is_zero r ≡ false → r ≡ pos 0 → ⊥
is_zero-false (pos zero) e z = cc
is_zero-false (pos (suc n)) e z = cc
is_zero-false (negsuc n) e z = cc

IsFirst-cons :
    (fname : List ℕ) (entry : Dentry) (files : List Dentry) (n : ℕ) (r : Outcome Dentry)
    → (HasName fname entry → ⊥)
    → IsFirst fname files n r
    → IsFirst fname (entry ∷ files) (suc n) r
IsFirst-cons fname entry files n (ok found) ne (i, lt, at, named, before) =
    (suc i, omega arith, at, named, earlier)
  where
    earlier :
        (j : ℕ) (other : Dentry)
        → j < suc i
        → get_elem? (entry ∷ files) j ≡ some other
        → HasName fname other
        → ⊥
    earlier zero other l e h = ne (let same : entry ≡ other = cc in rw same h)
    earlier (suc j) other l e h = before j other (omega arith) e h
IsFirst-cons fname entry files n fails ne none_named = missing
  where
    missing :
        (j : ℕ) (other : Dentry)
        → j < suc n
        → get_elem? (entry ∷ files) j ≡ some other
        → HasName fname other
        → ⊥
    missing zero other l e h = ne (let same : entry ≡ other = cc in rw same h)
    missing (suc j) other l e h = none_named j other (omega arith) e h
IsFirst-cons fname entry files n fault ne h = h

find_dentry-IsFirst :
    (n : ℕ) (files : List Dentry) (fname : List ℕ)
    → IsBytes fname
    → IsReadable file_name_size fname
    → HasNames files
    → n ≤ length files
    → IsFirst fname files n (find_dentry n files fname)
unfolding find_dentry
find_dentry-IsFirst zero files fname bytes readable names le = λ j other l e h. absurd (omega arith)
find_dentry-IsFirst (suc n) [] fname bytes readable names le = absurd (omega arith)
find_dentry-IsFirst (suc n) (entry ∷ files) fname bytes readable names le =
    let (r, run, iff) =
      strncmp-eq_zero fname entry.filename file_name_size bytes names.0 readable names.1 in
    elim (Bool-cases (is_zero r)) [
      | inl z ↦
          rw (run, find_dentry, z)
            (0, omega arith, refl, iff.0 (is_zero-true r z), λ j other l e h. absurd (omega arith))
      | inr nz ↦
          rw (run, find_dentry, nz)
            (IsFirst-cons fname entry files n (find_dentry n files fname)
              (λ named. is_zero-false r nz (iff.1 named))
              (find_dentry-IsFirst n files fname bytes readable names.2 (omega arith)))
    ]

-- On a readable name of bytes and a directory whose count, below 2 ^ 31, is within its entries,
-- and whose names are readable in 32 bytes, read_dentry_by_name answers with the first entry
-- that has the name, and with FAILURE exactly when none has it.
pub read_dentry_by_name-IsFirst :
    (img : Image) (fname : List ℕ)
    → IsBytes fname
    → IsReadable file_name_size fname
    → HasNames img.files
    → img.direntries ≤ length img.files
    → img.direntries < 2 ^ 31
    → IsFirst fname img.files img.direntries (read_dentry_by_name img fname)
unfolding read_dentry_by_name
read_dentry_by_name-IsFirst img fname bytes readable names le small =
    rw (lt→ltb img.direntries (2 ^ 31) small)
      (find_dentry-IsFirst img.direntries img.files fname bytes readable names le)

dentry_at-ok :
    (files : List Dentry) (i : ℕ)
    → i < length files
    → (entry : Dentry) × (get_elem? files i ≡ some entry) × (dentry_at files i ≡ ok entry)
unfolding dentry_at
dentry_at-ok [] i h = absurd (omega arith)
dentry_at-ok (entry ∷ files) zero h = (entry, refl, refl)
dentry_at-ok (entry ∷ files) (suc i) h = dentry_at-ok files i (omega arith)

HasNames-at :
    (files : List Dentry) (i : ℕ) (entry : Dentry)
    → HasNames files
    → get_elem? files i ≡ some entry
    → IsBytes entry.filename × IsReadable file_name_size entry.filename
HasNames-at [] i entry names e = cc
HasNames-at (first ∷ files) zero entry names e =
    let same : first ≡ entry = cc in rw (← same) (names.0, names.1)
HasNames-at (first ∷ files) (suc i) entry names e = HasNames-at files i entry names.2 e

-- No two entries have one name.
abbrev pub HasUniqueNames : List Dentry → Type 0
HasUniqueNames files =
    (i j : ℕ) (a b : Dentry)
    → get_elem? files i ≡ some a
    → get_elem? files j ≡ some b
    → HasName a.filename b
    → i ≡ j

IsFirst-unique :
    (files : List Dentry) (n i : ℕ) (entry : Dentry) (r : Outcome Dentry)
    → HasUniqueNames files
    → i < n
    → get_elem? files i ≡ some entry
    → IsFirst entry.filename files n r
    → r ≡ ok entry
IsFirst-unique files n i entry (ok found) unique lt at (j, ltj, atj, named, before) =
    let same : i ≡ j = unique i j entry found at atj named in
    let at' : get_elem? files j ≡ some entry = rw (← same) at in cc
IsFirst-unique files n i entry fails unique lt at missing = absurd (missing i entry lt at refl)
IsFirst-unique files n i entry fault unique lt at h = absurd h

-- An entry that read_dentry_by_index finds is the one that read_dentry_by_name finds under its
-- name, in a directory whose count, below 2 ^ 31, is within its entries, and whose names are
-- readable in 32 bytes and distinct.
pub read_dentry_by_name-by_index :
    (img : Image) (index : ℕ) {entry : Dentry}
    → HasNames img.files
    → HasUniqueNames img.files
    → img.direntries ≤ length img.files
    → img.direntries < 2 ^ 31
    → read_dentry_by_index img index ≡ ok entry
    → read_dentry_by_name img entry.filename ≡ ok entry
unfolding read_dentry_by_index
read_dentry_by_name-by_index img index {entry} names unique le small found =
    let lt : index < img.direntries = ground arith in
    let (other, at, run) = dentry_at-ok img.files index (omega arith) in
    let same : other ≡ entry = ground arith in
    let at' : get_elem? img.files index ≡ some entry = rw (← same) at in
    let (bytes, readable) = HasNames-at img.files index entry names at' in
    IsFirst-unique img.files img.direntries index entry (read_dentry_by_name img entry.filename)
      unique lt at' (read_dentry_by_name-IsFirst img entry.filename bytes readable names le small)
