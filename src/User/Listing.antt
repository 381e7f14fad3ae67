-- ===== src/User/Listing.antt =====
-- The lines that ls (syscalls/ece391ls.c) makes of the names that read_directory gives it.
use snoop_diggity_d_os.Prelude.{
  ℕ, zero, suc, ◌-◌, ◌<◌, ◌≡◌, ◌≢◌, refl, ap, List, [], ◌∷◌, ◌++◌, arith, Bool-cases, inl, inr,
  length, drop, set, replicate, ◌==◌, length-append, length-replicate, length-set,
}
use snoop_diggity_d_os.Strings.{c_string}
use snoop_diggity_d_os.Fs.{Dentry}
use snoop_diggity_d_os.Descriptors.Listing.{named, length-c_string}

-- What ls shows of a directory: each name, up to its first NUL, on a line of its own.
abbrev pub listing : List Dentry → List ℕ
listing [] = []
listing (entry ∷ files) = c_string 32 entry.filename ++ (b'\n' ∷ listing files)

-- The name fields have 32 bytes, and no name is empty.
abbrev pub HasNames : List Dentry → Type 0
HasNames [] = Unit
HasNames (entry ∷ files) =
    (length entry.filename ≡ 32) × (c_string 32 entry.filename ≢ []) × HasNames files

line-tail :
    (n : ℕ) (s zs : List ℕ)
    → 0 < length zs
    → c_string
        (suc (length (c_string n s)))
        (set (c_string n s ++ zs) (length (c_string n s)) b'\n')
      ≡ c_string n s ++ (b'\n' ∷ [])
line-tail n s [] h = absurd (omega arith)
line-tail zero s (z ∷ zs) h = refl
line-tail (suc n) [] (z ∷ zs) h = refl
line-tail (suc n) (c ∷ s) (z ∷ zs) h = elim (Bool-cases (c == 0)) [
  | inl ends ↦ rw ends refl
  | inr goes ↦ rw (goes, goes) (ap (λ l. c ∷ l) (line-tail n s (z ∷ zs) h))
]

length-drop : (n : ℕ) (xs : List ℕ) → length (drop n xs) ≡ length xs - n
length-drop zero xs = omega arith
length-drop (suc n) [] = omega arith
length-drop (suc n) (x ∷ xs) = omega (arith, length-drop n xs)

-- the rest of the buffer behind the name that read_directory has put there
length-behind :
    (name buf : List ℕ)
    → length buf ≡ 33
    → length (replicate {A = ℕ} (32 - length (c_string 32 name)) 0 ++ drop 32 buf)
      ≡ 33 - length (c_string 32 name)
length-behind name buf h =
    let short = length-c_string 32 name in
    omega (
      arith,
      length-append (replicate {A = ℕ} (32 - length (c_string 32 name)) 0) (drop 32 buf),
      length-replicate {A = ℕ} (32 - length (c_string 32 name)) 0,
      length-drop 32 buf,
    )

-- the line that ls writes
pub line-named :
    (name buf : List ℕ)
    → length buf ≡ 33
    → let n = length (c_string 32 name) in
      c_string (suc n) (set (named name buf) n b'\n') ≡ c_string 32 name ++ (b'\n' ∷ [])
line-named name buf h =
    let short = length-c_string 32 name in
    line-tail 32 name _ (omega (arith, length-behind name buf h))

pub length-line :
    (name buf : List ℕ) (i : ℕ) → length buf ≡ 33 → length (set (named name buf) i b'\n') ≡ 33
length-line name buf i h =
    let short = length-c_string 32 name in
    omega (
      arith,
      length-set (named name buf) i b'\n',
      length-append (c_string 32 name)
          (replicate (32 - length (c_string 32 name)) 0 ++ drop 32 buf),
      length-behind name buf h,
    )
