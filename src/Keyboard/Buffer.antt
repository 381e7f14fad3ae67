-- ===== src/Keyboard/Buffer.antt =====
-- The array in which a terminal keeps its line, and the loop of read_terminal that copies it
-- (student-distrib/devices/keyboard.c).
use snoop_diggity_d_os.Prelude.{
  ℕ, zero, suc, ◌+◌, ◌<◌, ◌≡◌, ◌≢◌, refl, ◌==◌, if◌then◌else◌, arith, some, update, List, [], ◌∷◌,
  ◌++◌, length,
}
use snoop_diggity_d_os.Keyboard.{copy_line}
use snoop_diggity_d_os.Screen.{new_line}

-- The bytes of an array from an index on are those of a list, and then a NUL.
abbrev pub Holds : (ℕ → ℕ) → ℕ → List ℕ → Type 0
Holds stdin i [] = stdin i ≡ 0
Holds stdin i (c ∷ line) = (stdin i ≡ c) × Holds stdin (i + 1) line

-- No byte is a NUL or a newline.
abbrev pub IsText : List ℕ → Type 0
IsText [] = Unit
IsText (c ∷ line) = (c ≢ 0) × (c ≢ 10) × IsText line

pub Holds-append :
    (stdin : ℕ → ℕ)
    → (i j c : ℕ) → (line : List ℕ) → j ≡ i + length line
    → Holds stdin i line
    → Holds (update (update stdin j c) (j + 1) 0) i (line ++ (c ∷ []))
Holds-append stdin i j c [] e p = (ground arith, ground arith)
Holds-append stdin i j c (d ∷ line) e (p, q) =
    (ground arith, Holds-append stdin (i + 1) j c line (omega arith) q)

-- No byte is a NUL.
abbrev pub HasNoNul : List ℕ → Type 0
HasNoNul [] = Unit
HasNoNul (c ∷ line) = (c ≢ 0) × HasNoNul line

pub IsText-HasNoNul : (line : List ℕ) → IsText line → HasNoNul (line ++ (10 ∷ []))
IsText-HasNoNul [] t = (λ e. absurd (omega arith), tt)
IsText-HasNoNul (c ∷ line) (c_0, c_10, t) = (c_0, IsText-HasNoNul line t)

pub copy_line-Holds :
    (stdin : ℕ → ℕ)
    → (rounds i : ℕ) → (line : List ℕ) → HasNoNul line
    → length line < rounds
    → Holds stdin i line
    → copy_line stdin rounds i ≡ some line
unfolding copy_line
copy_line-Holds stdin zero i line t h p = ground arith
copy_line-Holds stdin (suc rounds) i [] t h p = rw p refl
copy_line-Holds stdin (suc rounds) i (c ∷ line) (c_0, t) h (p, q) =
    let rest = copy_line-Holds stdin rounds (i + 1) line t (omega arith) q in ground arith

-- enter's second write to the line, after a first newline, is of the NUL that is there
pub Holds-enter :
    (stdin : ℕ → ℕ)
    → (line : List ℕ) → IsText line
    → Holds stdin 0 (line ++ (10 ∷ []))
    → Holds (if stdin 0 == new_line then update stdin 1 0 else stdin) 0 (line ++ (10 ∷ []))
Holds-enter stdin [] t (p, q) = ground arith
Holds-enter stdin (c ∷ line) (c_0, c_10, t) (p, q) = ground arith
