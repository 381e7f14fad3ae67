-- ===== src/User/Shell/Session.antt =====
-- A session at the keyboard for the shell (syscalls/ece391shell.c): a read gives the next line that
-- is typed, as read_terminal of student-distrib/devices/keyboard.c does, and execute is recorded.
use snoop_diggity_d_os.Prelude.{
  ℕ, zero, suc, ◌<◌, ◌≡◌, ◌≢◌, refl, ap, List, [], ◌∷◌, ◌++◌, Option, none, some, Bool, true, false,
  ℤ, pos, negsuc, ◌==◌, ◌&&◌, length, drop, set, get_or, arith, Bool-cases, inl, inr, sub_ℕ,
}
use snoop_diggity_d_os.Strings.{c_string}
use snoop_diggity_d_os.User.{Calls, ece391_strcmp, ece391_strlen, ece391_fdputs}
use snoop_diggity_d_os.User.Shell.{is_zero, trimmed, report}

-- The lines to come and the commands that execute was called with.
pub record Session : Type 0 where
  pub lines : List (List ℕ)
  pub ran : List (List ℕ)

-- a read from the keyboard; it does not return when nothing more is typed
abbrev read_line : Session → List ℕ → List (List ℕ) → Option (ℤ × List ℕ × Session)
read_line s buf [] = none
read_line s buf (line ∷ lines) = some (
  pos (suc (length line)),
  line ++ (b'\n' ∷ drop (suc (length line)) buf),
  record s { lines = lines },
)

-- The calls of a session, with `answer` what execute returns for a command.
abbrev pub session : (List ℕ → ℤ) → Calls Session
session answer = record {
  ece391_getargs = λ s buf n. none;
  ece391_open = λ s name. none;
  ece391_execute = λ s buf.
      some (answer (c_string 1024 buf), record s { ran = s.ran ++ (c_string 1024 buf ∷ []) });
  ece391_read = λ s fd buf n. read_line s buf s.lines;
  ece391_write = λ s fd buf n. some (n, s);
}

abbrev pub same : List ℕ → List ℕ → Bool
same [] [] = true
same [] (y ∷ ys) = false
same (x ∷ xs) [] = false
same (x ∷ xs) (y ∷ ys) = (x == y) && same xs ys

-- No byte of the list is NUL.
abbrev pub HasNoNul : List ℕ → Type 0
HasNoNul [] = Unit
HasNoNul (x ∷ xs) = (x ≢ 0) × HasNoNul xs

-- ece391_strcmp gives 0 for equal texts and for no others.
pub ece391_strcmp-same :
    (xs ys r : List ℕ)
    → HasNoNul xs
    → HasNoNul ys
    → (d : ℤ) × (ece391_strcmp (xs ++ (0 ∷ r)) (ys ++ (0 ∷ [])) ≡ some d) × (is_zero d ≡ same xs ys)
unfolding ece391_strcmp
ece391_strcmp-same [] [] r h k = (pos 0, refl, refl)
ece391_strcmp-same [] (y ∷ ys) r h (ne, k) = (sub_ℕ 0 y, ground (arith, ne), ground (arith, ne))
ece391_strcmp-same (x ∷ xs) [] r (ne, h) k = (sub_ℕ x 0, ground (arith, ne), ground (arith, ne))
ece391_strcmp-same (x ∷ xs) (y ∷ ys) r (ne, h) (ne', k) = elim (Bool-cases (x == y)) [
  | inr differ ↦ (sub_ℕ x y, rw differ refl, rw differ (ground (arith, differ)))
  | inl equal ↦
      (let (d, runs, zero_iff) = ece391_strcmp-same xs ys r h k in
        let some_byte : (x == 0) ≡ false = ground (arith, ne) in
        (d, rw (equal, some_byte) runs, rw equal zero_iff))
]

-- the newline behind a line is replaced by a NUL
pub set-newline :
    (line r : List ℕ)
    → let buf = line ++ (b'\n' ∷ r) in set buf (trimmed (suc (length line)) buf) 0 ≡ line ++ (0 ∷ r)
set-newline line r = rw (last line) (put line)
  where
    last : (xs : List ℕ) → get_or (xs ++ (b'\n' ∷ r)) (length xs) 0 ≡ b'\n'
    last [] = refl
    last (x ∷ xs) = last xs

    put : (xs : List ℕ) → set (xs ++ (b'\n' ∷ r)) (length xs) 0 ≡ xs ++ (0 ∷ r)
    put [] = refl
    put (x ∷ xs) = ap (λ l. x ∷ l) (put xs)

pub c_string-line :
    (n : ℕ) (line r : List ℕ)
    → HasNoNul line
    → length line < n
    → c_string n (line ++ (0 ∷ r)) ≡ line
c_string-line zero line r h k = absurd (omega arith)
c_string-line (suc n) [] r h k = refl
c_string-line (suc n) (x ∷ line) r (ne, h) k =
    let some_byte : (x == 0) ≡ false = ground (arith, ne) in
    rw some_byte (ap (λ l. x ∷ l) (c_string-line n line r h (omega arith)))

-- a session keeps nothing of what is written
pub report-session :
    (answer : List ℕ → ℤ) (s : Session) (r : ℤ) → report (session answer) s r ≡ some s
unfolding report ece391_fdputs ece391_strlen
report-session answer s (pos n) = ground arith
report-session answer s (negsuc zero) = refl
report-session answer s (negsuc (suc n)) = refl
