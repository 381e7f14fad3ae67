-- ===== src/User/Shell/Commands.antt =====
-- What the shell (syscalls/ece391shell.c) makes of the lines that are typed.
use mathlib.Core.List.{append-nil, append_assoc}
use snoop_diggity_d_os.Prelude.{
  ℕ, zero, suc, ◌<◌, ◌≤◌, ◌≡◌, ◌≢◌, refl, sym, ◌∙◌, ◌⊎◌, List, [], ◌∷◌, ◌++◌, some, false, ℤ, pos,
  ◌==◌, if◌then◌else◌, length, drop, get_or, codes, arith, Bool-cases, inl, inr,
}
use snoop_diggity_d_os.User.{exits, Ends, ece391_fdputs, ece391_strlen, literal}
use snoop_diggity_d_os.User.Shell.{shell, shell_loop, shell_count, shell_command, shell_run}
use snoop_diggity_d_os.User.Shell.Session.{
  Session, session, same, HasNoNul, ece391_strcmp-same, set-newline, c_string-line, report-session,
}

-- The commands among the lines: those before the first "exit" that are not empty.
abbrev pub commands : List (List ℕ) → List (List ℕ)
commands [] = []
commands (line ∷ lines) =
    let rest = commands lines in
    if same line (codes "exit") then [] else if length line == 0 then rest else line ∷ rest

-- Lines as the keyboard makes them, up to a line "exit".
abbrev pub IsTyped : List (List ℕ) → Type 0
IsTyped [] = ⊥
IsTyped (line ∷ lines) =
    HasNoNul line × (length line < 127) × ((line ≡ codes "exit") ⊎ IsTyped lines)

exit-HasNoNul : HasNoNul (codes "exit")
exit-HasNoNul = (
  λ e. ground (arith, e),
  (λ e. ground (arith, e), (λ e. ground (arith, e), (λ e. ground (arith, e), tt))),
)

-- what one round of the loop makes of a line
round : (answer : List ℕ → ℤ) (fuel : ℕ) (line r : List ℕ) (s : Session) → Ends Session
round answer fuel line r s =
    if same line (codes "exit")
    then exits 0 s
    else if length line == 0
    then shell_loop (session answer) fuel s (line ++ (0 ∷ r))
    else shell_loop (session answer) fuel (record s { ran = s.ran ++ (line ∷ []) })
        (line ++ (0 ∷ r))

first_byte :
    (line r : List ℕ) → HasNoNul line → (get_or (line ++ (0 ∷ r)) 0 0 == 0) ≡ (length line == 0)
first_byte [] r h = refl
first_byte (x ∷ line) r (ne, h) = ground (arith, ne)

shell_command-round :
    (answer : List ℕ → ℤ) (fuel : ℕ) (line r : List ℕ) (s : Session)
    → HasNoNul line
    → length line < 127
    → shell_command
        (session answer)
        (λ w buf. shell_loop (session answer) fuel w buf)
        s
        (line ++ (0 ∷ r))
      ≡ round answer fuel line r s
unfolding shell_command shell_run round
shell_command-round answer fuel line r s text short =
    let (d, runs, zero_iff) = ece391_strcmp-same line (codes "exit") r text exit-HasNoNul in
    let name = c_string-line 1024 line r text (omega arith) in
    let reports = report-session answer (record s { ran = s.ran ++ (line ∷ []) }) (answer line) in
    rw (runs, shell_command, zero_iff, first_byte line r text, shell_run, name, reports) refl

prompt-session :
    (answer : List ℕ → ℤ) (s : Session)
    → ece391_fdputs (session answer) s (pos 1) (literal "391OS> ") ≡ some s
unfolding ece391_fdputs ece391_strlen
prompt-session answer s = refl

shell_loop-round :
    (answer : List ℕ → ℤ) (fuel : ℕ) (line : List ℕ) (lines ran : List (List ℕ)) (buf : List ℕ)
    → HasNoNul line
    → length line < 127
    → shell_loop (session answer) (suc fuel) (record { lines = line ∷ lines; ran = ran }) buf
      ≡ round answer fuel line (drop (suc (length line)) buf) (record { lines = lines; ran = ran })
unfolding shell_loop shell_count
shell_loop-round answer fuel line lines ran buf text short =
    let r = drop (suc (length line)) buf in
    rw
      (
        prompt-session answer (record { lines = line ∷ lines; ran = ran }),
        shell_loop,
        shell_count,
        set-newline line r,
      )
      (shell_command-round answer fuel line r (record { lines = lines; ran = ran }) text short)

-- The shell runs these commands and ends.
ShellEnds : (List ℕ → ℤ) → ℕ → List (List ℕ) → List (List ℕ) → List ℕ → Type 0
ShellEnds answer fuel lines ran buf =
    (s : Session) × (shell_loop (session answer) fuel (record { lines = lines; ran = ran }) buf
      ≡ exits 0 s)
    × (s.ran ≡ ran ++ commands lines)

same-exit : (line : List ℕ) → same line (codes "exit") ≡ false → line ≢ codes "exit"
same-exit line differ e = absurd (let no = rw e at differ in ground (arith, no))

typed_behind :
    (line : List ℕ) (lines : List (List ℕ))
    → same line (codes "exit") ≡ false
    → (line ≡ codes "exit") ⊎ IsTyped lines
    → IsTyped lines
typed_behind line lines differ (inl e) = absurd (same-exit line differ e)
typed_behind line lines differ (inr h) = h

shell_loop-ShellEnds :
    (answer : List ℕ → ℤ) (fuel : ℕ) (lines ran : List (List ℕ)) (buf : List ℕ)
    → IsTyped lines
    → length lines ≤ fuel
    → ShellEnds answer fuel lines ran buf
unfolding ShellEnds round
shell_loop-ShellEnds answer fuel [] ran buf typed enough = absurd typed
shell_loop-ShellEnds answer zero (line ∷ lines) ran buf typed enough = absurd (omega arith)
shell_loop-ShellEnds answer (suc fuel) (line ∷ lines) ran buf (text, short, more) enough =
    let runs = shell_loop-round answer fuel line lines ran buf text short in
    let buf' = line ++ (0 ∷ drop (suc (length line)) buf) in
    elim (Bool-cases (same line (codes "exit"))) [
      | inl ends ↦
          (record { lines = lines; ran = ran }, rw ends at runs, rw ends (sym (append-nil ran)))
      | inr goes ↦ elim (Bool-cases (length line == 0)) [
        | inl empty ↦
            (let (s, loops, ran_all) =
                shell_loop-ShellEnds answer fuel lines ran buf' (typed_behind line lines goes more)
                  (omega arith) in
              (s, rw (goes, empty) at runs ∙ loops, rw (goes, empty) ran_all))
        | inr some_command ↦
            (let (s, loops, ran_all) =
                shell_loop-ShellEnds answer fuel lines (ran ++ (line ∷ [])) buf'
                  (typed_behind line lines goes more) (omega arith) in
              (
                s,
                rw (goes, some_command) at runs ∙ loops,
                rw (goes, some_command) (ran_all ∙ append_assoc ran (line ∷ []) (commands lines)),
              ))
      ]
    ]

-- When lines are typed, each of at most 126 characters and without a NUL up to a line "exit", and a
-- read gives the next line with a newline behind it, the shell comes to an end with status 0 in at
-- most as many rounds as there are lines, and has called execute with exactly the lines before the
-- first "exit" that are not empty, in their order and each once, whatever the calls return.
pub shell-commands :
    (answer : List ℕ → ℤ) (fuel : ℕ) (lines : List (List ℕ)) (buf : List ℕ)
    → IsTyped lines
    → length lines ≤ fuel
    → (s : Session) × (shell (session answer) fuel (record { lines = lines; ran = [] }) buf
        ≡ exits 0 s)
      × (s.ran ≡ commands lines)
unfolding shell ShellEnds ece391_fdputs ece391_strlen
shell-commands answer fuel lines buf typed enough =
    shell_loop-ShellEnds answer fuel lines [] buf typed enough
