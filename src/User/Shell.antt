-- ===== src/User/Shell.antt =====
-- main of syscalls/ece391shell.c over the calls of User.
pub mod Session
pub mod Commands
use snoop_diggity_d_os.Prelude.{
  ℕ, zero, suc, List, Option, none, some, Bool, true, false, ℤ, pos, negsuc, ◌==◌, if◌then◌else◌,
  set, get_or,
}
use snoop_diggity_d_os.User.{
  Calls, Ends, exits, faults, runs_on, ece391_strcmp, ece391_fdputs, literal, complain,
}

abbrev pub is_zero : ℤ → Bool
is_zero (pos n) = n == 0
is_zero (negsuc n) = false

-- `if (cnt > 0 && '\n' == buf[cnt - 1]) cnt--`
abbrev pub trimmed : ℕ → List ℕ → ℕ
trimmed zero buf = 0
trimmed (suc n) buf = if get_or buf n 0 == b'\n' then n else suc n

module _ {W : Type 0} (sys : Calls W) where
  -- the messages on what execute returned
  unfoldable pub report : W → ℤ → Option W
  report w (negsuc zero) = ece391_fdputs sys w (pos 1) (literal "no such command\n")
  report w (negsuc (suc n)) =
      ece391_fdputs sys w (pos 1) (literal "program terminated abnormally\n")
  report w (pos n) =
      if n == 256
      then ece391_fdputs sys w (pos 1) (literal "program terminated by exception\n")
      else if n == 0
      then some w
      else ece391_fdputs sys w (pos 1) (literal "program terminated abnormally\n")

  -- the end of a round, with the rest of the loop
  unfoldable pub shell_run : (W → List ℕ → Ends W) → W → List ℕ → Ends W
  shell_run rest w buf = elim (sys.ece391_execute w buf) [
    | none ↦ faults
    | some (rval, w₁) ↦ elim (report w₁ rval) [ none ↦ faults | some w₂ ↦ rest w₂ buf ]
  ]

  -- a round of the loop from the first test of the command on
  unfoldable pub shell_command : (W → List ℕ → Ends W) → W → List ℕ → Ends W
  shell_command rest w buf = elim (ece391_strcmp buf (literal "exit")) [
    | none ↦ faults
    | some d ↦
        if is_zero d
        then exits 0 w
        else if get_or buf 0 0 == 0
        then rest w buf
        else shell_run rest w buf
  ]

  -- a round of the loop behind the read; a count below -1 would write in front of the array
  unfoldable pub shell_count : (W → List ℕ → Ends W) → W → ℤ → List ℕ → Ends W
  shell_count rest w (negsuc zero) buf = complain sys w "read from keyboard failed\n" 3
  shell_count rest w (negsuc (suc n)) buf = faults
  shell_count rest w (pos cnt) buf = shell_command rest w (set buf (trimmed cnt buf) 0)

  -- the loop
  unfoldable pub shell_loop : ℕ → W → List ℕ → Ends W
  shell_loop zero w buf = runs_on
  shell_loop (suc fuel) w buf = elim (ece391_fdputs sys w (pos 1) (literal "391OS> ")) [
    | none ↦ faults
    | some w₁ ↦ elim (sys.ece391_read w₁ (pos 0) buf 1023) [
      | none ↦ faults
      | some (cnt, buf', w₂) ↦ shell_count (λ w₃ buf₃. shell_loop fuel w₃ buf₃) w₂ cnt buf'
    ]
  ]

  -- main of ece391shell.c
  unfoldable pub shell : ℕ → W → List ℕ → Ends W
  shell fuel w buf = elim (ece391_fdputs sys w (pos 1) (literal "Starting 391 Shell\n")) [
    | none ↦ faults
    | some w₁ ↦ shell_loop fuel w₁ buf
  ]
