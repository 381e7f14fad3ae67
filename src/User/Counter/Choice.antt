-- ===== src/User/Counter/Choice.antt =====
-- main of syscalls/ece391counter.c, from the choice that is typed to the numbers.
use snoop_diggity_d_os.Prelude.{
  ℕ, zero, suc, ◌+◌, ◌^◌, true, ◌<◌, ◌≤◌, ◌≡◌, refl, List, ◌∷◌, ◌++◌, some, pos, arith, codes,
  get_or, ◌==◌, false,
}
use snoop_diggity_d_os.Fs.{Image}
use snoop_diggity_d_os.Descriptors.{terminal_table, in_use}
use snoop_diggity_d_os.User.{exits, ece391_strlen, literal}
use snoop_diggity_d_os.User.Access.{dispatch-table}
use snoop_diggity_d_os.User.Kernel.{Drivers, Process, kernel, sys_read, r_func}
use snoop_diggity_d_os.User.Counter.{counter, counter_choice, max_for, wrong_choice}
use snoop_diggity_d_os.User.Counter.Counts.{
  IsCount, HasStdout, CountEnds, count_loop-CountEnds, fdputs-stdout,
}

-- How far the three tests count.
abbrev pub limit : ℕ → ℕ
limit zero = 100
limit (suc zero) = 10000
limit (suc (suc n)) = 100000

-- the process once its question is shown
abbrev pub asked : Process → Process
asked p = record p {
  shown = p.shown ++ codes "Enter the Test Number: (0): 100, (1): 10000, (2): 100000\n";
}

max_for-limit : (choice : ℕ) → choice < 3 → max_for (b'0' + choice) ≡ limit choice
max_for-limit zero h = refl
max_for-limit (suc zero) h = refl
max_for-limit (suc (suc zero)) h = refl
max_for-limit (suc (suc (suc n))) h = absurd (omega arith)

limit-small : (choice : ℕ) → 0 + limit choice < 2 ^ 32
limit-small zero = omega arith
limit-small (suc zero) = omega arith
limit-small (suc (suc n)) = omega arith

question :
    ece391_strlen (literal "Enter the Test Number: (0): 100, (1): 10000, (2): 100000\n") ≡ some 57
unfolding ece391_strlen
question = refl

strlen-choice : (c : ℕ) (r : List ℕ) → 48 ≤ c → ece391_strlen (c ∷ (b'\n' ∷ (0 ∷ r))) ≡ some 2
unfolding ece391_strlen
strlen-choice c r h = (let some_byte : (c == 0) ≡ false = ground (arith, h) in rw some_byte refl)

right_choice : (c : ℕ) (r : List ℕ) → 48 ≤ c → c ≤ 50 → wrong_choice 2 (c ∷ r) ≡ false
right_choice c r low high = ground arith

counter_choice-counts :
    (img : Image) (base : ℕ) (drivers : Drivers) (choice x : ℕ) (r : List ℕ) (p : Process)
    → HasStdout p
    → choice < 3
    → (p' : Process) × (text : List ℕ) × (counter_choice
          (kernel img base drivers)
          p
          (pos 2)
          ((b'0' + choice) ∷ (b'\n' ∷ (x ∷ r)))
        ≡ exits 0 p')
      × (p'.shown ≡ p.shown ++ text)
      × IsCount (limit choice) 0 text
unfolding counter_choice CountEnds
counter_choice-counts img base drivers choice x r p v small =
    let c = b'0' + choice in
    let buf = c ∷ (b'\n' ∷ (0 ∷ r)) in
    let (p', text, loops, shows, counts) =
      count_loop-CountEnds img base drivers (limit choice) 0 (λ i. get_or buf i 0) p v
        (limit-small choice) in
    (
      p',
      text,
      rw
          (
            counter_choice,
            strlen-choice c r (omega arith),
            right_choice c (b'\n' ∷ (0 ∷ r)) (omega arith) (omega arith),
            max_for-limit choice small,
          )
          loops,
      shows,
      counts,
    )

-- The counter asks its question, and 0, 1 or 2 and enter are typed: the read from the keyboard gives
-- these two characters, and leaves a process that can write on its terminal. Then the counter shows
-- the decimal numerals, without leading zeros, of 1 to 100, to 10000 or to 100000, in order, each on
-- a line of its own, and ends with status 0.
pub counter-counts :
    (img : Image) (base : ℕ) (drivers : Drivers) (choice x : ℕ) (buf r : List ℕ) (p p₂ : Process)
    → HasStdout p
    → in_use (p.files 0) ≡ true
    → (p.files 0).fops_jmp_table ≡ terminal_table
    → choice < 3
    → drivers.read_terminal (asked p) buf 1023
      ≡ some (pos 2, (b'0' + choice) ∷ (b'\n' ∷ (x ∷ r)), p₂)
    → HasStdout p₂
    → (p' : Process) × (text : List ℕ) × (counter (kernel img base drivers) p buf ≡ exits 0 p')
      × (p'.shown ≡ p₂.shown ++ text)
      × IsCount (limit choice) 0 text
unfolding counter sys_read r_func
counter-counts img base drivers choice x buf r p p₂ v used table small typed v₂ =
    let asks = fdputs-stdout img base drivers 57 _ p v question in
    let reads =
      dispatch-table p.files 0 p.place terminal_table v.page (omega arith) used table
        (λ e. ground (arith, e)) in
    let (p', text, runs, shows, counts) =
      counter_choice-counts img base drivers choice x r p₂ v₂ small in
    (p', text, rw (asks, counter, sys_read, reads, r_func, typed) runs, shows, counts)
