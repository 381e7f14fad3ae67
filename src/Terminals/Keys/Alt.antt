-- ===== src/Terminals/Keys/Alt.antt =====
-- The keys under ALT in student-distrib/devices/keyboard.c come to an end and keep the state of the
-- terminals in shape.
use snoop_diggity_d_os.Prelude.{
  ℕ, ◌<◌, ◌≡◌, ◌≢◌, refl, sym, [], ◌++◌, some, ◌==◌, arith, Bool-cases, inl, inr, true, bit_and,
}
use snoop_diggity_d_os.Keyboard.Line.{IsLine}
use snoop_diggity_d_os.Terminals.{State, change_terminal_state}
use snoop_diggity_d_os.Terminals.Display.{IsValid}
use snoop_diggity_d_os.Terminals.Change.{change_terminal_state-IsValid}
use snoop_diggity_d_os.Terminals.Keys.{
  Pressed, returns, starts_shell, no_process, prompt, can_switch, start_terminal, second_or_third,
  alt_key,
}
use snoop_diggity_d_os.Terminals.Keys.Keeps.{
  Keeps, Keeps→IsValid, print_text-Keeps, has_nul-IsTerminated,
}

-- Output goes to the right pages, and the line of every terminal is in its array with a NUL at its
-- end.
pub record IsSteady (s : State) : Type 0 where
  pub valid : IsValid s
  pub lines : (t : ℕ) → t < 3 → IsLine (s.terminals t).line

pub Keeps→IsSteady : (s s' : State) → Keeps s s' → IsSteady s → IsSteady s'
Keeps→IsSteady s s' k v = record {
  valid = Keeps→IsValid s s' k v.valid;
  lines = λ t h. rw (k.lines t) (v.lines t h);
}

change_terminal_state-IsSteady :
    (s : State) (to : ℕ)
    → to ≢ s.terminal_state
    → to < 3
    → IsSteady s
    → IsSteady (change_terminal_state s s.terminal_state to).0
unfolding change_terminal_state
change_terminal_state-IsSteady s to ne h v = record {
  valid = change_terminal_state-IsValid s to ne h v.valid;
  lines = λ t ht.
      (let same : ((change_terminal_state s s.terminal_state to).0.terminals t).line
            ≡ (s.terminals t).line =
          ground arith in
        rw same (v.lines t ht));
}

-- the state that a key under ALT leaves
abbrev pub end_state : Pressed → State
end_state (returns s writes) = s
end_state (starts_shell s writes) = s

second_or_third_ne : (s : State) (mask to : ℕ) → can_switch s mask to ≡ true → s.terminal_state ≢ to
unfolding can_switch
second_or_third_ne s mask to can e = absurd (ground arith)

second_or_third-IsSteady :
    (s : State) (mask to : ℕ)
    → to < 3
    → IsSteady s
    → (e : Pressed) × (second_or_third s mask to ≡ some e) × IsSteady (end_state e)
unfolding second_or_third
second_or_third-IsSteady s mask to h v = elim (Bool-cases (can_switch s mask to)) [
  | inl can ↦
      let to_ne : to ≢ s.terminal_state = λ e. absurd (second_or_third_ne s mask to can (sym e)) in
      let s' = (change_terminal_state s s.terminal_state to).0 in
      let writes = (change_terminal_state s s.terminal_state to).1 in
      let v' = change_terminal_state-IsSteady s to to_ne h v in
      elim (Bool-cases (bit_and s'.terminals_launched mask == 0)) [
        | inl new ↦ (
          start_terminal s' mask writes,
          rw (can, new) refl,
          Keeps→IsSteady s' (end_state (start_terminal s' mask writes))
              (record { shown = refl; tables = refl; owned = refl; pids = refl; lines = λ t. refl })
              v',
        )
        | inr old ↦ (returns s' writes, rw (can, old) refl, v')
      ]
  | inr cannot ↦ elim (Bool-cases (s.terminal_state == to)) [
    | inl same ↦ (returns s [], rw (cannot, same) refl, v)
    | inr other ↦
        let (r, run, keeps) =
          print_text-Keeps s no_process (has_nul-IsTerminated no_process refl) in
        let (r', run', keeps') = print_text-Keeps r.0 prompt (has_nul-IsTerminated prompt refl) in
        (
          returns r'.0 (r.1 ++ r'.1),
          rw (cannot, other, run, run') refl,
          Keeps→IsSteady r.0 r'.0 keeps' (Keeps→IsSteady s r.0 keeps v),
        )
  ]
]

-- From a steady state each key under ALT comes to an end, in a steady state.
pub alt_key-IsSteady :
    (s : State) (result : ℕ)
    → IsSteady s
    → (e : Pressed) × (alt_key s result ≡ some e) × IsSteady (end_state e)
unfolding alt_key
alt_key-IsSteady s result v = elim (Bool-cases (result == 14)) [
  | inl one ↦ elim (Bool-cases (s.terminal_state == 0)) [
    | inl here ↦ (returns s [], rw (one, here) refl, v)
    | inr away ↦
        let (s', writes) = change_terminal_state s s.terminal_state 0 in
        (
          returns s' writes,
          rw (one, away) refl,
          change_terminal_state-IsSteady s 0 (λ e. absurd (ground arith)) (omega arith) v,
        )
  ]
  | inr not_one ↦ elim (Bool-cases (result == 16)) [
    | inl two ↦ rw (not_one, two) (second_or_third-IsSteady s 2 1 (omega arith) v)
    | inr not_two ↦ elim (Bool-cases (result == 18)) [
      | inl three ↦ rw (not_one, not_two, three) (second_or_third-IsSteady s 4 2 (omega arith) v)
      | inr other ↦ (returns s [], rw (not_one, not_two, other) refl, v)
    ]
  ]
]
