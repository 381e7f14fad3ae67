-- ===== src/Terminals/Keys/Switch.antt =====
-- Alt with F2 and F3 in student-distrib/devices/keyboard.c: the second and the third terminal.
use snoop_diggity_d_os.Prelude.{
  ℕ, ◌+◌, ◌*◌, ◌^◌, ◌%◌, ◌<◌, ◌≡◌, ◌≢◌, refl, ◌∙◌, ==→eq, some, Bool, true, false, ◌==◌, ◌||◌, ◌&&◌,
  not, if◌then◌else◌, arith, Bool-cases, inl, inr, bit_and, bit_or, is_neg,
}
use snoop_diggity_d_os.Prelude.Tables.{all_below, all_below_sound, agree_below, agree_below_sound}
use snoop_diggity_d_os.Pids.{get_available_pid, scan_pids}
use snoop_diggity_d_os.Scheduler.{launched}
use snoop_diggity_d_os.Terminals.{State, change_terminal_state}
use snoop_diggity_d_os.Terminals.Display.{IsSame}
use snoop_diggity_d_os.Terminals.Change.{change_terminal_state-IsSame}
use snoop_diggity_d_os.Terminals.Keys.{
  Pressed, returns, starts_shell, can_switch, start_terminal, second_or_third, alt_key,
}
use snoop_diggity_d_os.Terminals.Keys.Alt.{IsSteady, end_state}

-- Whether the key is to start a shell.
abbrev pub is_start : Pressed → Bool
is_start (returns s writes) = false
is_start (starts_shell s writes) = true

full_word_table : agree_below 64 (λ w. is_neg (get_available_pid w)) (λ w. w == 63) ≡ true
unfolding all_below get_available_pid scan_pids
full_word_table = refl

full_word : (w : ℕ) → w < 64 → is_neg (get_available_pid w) ≡ (w == 63)
full_word w h =
    agree_below_sound 64 (λ w. is_neg (get_available_pid w)) (λ w. w == 63) w full_word_table h

launched_bit_table :
    all_below 8 (λ w. agree_below 3 (launched w) (λ to. not (bit_and w (2 ^ to) == 0))) ≡ true
unfolding all_below
launched_bit_table = refl

launched_bit : (w to : ℕ) → w < 8 → to < 3 → launched w to ≡ not (bit_and w (2 ^ to) == 0)
launched_bit w to hw ht =
    let row =
      all_below_sound 8 (λ w. agree_below 3 (launched w) (λ to. not (bit_and w (2 ^ to) == 0))) w
        launched_bit_table hw in
    agree_below_sound 3 (launched w) (λ to. not (bit_and w (2 ^ to) == 0)) to row ht

abbrev same_bits : ℕ → ℕ → Bool
same_bits w to = agree_below 3 (launched (bit_or w (2 ^ to) % 256)) (λ t. t == to || launched w t)

launch_bit_table : all_below 8 (λ w. all_below 3 (same_bits w)) ≡ true
unfolding all_below
launch_bit_table = refl

-- After the bit of a terminal is set, that terminal is launched and the others are as before.
launch_bit :
    (w to t : ℕ)
    → w < 8
    → to < 3
    → t < 3
    → launched (bit_or w (2 ^ to) % 256) t ≡ (t == to || launched w t)
launch_bit w to t hw hto ht =
    let row = all_below_sound 8 (λ w. all_below 3 (same_bits w)) w launch_bit_table hw in
    let column = all_below_sound 3 (same_bits w) to row hto in
    agree_below_sound 3 (launched (bit_or w (2 ^ to) % 256)) (λ t. t == to || launched w t) t column
      ht

can_switch_lem :
    (s : State) (to : ℕ)
    → s.terminals_launched < 8
    → s.pid_avail < 64
    → to < 3
    → can_switch s (2 ^ to) to ≡ (
        (launched s.terminals_launched to || not (s.pid_avail == 63))
        && not (s.terminal_state == to))
unfolding can_switch
can_switch_lem s to hl hp h =
    rw (full_word s.pid_avail hp, ← launched_bit s.terminals_launched to hl h) (ground arith)

alt_run :
    (s : State) (to : ℕ) → 0 < to → to < 3 → alt_key s (14 + 2 * to) ≡ second_or_third s (2 ^ to) to
unfolding alt_key
alt_run s to low h = elim (Bool-cases (to == 1)) [
  | inl one ↦ (let e : to ≡ 1 = ==→eq to 1 one in rw e refl)
  | inr more ↦ (let e : to ≡ 2 = ground arith in rw e refl)
]

second_or_third_run :
    (s : State) (mask to : ℕ)
    → can_switch s mask to ≡ true
    → second_or_third s mask to
      ≡ some (
          if bit_and s.terminals_launched mask == 0
          then start_terminal
              (change_terminal_state s s.terminal_state to).0
              mask
              (change_terminal_state s s.terminal_state to).1
          else returns
              (change_terminal_state s s.terminal_state to).0
              (change_terminal_state s s.terminal_state to).1)
unfolding second_or_third change_terminal_state
second_or_third_run s mask to can = rw can refl

after_switch :
    (s : State) (to : ℕ)
    → let s' = (change_terminal_state s s.terminal_state to).0 in
      (s'.terminal_state ≡ to) × (s'.terminals_launched ≡ s.terminals_launched)
unfolding change_terminal_state
after_switch s to = (refl, refl)

-- From a steady state, alt with F2 (`to` is 1) or F3 (2), where that terminal is not shown and is
-- launched or can be since a pid is free, comes to an end with that terminal shown and the text and
-- the cursor of every terminal kept; it ends by starting a shell exactly when the terminal was not
-- launched, and the terminal then counts as launched, beside those that were.
pub alt_key-switch :
    (s : State) (to t : ℕ)
    → IsSteady s
    → s.terminals_launched < 8
    → s.pid_avail < 64
    → 0 < to
    → to < 3
    → t < 3
    → to ≢ s.terminal_state
    → (launched s.terminals_launched to || not (s.pid_avail == 63)) ≡ true
    → (e : Pressed) × (alt_key s (14 + 2 * to) ≡ some e)
      × IsSame s (end_state e) t
      × ((end_state e).terminal_state ≡ to)
      × (is_start e ≡ not (launched s.terminals_launched to))
      × (launched (end_state e).terminals_launched t ≡ (t == to || launched s.terminals_launched t))
alt_key-switch s to t v hl hp low h ht ne can =
    let possible : can_switch s (2 ^ to) to ≡ true =
      rw (can_switch_lem s to hl hp h) (ground arith) in
    let (s', writes) = change_terminal_state s s.terminal_state to in
    let (shown, kept) = after_switch s to in
    let same = change_terminal_state-IsSame s to t ne v.valid.shown h ht in
    let bit = launched_bit s.terminals_launched to hl h in
    let run = alt_run s to low h ∙ second_or_third_run s (2 ^ to) to possible in
    elim (Bool-cases (launched s.terminals_launched to)) [
      | inl old ↦
          let was_set : (bit_and s.terminals_launched (2 ^ to) == 0) ≡ false =
            ground (arith, bit) in
          (
            returns s' writes,
            rw (run, was_set) refl,
            same,
            shown,
            rw old refl,
            rw kept (elim (Bool-cases (t == to)) [
              | inl it ↦ rw (it, ==→eq t to it, old) refl
              | inr other ↦ rw other refl
            ]),
          )
      | inr new ↦
          let was_clear : (bit_and s.terminals_launched (2 ^ to) == 0) ≡ true =
            ground (arith, bit) in
          (
            start_terminal s' (2 ^ to) writes,
            rw (run, was_clear) refl,
            record { bytes = same.bytes; x = same.x; y = same.y },
            shown,
            rw new refl,
            rw kept (launch_bit s.terminals_launched to t hl h ht),
          )
    ]
