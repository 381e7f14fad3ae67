-- ===== src/Tests/Terminals.antt =====
-- The terminals and the scheduler.
use snoop_diggity_d_os.Prelude.{
  ℕ, ◌+◌, ◌*◌, ◌≡◌, ◌≢◌, refl, [], ◌∷◌, some, ◌==◌, ◌||◌, ◌%◌, not, if◌then◌else◌, arith, inl, inr,
  pos, Bool-cases,
}
use snoop_diggity_d_os.Strings.{c_string}
use snoop_diggity_d_os.Pids.{is_pid_used}
use snoop_diggity_d_os.Screen.Put.{put_all}
use snoop_diggity_d_os.Keyboard.{init_terminal}
use snoop_diggity_d_os.Scheduler.{
  Cpu, Context, launched, pcb_address, stack_top, save_and_switch_process_context,
}
use snoop_diggity_d_os.Scheduler.Switch.{switch_back}
use snoop_diggity_d_os.Terminals.{State, Written, change_terminal_state, write_terminal}
use snoop_diggity_d_os.Terminals.Display.{IsSame, IsValid}
use snoop_diggity_d_os.Terminals.Change.{change_terminal_state-IsSame}
use snoop_diggity_d_os.Terminals.Write.{view, Shows, write_terminal-Shows}
use snoop_diggity_d_os.Terminals.Keys.{Pressed, Driver, Handled, alt_key, process_sent_scancode}
use snoop_diggity_d_os.Terminals.Keys.Alt.{IsSteady, end_state}
use snoop_diggity_d_os.Terminals.Keys.Total.{process_sent_scancode-IsSteady}
use snoop_diggity_d_os.Terminals.Keys.Switch.{is_start, alt_key-switch}

-- Terminal 0 is shown, with process 0; process 1 runs in terminal 1, which is being serviced.
abbrev pub two_terminals : State
two_terminals = record {
  terminal_state = 0;
  terminals_launched = 3;
  terminal_being_serviced = 1;
  screen = record { x = 4; y = 2; attribute = 7; mem = λ j. j % 256 };
  terminals = λ t. record { screen_x = 0; screen_y = t; line = init_terminal; pid = t };
  tables = λ i e. if i == 1 then 186 * 4096 + 7 else 184 * 4096 + 7;
  owned_by_terminal = λ i. if i == 1 then 1 else 0;
  pid_avail = 3;
}

two_terminals-IsValid : IsValid two_terminals
two_terminals-IsValid = record {
  shown = omega arith;
  owned = λ i h. ground arith;
  mapped = λ i h used. elim (Bool-cases (i == 1)) [ inl e ↦ rw e refl | inr n ↦ rw n refl ];
}

two_terminals-IsSteady : IsSteady two_terminals
unfolding init_terminal
two_terminals-IsSteady = record {
  valid = two_terminals-IsValid;
  lines = λ t h. record { inside = omega arith; ended = refl };
}

change_terminal_state-IsSame_example :
    IsSame two_terminals (change_terminal_state two_terminals 0 1).0 2
change_terminal_state-IsSame_example =
    change_terminal_state-IsSame two_terminals 1 2 (λ e. absurd (omega arith)) (omega arith)
      (omega arith) (omega arith)

first_used : is_pid_used 3 (pos 0) ≢ 0
unfolding is_pid_used
first_used e = absurd (omega arith)

second_used : is_pid_used 3 (pos 1) ≢ 0
unfolding is_pid_used
second_used e = absurd (omega arith)

-- "hi"
write_terminal-Shows_example :
    (w : Written) × (write_terminal two_terminals 1 (pos 1) (104 ∷ 105 ∷ 0 ∷ []) (pos 2) ≡ some w)
    × (w.ret ≡ pos 2)
    × Shows w.state 1 (put_all (view two_terminals 1) (c_string 2 (104 ∷ 105 ∷ 0 ∷ [])))
    × IsSame two_terminals w.state 0
    × IsValid w.state
write_terminal-Shows_example =
    write_terminal-Shows two_terminals 1 2 0 (104 ∷ 105 ∷ 0 ∷ []) two_terminals-IsValid
      (omega arith) second_used refl (record { in_cols = omega arith; in_rows = omega arith })
      (inr (inr (inl refl))) (λ e. absurd (omega arith))

abbrev keyboard : Driver
keyboard = record {
  keyboard_state = 0x40;
  curr_attribute = 15;
  curr_back_attribute = 2;
  terminals = two_terminals;
}

-- F2 under ALT
process_sent_scancode-IsSteady_example :
    (h : Handled) × (process_sent_scancode keyboard 0x3C ≡ some h) × IsSteady h.driver.terminals
process_sent_scancode-IsSteady_example =
    process_sent_scancode-IsSteady keyboard 0x3C two_terminals-IsSteady

-- the third terminal is started
alt_key-switch_example :
    (e : Pressed) × (alt_key two_terminals (14 + 2 * 2) ≡ some e)
    × IsSame two_terminals (end_state e) 1
    × ((end_state e).terminal_state ≡ 2)
    × (is_start e ≡ not (launched 3 2))
    × (launched (end_state e).terminals_launched 1 ≡ (1 == 2 || launched 3 1))
alt_key-switch_example =
    alt_key-switch two_terminals 2 1 two_terminals-IsSteady (omega arith) (omega arith)
      (omega arith) (omega arith) (omega arith) (λ e. absurd (omega arith)) refl

abbrev first_cpu : Cpu
first_cpu = record {
  eip = 0x400010;
  esp = 0x7FFF00;
  ebp = 0x7FFF40;
  eflags = 0x202;
  directory = 0;
  esp0 = stack_top 0;
}

abbrev second_cpu : Cpu
second_cpu = record {
  eip = 0x400020;
  esp = 0x7FDF00;
  ebp = 0x7FDF40;
  eflags = 0x202;
  directory = 1;
  esp0 = stack_top 1;
}

abbrev blocks : ℕ → Context
blocks _ = record { eip = 0x400030; esp_k = 0x7FDF80; ebp_k = 0x7FDFC0; eflags = 0x202 }

switch_back_example :
    let away = save_and_switch_process_context 0x400040 first_cpu blocks 1 in
    let back = save_and_switch_process_context 0x400040 second_cpu away.1 0 in
    (back.0 ≡ record first_cpu { eip = 0x400040 })
    × ((a : ℕ) → a ≢ pcb_address 0 → a ≢ pcb_address 1 → back.1 a ≡ blocks a)
switch_back_example =
    switch_back 0x400040 first_cpu second_cpu blocks 0 1 (omega arith) (omega arith)
      (λ e. absurd (omega arith)) (omega arith) refl refl refl
