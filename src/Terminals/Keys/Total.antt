-- ===== src/Terminals/Keys/Total.antt =====
-- A whole key press of student-distrib/devices/keyboard.c comes to an end and keeps the state of the
-- terminals in shape.
use snoop_diggity_d_os.Prelude.{
  elements, ℕ, ◌≡◌, refl, List, [], ◌++◌, some, ◌==◌, arith, Bool-cases, inl, inr, false,
}
use snoop_diggity_d_os.Pic.{PortWrite}
use snoop_diggity_d_os.Screen.{set_cursor_location}
use snoop_diggity_d_os.Scancodes.{Scancode, scancode_table, is_make_sc}
use snoop_diggity_d_os.Keyboard.{Console, update_keyboard_state, is_on, alt_mask, control_mask}
use snoop_diggity_d_os.Keyboard.Line.{edit_line-IsLine}
use snoop_diggity_d_os.Terminals.{State}
use snoop_diggity_d_os.Terminals.Keys.{
  Pressed, returns, starts_shell, Driver, Handled, prompt, clear_shortcut, after_clear,
  next_attribute, next_back_attribute, recoloured, control_key, line_key, of_pressed,
  process_sent_scancode,
}
use snoop_diggity_d_os.Terminals.Output.{on_page}
use snoop_diggity_d_os.Terminals.Keys.Alt.{IsSteady, Keeps→IsSteady, end_state, alt_key-IsSteady}
use snoop_diggity_d_os.Terminals.Keys.Keeps.{
  Keeps, print_text-Keeps, has_nul-IsTerminated, print_string-Keeps, elements-IsTerminated,
}

clear_shortcut-IsSteady :
    (s : State)
    → IsSteady s
    → (r : State × List PortWrite) × (clear_shortcut s ≡ some r) × IsSteady r.0
unfolding clear_shortcut
clear_shortcut-IsSteady s v =
    let s₁ = after_clear s in
    let keeps : Keeps s s₁ = record {
      shown = refl;
      tables = refl;
      owned = refl;
      pids = refl;
      lines = λ t. ground arith;
    } in
    let v₁ = Keeps→IsSteady s s₁ keeps v in
    let (r, run, keeps₁) = print_text-Keeps s₁ prompt (has_nul-IsTerminated prompt refl) in
    let v₂ = Keeps→IsSteady s₁ r.0 keeps₁ v₁ in
    let line = (r.0.terminals r.0.terminal_state).line in
    let kept = v₂.lines r.0.terminal_state v₂.valid.shown in
    let ended =
      elements-IsTerminated line.stdin 128 0 line.stdin_index (omega arith)
        (let i = kept.inside in omega arith) kept.ended in
    let (r', run', keeps₂) = print_string-Keeps r.0 (elements line.stdin 128 0) ended in
    let s₃ : State = record (r'.0) { terminal_being_serviced = s.terminal_being_serviced } in
    let same : Keeps r'.0 s₃ = record {
      shown = refl;
      tables = refl;
      owned = refl;
      pids = refl;
      lines = λ t. refl;
    } in
    (
      (s₃, set_cursor_location 0 0 ++ (r.1 ++ r'.1)),
      rw (clear_shortcut, run, run') refl,
      Keeps→IsSteady r'.0 s₃ same (Keeps→IsSteady r.0 r'.0 keeps₂ v₂),
    )

recoloured-IsSteady : (k : Driver) → IsSteady k.terminals → IsSteady (recoloured k)
recoloured-IsSteady k v =
    Keeps→IsSteady k.terminals (recoloured k)
      (record { shown = refl; tables = refl; owned = refl; pids = refl; lines = λ t. refl }) v

control_key-IsSteady :
    (k : Driver) (result : ℕ)
    → IsSteady k.terminals
    → (r : Driver × List PortWrite) × (control_key k result ≡ some r) × IsSteady r.0.terminals
unfolding control_key
control_key-IsSteady k result v = elim (Bool-cases (result == 108)) [
  | inl l ↦
      let (r, run, v') = clear_shortcut-IsSteady k.terminals v in
      ((record k { terminals = r.0 }, r.1), rw (l, run) refl, v')
  | inr not_l ↦ elim (Bool-cases (result == 54)) [
    | inl six ↦
        let k' : Driver = record k { curr_attribute = next_attribute k.curr_attribute } in
        (
          (record k' { terminals = recoloured k' }, []),
          rw (not_l, six) refl,
          recoloured-IsSteady k' v,
        )
    | inr not_six ↦ elim (Bool-cases (result == 55)) [
      | inl seven ↦
          let k' : Driver = record k {
            curr_back_attribute = next_back_attribute k.curr_back_attribute;
          } in
          (
            (record k' { terminals = recoloured k' }, []),
            rw (not_l, not_six, seven) refl,
            recoloured-IsSteady k' v,
          )
      | inr other ↦ ((k, []), rw (not_l, not_six, other) refl, v)
    ]
  ]
]

line_key-IsSteady :
    (s : State) (state : ℕ) (mapped : Scancode) → IsSteady s → IsSteady (line_key s state mapped).0
unfolding line_key
line_key-IsSteady s state mapped v =
    let own = s.terminals s.terminal_state in
    let k : Console = record { terminal = own.line; screen = on_page s s.screen; writes = [] } in
    record {
      valid = record { shown = v.valid.shown; owned = v.valid.owned; mapped = v.valid.mapped };
      lines = λ t h. elim (Bool-cases (t == s.terminal_state)) [
        | inl here ↦
            rw here (edit_line-IsLine k state mapped (v.lines s.terminal_state v.valid.shown))
        | inr there ↦ rw there (v.lines t h)
      ];
    }

of_pressed-IsSteady :
    (k : Driver) (e : Pressed) → IsSteady (end_state e) → IsSteady (of_pressed k e).driver.terminals
of_pressed-IsSteady k (returns s writes) v = v
of_pressed-IsSteady k (starts_shell s writes) v = v

-- Every byte that the keyboard sends, from a steady state, is handled to the end - in particular
-- put_t and strlen find the NUL of every text that is shown -, in a steady state.
pub process_sent_scancode-IsSteady :
    (k : Driver) (raw : ℕ)
    → IsSteady k.terminals
    → (h : Handled) × (process_sent_scancode k raw ≡ some h) × IsSteady h.driver.terminals
unfolding process_sent_scancode
process_sent_scancode-IsSteady k raw v =
    let state = update_keyboard_state k.keyboard_state raw in
    let mapped = scancode_table raw in
    let k₁ : Driver = record k { keyboard_state = state } in
    elim (Bool-cases (raw == 0x53)) [
      | inl ignored ↦ (record { driver = k; writes = []; shell = false }, rw ignored refl, v)
      | inr taken ↦ elim (Bool-cases (is_make_sc mapped)) [
        | inr release ↦
            (record { driver = k₁; writes = []; shell = false }, rw (taken, release) refl, v)
        | inl press ↦ elim (Bool-cases (is_on state alt_mask)) [
          | inl alt ↦
              let (e, run, v') = alt_key-IsSteady k.terminals mapped.result v in
              (of_pressed k₁ e, rw (taken, press, alt, run) refl, of_pressed-IsSteady k₁ e v')
          | inr no_alt ↦ elim (Bool-cases (is_on state control_mask)) [
            | inl control ↦
                let (r, run, v') = control_key-IsSteady k₁ mapped.result v in
                (
                  record { driver = r.0; writes = r.1; shell = false },
                  rw (taken, press, no_alt, control, run) refl,
                  v',
                )
            | inr no_control ↦
                let (s, writes) = line_key k.terminals state mapped in
                (
                  record { driver = record k₁ { terminals = s }; writes = writes; shell = false },
                  rw (taken, press, no_alt, no_control) refl,
                  line_key-IsSteady k.terminals state mapped v,
                )
          ]
        ]
      ]
    ]
