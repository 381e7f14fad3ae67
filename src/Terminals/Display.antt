-- ===== src/Terminals/Display.antt =====
-- What a user sees of each terminal of student-distrib/devices/keyboard.c, whether it is shown or
-- in the background.
use snoop_diggity_d_os.Prelude.{ℕ, ◌+◌, ◌*◌, ◌/◌, ◌<◌, ◌≡◌, ◌≢◌, ◌==◌, if◌then◌else◌, pos}
use snoop_diggity_d_os.Pids.{is_pid_used}
use snoop_diggity_d_os.Terminals.{State}

-- The offset of a terminal's page: the shown one is at VIDEO, the others have their backing pages.
abbrev pub home : State → ℕ → ℕ
home s t = if t == s.terminal_state then 0 else (t + 1) * 4096

-- Byte `j` of a terminal's page, and its cursor.
abbrev pub content : State → ℕ → ℕ → ℕ
content s t j = s.screen.mem (home s t + j)

abbrev pub cursor_x : State → ℕ → ℕ
cursor_x s t = if t == s.terminal_state then s.screen.x else (s.terminals t).screen_x

abbrev pub cursor_y : State → ℕ → ℕ
cursor_y s t = if t == s.terminal_state then s.screen.y else (s.terminals t).screen_y

-- Both states show the same in terminal `t`.
pub record IsSame (s s' : State) (t : ℕ) : Type 0 where
  pub bytes : (j : ℕ) → j < 4096 → content s' t j ≡ content s t j
  pub x : cursor_x s' t ≡ cursor_x s t
  pub y : cursor_y s' t ≡ cursor_y s t

-- Every process in use writes to the page of the terminal that owns it.
pub record IsValid (s : State) : Type 0 where
  pub shown : s.terminal_state < 3
  pub owned : (i : ℕ) → i < 6 → s.owned_by_terminal i < 3
  pub mapped :
      (i : ℕ)
      → i < 6
      → is_pid_used s.pid_avail (pos i) ≢ 0
      → s.tables i 184 / 4096 ≡ 184 + home s (s.owned_by_terminal i) / 4096
