-- ===== src/Terminals/Write.antt =====
-- write_terminal of student-distrib/devices/keyboard.c: the text of a process, in the foreground or
-- in the background.
use snoop_diggity_d_os.Prelude.{
  ℕ, suc, ◌+◌, ◌/◌, ◌<◌, ◌≤◌, ◌≡◌, ◌≢◌, refl, sym, List, some, arith, pos,
}
use snoop_diggity_d_os.Strings.{c_string}
use snoop_diggity_d_os.Strings.Compare.{IsReadable}
use snoop_diggity_d_os.Pids.{is_pid_used}
use snoop_diggity_d_os.Screen.{Screen, put_t, set_cursor_location}
use snoop_diggity_d_os.Screen.Put.{put_all, put_t-put_all}
use snoop_diggity_d_os.Screen.Put as Put
use snoop_diggity_d_os.Terminals.{
  State, save_cursor, page_offset, through, Written, write_locked, write_terminal, after_put,
}
use snoop_diggity_d_os.Terminals.Display.{home, content, cursor_x, cursor_y, IsSame, IsValid}

-- A terminal as a screen of its own.
abbrev pub view : State → ℕ → Screen
view s t = record {
  x = cursor_x s t;
  y = cursor_y s t;
  attribute = s.screen.attribute;
  mem = through (home s t) s.screen.mem;
}

-- Terminal `t` shows the screen `p`.
pub record Shows (s : State) (t : ℕ) (p : Screen) : Type 0 where
  pub bytes : (j : ℕ) → j < 4096 → content s t j ≡ p.mem j
  pub x : cursor_x s t ≡ p.x
  pub y : cursor_y s t ≡ p.y

-- write_terminal's state after put_t has made `p` of the screen of the terminal being serviced
abbrev shown_after : State → Screen → State
shown_after s p = after_put s (home s s.terminal_being_serviced) p

-- A process in use writes to the page of the terminal that owns it.
pub page_of :
    (s : State) (pid t : ℕ)
    → IsValid s
    → pid < 6
    → is_pid_used s.pid_avail (pos pid) ≢ 0
    → s.owned_by_terminal pid ≡ t
    → page_offset (s.tables pid) ≡ home s t
page_of s pid t v h used own =
    let at : s.tables pid 184 / 4096 ≡ 184 + home s t / 4096 = rw (sym own) (v.mapped pid h used) in
    ground arith

write_locked-some :
    (s : State) (pid n k : ℕ) (buf : List ℕ) (p : Screen)
    → page_offset (s.tables pid) ≡ home s s.terminal_being_serviced
    → put_t (view s s.terminal_being_serviced) buf n ≡ some (p, k)
    → write_locked s pid buf n
      ≡ some (
        shown_after s p,
        set_cursor_location (shown_after s p).screen.x (shown_after s p).screen.y,
      )
unfolding write_locked
write_locked-some s pid n k buf p page put =
    let own =
      save_cursor s.terminals s.terminal_state s.screen.x s.screen.y s.terminal_being_serviced in
    let x : own.screen_x ≡ cursor_x s s.terminal_being_serviced = ground arith in
    let y : own.screen_y ≡ cursor_y s s.terminal_being_serviced = ground arith in
    rw (page, x, y, put, write_locked, page) refl

shown_after-Shows : (s : State) (p : Screen) → Shows (shown_after s p) s.terminal_being_serviced p
shown_after-Shows s p = record { bytes = λ j h. ground arith; x = ground arith; y = ground arith }

shown_after-IsSame :
    (s : State) (p : Screen) (t : ℕ)
    → t ≢ s.terminal_being_serviced
    → ((j : ℕ) → 4000 ≤ j → p.mem j ≡ through (home s s.terminal_being_serviced) s.screen.mem j)
    → IsSame s (shown_after s p) t
shown_after-IsSame s p t ne frame = record {
  bytes = λ j h. ground (arith, frame (home s t + j));
  x = ground arith;
  y = ground arith;
}

-- A process in use that is owned by the terminal being serviced writes `nbytes` bytes of a readable
-- string, with the page tables as IsValid says and that terminal's cursor on the screen: the call
-- returns `nbytes`, that terminal then shows its text with the characters up to a NUL put after it, whether it is in
-- the foreground or not, every other terminal keeps its text and cursor, and the page tables stay valid.
pub write_terminal-Shows :
    (s : State) (pid nbytes t : ℕ) (buf : List ℕ)
    → IsValid s
    → pid < 6
    → is_pid_used s.pid_avail (pos pid) ≢ 0
    → s.owned_by_terminal pid ≡ s.terminal_being_serviced
    → Put.IsValid (view s s.terminal_being_serviced)
    → IsReadable (suc nbytes) buf
    → t ≢ s.terminal_being_serviced
    → (w : Written) × (write_terminal s pid (pos 1) buf (pos nbytes) ≡ some w)
      × (w.ret ≡ pos nbytes)
      × Shows w.state s.terminal_being_serviced
          (put_all (view s s.terminal_being_serviced) (c_string nbytes buf))
      × IsSame s w.state t
      × IsValid w.state
unfolding write_terminal
write_terminal-Shows s pid nbytes t buf v h used own cursor r ne =
    let p = put_all (view s s.terminal_being_serviced) (c_string nbytes buf) in
    let (run, valid, frame) =
      put_t-put_all (view s s.terminal_being_serviced) buf nbytes cursor r in
    let after = write_locked-some s pid nbytes _ buf p (page_of s pid _ v h used own) run in
    (
      record {
        state = shown_after s p;
        writes = set_cursor_location (shown_after s p).screen.x (shown_after s p).screen.y;
        ret = pos nbytes;
      },
      rw (after, write_terminal) refl,
      refl,
      shown_after-Shows s p,
      shown_after-IsSame s p t ne frame,
      record { shown = v.shown; owned = v.owned; mapped = v.mapped },
    )
