-- ===== src/Terminals.antt =====
-- The three terminals of student-distrib/devices/keyboard.c: which one is shown, where the output of
-- a process goes, and the switch between them. The video memory is a function on offsets from VIDEO:
-- the page that is shown, and behind it a backing page of 4 KB for each terminal. The kernel writes
-- through the page table of the running process, whose entry for VIDEO says which page that is.
pub mod Display
pub mod Change
pub mod Write
pub mod Output
pub mod Keys
use snoop_diggity_d_os.Prelude.{
  ℕ, zero, suc, ◌+◌, ◌-◌, ◌*◌, ◌/◌, ◌%◌, ◌^◌, List, [], ◌∷◌, Option, none, some, Bool, true, false,
  ◌&&◌, ◌||◌, not, ltb, leb, ◌==◌, if◌then◌else◌, update, bit_and, bit_or, ℤ, pos, negsuc, failure,
  is_neg,
}
use snoop_diggity_d_os.Prelude.Tables.{for_range}
use snoop_diggity_d_os.Screen.{Screen, put_t, set_cursor_location, change_atribute, clear_and_reset}
use snoop_diggity_d_os.Pic.{PortWrite}
use snoop_diggity_d_os.Paging.{Table, change_table_mapping, video}
use snoop_diggity_d_os.Pids.{is_pid_used, get_available_pid}
use snoop_diggity_d_os.Keyboard.{Terminal}

-- terminal_t, with its line as Keyboard.Terminal
pub record Slot : Type 0 where
  pub screen_x : ℕ
  pub screen_y : ℕ
  pub line : Terminal
  pub pid : ℕ

-- The state of the terminals, with what the kernel keeps for them elsewhere: the cursor and the
-- memory of the screen, the page tables and the owners of the processes, and the word of pids.
pub record State : Type 0 where
  pub terminal_state : ℕ
  pub terminals_launched : ℕ
  pub terminal_being_serviced : ℕ
  pub screen : Screen
  pub terminals : ℕ → Slot
  pub tables : ℕ → Table
  pub owned_by_terminal : ℕ → ℕ
  pub pid_avail : ℕ

-- memcpy on the video memory, for areas apart from each other
unfoldable pub memcpy : (ℕ → ℕ) → ℕ → ℕ → ℕ → ℕ → ℕ
memcpy mem dest src n j = if leb dest j && ltb j (dest + n) then mem (src + (j - dest)) else mem j

-- the body of the loop of change_terminal_state over the processes
unfoldable pub remap : (ℕ → ℕ) → ℕ → ℕ → ℕ → ℕ → (ℕ → Table) → ℕ → Table
remap owner pid_avail source to i tables =
    if is_pid_used pid_avail (pos i) == 0
    then tables
    else (let tables₁ =
          (if owner i == source
            then update tables i
                (change_table_mapping (tables i) video (video + (source + 1) * 4096))
            else tables) in
        if owner i == to
        then update tables₁ i (change_table_mapping (tables₁ i) video video)
        else tables₁)

-- terminals[t].screen_x and screen_y
abbrev pub save_cursor : (ℕ → Slot) → ℕ → ℕ → ℕ → ℕ → Slot
save_cursor terminals t x y =
    update terminals t (record (terminals t) { screen_x = x; screen_y = y })

-- change_terminal_state: the state, and the writes to the video controller. The page of VIDEO is its
-- own, as in the page table of the process of the shown terminal, with which the keyboard calls it.
unfoldable pub change_terminal_state : State → ℕ → ℕ → State × List PortWrite
unfolding remap memcpy
change_terminal_state s source to =
    let mem₁ = memcpy s.screen.mem ((source + 1) * 4096) 0 4096 in
    let mem₂ = memcpy mem₁ 0 ((to + 1) * 4096) 4096 in
    let terminals = save_cursor s.terminals source s.screen.x s.screen.y in
    let x = (terminals to).screen_x in
    let y = (terminals to).screen_y in
    (
      record s {
        terminal_state = to;
        screen = record (s.screen) { x = x; y = y; mem = mem₂ };
        terminals = terminals;
        tables = for_range 6 0 (remap s.owned_by_terminal s.pid_avail source to) s.tables;
      },
      set_cursor_location x y,
    )

-- The offset from VIDEO of the page that a page table maps VIDEO to.
abbrev pub page_offset : Table → ℕ
page_offset table = table 184 / 4096 * 4096 - video

-- The memory as the kernel sees it from VIDEO on, through a page at `offset`, and what is left in
-- memory after writes there.
abbrev pub through : ℕ → (ℕ → ℕ) → ℕ → ℕ
through offset mem j = if ltb j 4096 then mem (offset + j) else mem j

abbrev pub stored : ℕ → (ℕ → ℕ) → (ℕ → ℕ) → ℕ → ℕ
stored offset mem mem' j =
    if leb offset j && ltb j (offset + 4096)
    then mem' (j - offset)
    else if ltb j 4096
    then mem j
    else mem' j

-- What write_terminal does: the state, the writes to the video controller and the result.
pub record Written : Type 0 where
  pub state : State
  pub writes : List PortWrite
  pub ret : ℤ

-- write_terminal before put_t: the cursor of the shown terminal is kept, and the screen has that of
-- the terminal being serviced
abbrev pub before_put : State → ℕ → Screen
before_put s offset =
    let own =
      save_cursor s.terminals s.terminal_state s.screen.x s.screen.y s.terminal_being_serviced in
    record {
      x = own.screen_x;
      y = own.screen_y;
      attribute = s.screen.attribute;
      mem = through offset s.screen.mem;
    }

-- write_terminal behind put_t, with the screen that put_t has left
abbrev pub after_put : State → ℕ → Screen → State
after_put s offset p =
    let terminals₁ = save_cursor s.terminals s.terminal_state s.screen.x s.screen.y in
    let terminals₂ = save_cursor terminals₁ s.terminal_being_serviced p.x p.y in
    record s {
      terminals = terminals₂;
      screen = record (s.screen) {
        x = (terminals₂ s.terminal_state).screen_x;
        y = (terminals₂ s.terminal_state).screen_y;
        mem = stored offset s.screen.mem p.mem;
      };
    }

-- the part of write_terminal between cli_and_save and restore_flags, for the process `pid`; none
-- when put_t reads past `buf`
unfoldable pub write_locked : State → ℕ → List ℕ → ℕ → Option (State × List PortWrite)
write_locked s pid buf nbytes =
    let offset = page_offset (s.tables pid) in
    elim (put_t (before_put s offset) buf nbytes) [
      | none ↦ none
      | some (p, n) ↦ some (
        after_put s offset p,
        set_cursor_location (after_put s offset p).screen.x (after_put s offset p).screen.y,
      )
    ]

-- write_terminal, called by the process `pid`
unfoldable pub write_terminal : State → ℕ → ℤ → List ℕ → ℤ → Option Written
write_terminal s pid (negsuc fd) buf nbytes =
    some (record { state = s; writes = []; ret = failure })
write_terminal s pid (pos fd) buf (negsuc n) =
    some (record { state = s; writes = []; ret = failure })
write_terminal s pid (pos fd) buf (pos nbytes) =
    if not (fd == 1)
    then some (record { state = s; writes = []; ret = failure })
    else elim (write_locked s pid buf nbytes) [
      | none ↦ none
      | some (after, writes) ↦ some (record { state = after; writes = writes; ret = pos nbytes })
    ]
