-- ===== src/Interrupts/Faults.antt =====
-- The end of a program by an exception, from student-distrib/interrupt_handler.c through halt_excep of
-- student-distrib/syscalls.c.
use snoop_diggity_d_os.Prelude.{ℕ, ◌≡◌, refl, List, [], ◌∷◌, ◌++◌, some, pos, inr}
use snoop_diggity_d_os.Pic.{PortWrite}
use snoop_diggity_d_os.Pids.{get_available_pid}
use snoop_diggity_d_os.Terminals.{State}
use snoop_diggity_d_os.Terminals.Keys.Keeps.{Keeps, Keeps-trans, write_terminal-Keeps}
use snoop_diggity_d_os.Execute.{System, Unset, UserContext, started, internal_execute}
use snoop_diggity_d_os.Execute.Leave.{returns, halt_excep}
use snoop_diggity_d_os.Execute.Keeps.{InStack, IsRunning}
use snoop_diggity_d_os.Execute.Nested.{Does, IsReturned}
use snoop_diggity_d_os.Execute.Nested.Ends.{nested_programs-halt_excep}
use snoop_diggity_d_os.Interrupts.Exceptions.{
  Exception, Handled, message, print_chars, exception_handler,
}

print_chars-Keeps :
    (s : State) (pid : ℕ) (text : List ℕ)
    → (r : State × List PortWrite) × (print_chars s pid text ≡ some r) × Keeps s r.0
unfolding print_chars
print_chars-Keeps s pid [] = (
  (s, []),
  refl,
  record { shown = refl; tables = refl; owned = refl; pids = refl; lines = λ t. refl },
)
print_chars-Keeps s pid (c ∷ text) =
    let (w, run, keeps) = write_terminal-Keeps s pid 1 (c ∷ 0 ∷ []) (inr (inr _)) in
    let (r, run', keeps') = print_chars-Keeps w.state pid text in
    (
      (r.0, w.writes ++ r.1),
      rw (print_chars, run, run') refl,
      Keeps-trans s w.state r.0 keeps keeps',
    )

-- A running process, with its pid below 6 and in use, its kernel stack in force and its frame
-- pointer in it, calls execute, and the program starts with the lowest free pid. It works in its
-- own memory, runs programs, to any depth, and has calls of execute refused, while the processes
-- of other terminals wait. When any exception then comes, its handler comes to an end whatever the
-- terminals hold, and keeps which terminal is shown, their lines, and the page tables, owners and pids
-- of the processes; execute returns 256, which is no status of halt; and the caller finds what IsReturned says: the
-- pids in use, its kernel stack, interrupt flag, stack and frame pointers, page directory and the pid of
-- its terminal, its block but for the place of the call, its memory and page tables, and all that
-- belongs to the other processes in use, are as they were.
pub exception_handler-returns :
    (unset : Unset) (s s' r : System) (command : List ℕ) (user : UserContext) (p q : ℕ)
    (e : Exception) (terminals : State)
    → IsRunning q s
    → InStack q s.ebp
    → get_available_pid s.pid_avail ≡ pos p
    → internal_execute unset s command 0 ≡ started s' user
    → Does unset p s' r
    → (h : Handled) × (t : System) × (exception_handler e terminals r p ≡ some h)
      × Keeps terminals h.terminals
      × (h.halted ≡ returns t (pos 256))
      × IsReturned q s t
unfolding exception_handler
exception_handler-returns unset s s' r command user p q e terminals is stack available run does =
    let (shown, printed, keeps) = print_chars-Keeps terminals p (message e) in
    let (t, end, back) =
      nested_programs-halt_excep unset s s' r command user p q is stack available run does in
    (
      record { terminals = shown.0; writes = shown.1; halted = halt_excep r 256 },
      t,
      rw (exception_handler, printed) refl,
      keeps,
      end,
      back,
    )
