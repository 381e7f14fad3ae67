-- ===== src/Execute/Nested/Ends.antt =====
-- How nested programs end in student-distrib/syscalls.c.
use snoop_diggity_d_os.Prelude.{
  ℤ, ℕ, ◌<◌, ◌≡◌, refl, sym, ◌∙◌, ap, List, Bool, true, false, arith, pos, inl, inr,
}
use snoop_diggity_d_os.Pids.{get_available_pid}
use snoop_diggity_d_os.Execute.Start.{guarded, internal_execute-EndsAs}
use snoop_diggity_d_os.Execute.{
  System, Unset, UserContext, Executed, refused, started, faults, start_process, internal_execute,
}
use snoop_diggity_d_os.Execute.Leave.{Halted, returns, restarts, stuck, halt, halt_excep}
use snoop_diggity_d_os.Execute.Back.{later_process}
use snoop_diggity_d_os.Execute.Halt.{after_leave, halt-run, halt_excep-run}
use snoop_diggity_d_os.Execute.Keeps.{
  InStack, Keeps, Keeps-refl, Keeps-trans, IsRunning, IsRunning-Keeps,
}
use snoop_diggity_d_os.Execute.Nested.{
  Runs, Does, halts, dies, starts, works, is_refused, runs, IsReturned, IsReturned-Keeps,
  Works-Keeps,
}
use snoop_diggity_d_os.Execute.Nested.Child.{
  started-HasStarted, HasStarted-IsRunning, leave-IsReturned,
}

refused_state : System → Executed → System
refused_state s (refused t) = t
refused_state s (started t user) = s
refused_state s faults = s

is_refusal : Executed → Bool
is_refusal (refused t) = true
is_refusal (started t user) = false
is_refusal faults = false

Keeps-flag : (q : ℕ) (s : System) → Keeps q s (record s { interrupts = false })
Keeps-flag q s = record {
  pid_avail = refl;
  esp0 = refl;
  parent_pcb = refl;
  own_esp0 = refl;
  flags = refl;
  pid = refl;
  others = λ o h is ne. record {
    block = refl;
    frames = λ a i. refl;
    memory = λ a i. refl;
    directory = refl;
    table = refl;
  };
}

-- What a refused call of execute changes for a running process.
refused-Keeps :
    (unset : Unset) (s t : System) (command : List ℕ) (q : ℕ)
    → IsRunning q s
    → internal_execute unset s command 0 ≡ refused t
    → Keeps q s t
unfolding refused_state is_refusal start_process
refused-Keeps unset s t command q i run =
    let there : t ≡ guarded s = elim (internal_execute-EndsAs unset s command 0) [
      | inl (why, e) ↦ ap (refused_state s) (sym run ∙ e)
      | inr (inl e) ↦
          absurd (let clash : true ≡ false = ap is_refusal (sym run ∙ e) in ground arith)
      | inr (inr (p, e)) ↦
          absurd (let clash : true ≡ false = ap is_refusal (sym run ∙ e) in ground arith)
    ] in
    rw (there, later_process s q i.low i.is_used) (Keeps-flag q s)

state_of : System → Halted → System
state_of s (returns t result) = t
state_of s (restarts t user) = s
state_of s stuck = s

-- Where a call of halt or halt_excep returns to.
left :
    (r t : System) (p status : ℕ) (result : ℤ)
    → returns (after_leave r p status).0 (after_leave r p status).1 ≡ returns t result
    → t ≡ (after_leave r p status).0
unfolding state_of
left r t p status result e = sym (ap (state_of r) e)

mutual
  Runs-IsReturned :
      (unset : Unset) {q : ℕ} {s t : System} → IsRunning q s → Runs unset q s t → IsReturned q s t
  Runs-IsReturned unset {q} {s} {t} i
        (halts s' r command user p status result stack available run does byte end) =
      let (low, ne, free, h) = started-HasStarted unset s s' command user p q i available run in
      let child = HasStarted-IsRunning s s' p q low i.six h in
      let k = Does-Keeps unset child does in
      let ran = halt-run unset r status p low (k.esp0 ∙ h.stored.esp0) (k.flags ∙ h.stored.flags) in
      rw (left r t p status result (sym ran ∙ end))
        ((leave-IsReturned s s' r status p q low ne free (omega arith) i available stack h k).1)
  Runs-IsReturned unset {q} {s} {t} i
        (dies s' r command user p result stack available run does end) =
      let (low, ne, free, h) = started-HasStarted unset s s' command user p q i available run in
      let child = HasStarted-IsRunning s s' p q low i.six h in
      let k = Does-Keeps unset child does in
      let ran = halt_excep-run r 256 p low (k.esp0 ∙ h.stored.esp0) in
      rw (left r t p 256 result (sym ran ∙ end))
        ((leave-IsReturned s s' r 256 p q low ne free (omega arith) i available stack h k).1)

  Does-Keeps :
      (unset : Unset) {q : ℕ} {s t : System} → IsRunning q s → Does unset q s t → Keeps q s t
  Does-Keeps unset {q} {s} i starts = Keeps-refl q s
  Does-Keeps unset {q} {s} {t} i (works {s = u} before w) =
      Keeps-trans q s u t (Does-Keeps unset i before) (Works-Keeps q u t i.low w)
  Does-Keeps unset {q} {s} {t} i (is_refused {s = u} command before e) =
      let k = Does-Keeps unset i before in
      Keeps-trans q s u t k (refused-Keeps unset u t command q (IsRunning-Keeps q s u i k) e)
  Does-Keeps unset {q} {s} {t} i (runs {s = u} before run) =
      let k = Does-Keeps unset i before in
      Keeps-trans q s u t k
        (IsReturned-Keeps q u t (Runs-IsReturned unset (IsRunning-Keeps q s u i k) run))

-- A running process, with its pid below 6 and in use, its kernel stack in force and its frame
-- pointer in it, calls execute; the program works in its own memory, runs programs in the same way,
-- to any depth, one after another, and has calls of execute refused; each ends by halt or by an
-- exception; and the processes of other terminals wait. When execute returns, the pids in use, the
-- kernel stack, the interrupt flag, the stack and frame pointers, the page directory and the pid of
-- the caller's terminal are the caller's again; its block is the same but for the place of the call;
-- its memory and page tables are the same; and so are the blocks, frames, memory and page tables of
-- all other processes in use.
pub nested_programs-IsReturned :
    (unset : Unset) (q : ℕ) (s t : System) → IsRunning q s → Runs unset q s t → IsReturned q s t
nested_programs-IsReturned unset q s t i run = Runs-IsReturned unset i run

module _ (unset : Unset) (s s' r : System) (command : List ℕ) (user : UserContext) (p q : ℕ)
    (running : IsRunning q s) (stack : InStack q s.ebp)
    (available : get_available_pid s.pid_avail ≡ pos p)
    (run : internal_execute unset s command 0 ≡ started s' user) (does : Does unset p s' r) where
  -- A running process, with its pid below 6 and in use, its kernel stack in force and its frame
  -- pointer in it, calls execute, and the program starts with the lowest free pid. It works in its
  -- own memory, runs programs, to any depth, and has calls of execute refused, while the processes
  -- of other terminals wait. When it then calls halt, execute returns the status to the caller, and
  -- the caller finds what IsReturned says: the pids in use, its kernel stack, interrupt flag, stack
  -- and frame pointers, page directory and the pid of its terminal, its block but for the place of the
  -- call, its memory and page tables, and all that belongs to the other processes in use, are as
  -- they were.
  pub nested_programs-halt :
      (status : ℕ)
      → status < 256
      → (t : System) × (halt unset r status ≡ returns t (pos status)) × IsReturned q s t
  nested_programs-halt status byte =
      let (low, ne, free, h) =
        started-HasStarted unset s s' command user p q running available run in
      let k = Does-Keeps unset (HasStarted-IsRunning s s' p q low running.six h) does in
      let (result, back) =
        leave-IsReturned s s' r status p q low ne free (omega arith) running available stack h k in
      (
        (after_leave r p status).0,
        halt-run unset r status p low (k.esp0 ∙ h.stored.esp0) (k.flags ∙ h.stored.flags)
            ∙ ap (returns (after_leave r p status).0) result,
        back,
      )

  -- A running process, with its pid below 6 and in use, its kernel stack in force and its frame
  -- pointer in it, calls execute, and the program starts with the lowest free pid. It works in its
  -- own memory, runs programs, to any depth, and has calls of execute refused, while the processes
  -- of other terminals wait. When an exception then ends it, execute returns 256, which is no status
  -- of halt, and the caller finds what IsReturned says: the pids in use, its kernel stack, interrupt
  -- flag, stack and frame pointers, page directory and the pid of its terminal, its block but for the
  -- place of the call, its memory and page tables, and all that belongs to the other processes in
  -- use, are as they were.
  pub nested_programs-halt_excep :
      (t : System) × (halt_excep r 256 ≡ returns t (pos 256)) × IsReturned q s t
  nested_programs-halt_excep =
      let (low, ne, free, h) =
        started-HasStarted unset s s' command user p q running available run in
      let k = Does-Keeps unset (HasStarted-IsRunning s s' p q low running.six h) does in
      let (result, back) =
        leave-IsReturned s s' r 256 p q low ne free (omega arith) running available stack h k in
      (
        (after_leave r p 256).0,
        halt_excep-run r 256 p low (k.esp0 ∙ h.stored.esp0)
            ∙ ap (returns (after_leave r p 256).0) result,
        back,
      )
