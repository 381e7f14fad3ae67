-- ===== src/Execute/Halt.antt =====
-- The end of a program in student-distrib/syscalls.c: halt and halt_excep give back what
-- internal_execute took.
use mathlib.Core.Path.{subst}
use snoop_diggity_d_os.Prelude.{
  ℤ, ℕ, ◌^◌, ◌<◌, ◌≡◌, refl, sym, ◌∙◌, ap, List, true, false, ◌==◌, arith, pos,
}
use snoop_diggity_d_os.Pids.{all_pids_available, get_available_pid, scan_pids}
use snoop_diggity_d_os.Pids.Table.{used}
use snoop_diggity_d_os.Scheduler.{current_pcb, pcb_address, stack_top}
use snoop_diggity_d_os.Scheduler.Switch.{current_pcb_lem}
use snoop_diggity_d_os.Execute.Memory.{started_as}
use snoop_diggity_d_os.Execute.{System, Unset, UserContext, started, child_system, internal_execute}
use snoop_diggity_d_os.Execute.Leave.{returns, leave_process, resume_execute, halt, halt_excep}
use snoop_diggity_d_os.Execute.Back.{Kept, IsBack, started-Stored, leave_process-IsBack}

-- what the process with the pid `p` leaves to its parent
abbrev pub after_leave : System → ℕ → ℕ → System × ℤ
after_leave r p status =
    let child = pcb_address p in
    resume_execute (
      leave_process (record r { interrupts = false; esp0 = (r.pcbs child).esp0 }) child
        (r.pcbs child).parent_pcb status)

-- the end of halt, when the process is not the first of its terminal
pub halt-run :
    (unset : Unset) (r : System) (status p : ℕ)
    → p < 6
    → r.esp0 ≡ stack_top p
    → (r.pcbs (pcb_address p)).flags ≡ 0
    → let s₁ : System = record r { interrupts = false; esp0 = (r.pcbs (pcb_address p)).esp0 } in
      let end =
        resume_execute
          (leave_process s₁ (pcb_address p) (r.pcbs (pcb_address p)).parent_pcb status) in
      halt unset r status ≡ returns end.0 end.1
unfolding halt
halt-run unset r status p hp at plain =
    let curr : current_pcb r.esp0 ≡ pcb_address p = rw at (current_pcb_lem p (omega arith)) in
    rw (curr, plain) refl

pub halt_excep-run :
    (r : System) (status p : ℕ)
    → p < 6
    → r.esp0 ≡ stack_top p
    → let s₁ : System = record r { interrupts = false; esp0 = (r.pcbs (pcb_address p)).esp0 } in
      let end =
        resume_execute
          (leave_process s₁ (pcb_address p) (r.pcbs (pcb_address p)).parent_pcb status) in
      halt_excep r status ≡ returns end.0 end.1
unfolding halt_excep
halt_excep-run r status p hp at =
    let curr : current_pcb r.esp0 ≡ pcb_address p = rw at (current_pcb_lem p (omega arith)) in
    rw curr refl

-- A running process calls execute, with its pid in use and below 6, and the program starts. Whatever
-- that program does, when it then calls halt and the kernel has kept what belongs to the two
-- processes, execute returns the status of halt to its caller, and the pids in use, the
-- kernel stack, the interrupt flag, the stack and frame pointers, the page directory and the pid of the caller's terminal
-- are the caller's again.
pub internal_execute-halt :
    (unset : Unset) (s s' r : System) (command : List ℕ) (user : UserContext) (status q : ℕ)
    → q < 6
    → s.pid_avail < 64
    → used s.pid_avail q ≡ true
    → s.esp0 ≡ stack_top q
    → (s.pcbs (pcb_address q)).pid ≡ pos q
    → status < 256
    → internal_execute unset s command 0 ≡ started s' user
    → ((p : ℕ)
        → get_available_pid s.pid_avail ≡ pos p
        → Kept s' r (pcb_address p) (pcb_address q) s.ebp)
    → (t : System) × (halt unset r status ≡ returns t (pos status)) × IsBack s t q
internal_execute-halt unset s s' r command user status q hq six is at own byte run kept =
    let (p, low, ne, available, stored) =
      started-Stored unset s s' command user q hq six is at run in
    let k = kept p available in
    let (result, back) =
      leave_process-IsBack s s' r status p q low hq ne (omega arith) six available own stored k in
    (
      (after_leave r p status).0,
      halt-run unset r status p low (k.esp0 ∙ stored.esp0) (k.flags ∙ stored.flags)
          ∙ ap (returns (after_leave r p status).0) result,
      back,
    )

-- A running process calls execute, with its pid in use and below 6, and the program starts. Whatever
-- that program does, when an exception then ends it and the kernel has kept what belongs to the two
-- processes, halt_excep makes execute return its status - 256 in the handlers of exceptions, which is no
-- status of halt - to its caller, and the pids in use, the kernel stack, the interrupt flag, the stack
-- and frame pointers, the page directory and the pid of the caller's terminal are the caller's again.
pub internal_execute-halt_excep :
    (unset : Unset) (s s' r : System) (command : List ℕ) (user : UserContext) (status q : ℕ)
    → q < 6
    → s.pid_avail < 64
    → used s.pid_avail q ≡ true
    → s.esp0 ≡ stack_top q
    → (s.pcbs (pcb_address q)).pid ≡ pos q
    → status < 2 ^ 31
    → internal_execute unset s command 0 ≡ started s' user
    → ((p : ℕ)
        → get_available_pid s.pid_avail ≡ pos p
        → Kept s' r (pcb_address p) (pcb_address q) s.ebp)
    → (t : System) × (halt_excep r status ≡ returns t (pos status)) × IsBack s t q
internal_execute-halt_excep unset s s' r command user status q hq six is at own small run kept =
    let (p, low, ne, available, stored) =
      started-Stored unset s s' command user q hq six is at run in
    let k = kept p available in
    let (result, back) =
      leave_process-IsBack s s' r status p q low hq ne small six available own stored k in
    (
      (after_leave r p status).0,
      halt_excep-run r status p low (k.esp0 ∙ stored.esp0)
          ∙ ap (returns (after_leave r p status).0) result,
      back,
    )

first_pid : get_available_pid 0 ≡ pos 0
unfolding get_available_pid scan_pids
first_pid = refl

-- The first shell, that the kernel starts with no pid in use and the kernel stack of pid 0, is its own
-- parent: the block of the kernel, with the pid -1, is the one that becomes the shell's.
pub internal_execute-own_parent :
    (unset : Unset) (s s' : System) (command : List ℕ) (user : UserContext)
    → s.pid_avail ≡ 0
    → s.esp0 ≡ stack_top 0
    → internal_execute unset s command 1 ≡ started s' user
    → ((s'.pcbs (pcb_address 0)).parent_pcb ≡ pcb_address 0)
      × ((s'.pcbs (pcb_address 0)).pid ≡ pos 0)
      × (s'.esp0 ≡ s.esp0)
unfolding child_system all_pids_available
internal_execute-own_parent unset s s' command user empty at run =
    let (p, state, _) = started_as unset s s' command 1 user run in
    let lowest : pos 0 ≡ pos p.pid =
      sym first_pid ∙ subst (λ w. get_available_pid w ≡ pos p.pid) empty p.available in
    let zero_pid : p.pid ≡ 0 = ground arith in
    let no_process : (s.pid_avail == 0) ≡ true = rw empty refl in
    let curr : current_pcb s.esp0 ≡ pcb_address 0 = rw at (current_pcb_lem 0 (omega arith)) in
    rw (state, no_process, curr, zero_pid, at) (refl, refl, refl)
