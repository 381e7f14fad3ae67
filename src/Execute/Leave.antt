-- ===== src/Execute/Leave.antt =====
-- Ending a program: halt and halt_excep of student-distrib/syscalls.c, with the end of internal_execute
-- that they jump to.
use snoop_diggity_d_os.Prelude.{
  ℕ, ◌-◌, ◌%◌, List, [], ◌∷◌, false, ◌==◌, if◌then◌else◌, update, ℤ, pos, negsuc, signed32,
}
use snoop_diggity_d_os.Pids.{mark_pid_free}
use snoop_diggity_d_os.Scheduler.{current_pcb}
use snoop_diggity_d_os.Execute.{
  System, Unset, UserContext, refused, started, faults, internal_execute,
}

-- How halt ends: it returns from internal_execute to the parent, or a shell takes its place.
pub data Halted : Type 0 where
  returns : System → ℤ → Halted
  restarts : System → UserContext → Halted
  stuck : Halted

-- internal_execute from JMP_POS_HALT on
unfoldable pub resume_execute : System → System × ℤ
resume_execute s =
    let frame = s.frames s.ebp in
    (
      record s {
        pid_avail = (mark_pid_free s.pid_avail (pos frame.pid)).0;
        interrupts = frame.interrupts;
      },
      signed32 (s.pcbs frame.pcb_child).ret_val,
    )

-- an `int8_t` as a `uint8_t`
abbrev pub byte_of : ℤ → ℕ
byte_of (pos n) = n % 256
byte_of (negsuc n) = 255 - n % 256

-- the end of halt and of halt_excep, from the page directory of the parent on
unfoldable pub leave_process : System → ℕ → ℕ → ℕ → System
leave_process s curr parent status =
    let pcbs = update s.pcbs curr (record (s.pcbs curr) { ret_val = status }) in
    record s {
      directory = (s.pcbs parent).pid;
      pcbs = pcbs;
      terminal_pid =
          update s.terminal_pid (pcbs parent).owned_by_terminal (byte_of (pcbs parent).pid);
      esp = (pcbs parent).esp_k;
      ebp = (pcbs parent).ebp_k;
    }

-- halt_excep
unfoldable pub halt_excep : System → ℕ → Halted
halt_excep s status =
    let curr = current_pcb s.esp0 in
    let s₁ = record s { interrupts = false; esp0 = (s.pcbs curr).esp0 } in
    let (s₂, result) = resume_execute (leave_process s₁ curr (s.pcbs curr).parent_pcb status) in
    returns s₂ result

-- "shell"
abbrev pub shell : List ℕ
shell = 115 ∷ 104 ∷ 101 ∷ 108 ∷ 108 ∷ 0 ∷ []

-- halt
unfoldable pub halt : Unset → System → ℕ → Halted
halt unset s status =
    let curr = current_pcb s.esp0 in
    let parent = (s.pcbs curr).parent_pcb in
    let s₁ = record s { interrupts = false; esp0 = (s.pcbs curr).esp0 } in
    if (s.pcbs curr).flags == 1
    then elim (internal_execute unset
        (record s₁ { pid_avail = (mark_pid_free s.pid_avail (s.pcbs curr).pid).0 }) shell 1) [
          | started s₂ user ↦ restarts s₂ user
          | refused s₂ ↦
              (let (s₃, result) = resume_execute (leave_process s₂ curr parent status) in
                returns s₃ result)
          | faults ↦ stuck
        ]
    else (let (s₃, result) = resume_execute (leave_process s₁ curr parent status) in
        returns s₃ result)
