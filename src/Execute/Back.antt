-- ===== src/Execute/Back.antt =====
-- What internal_execute of student-distrib/syscalls.c stores for the end of a program, and what halt and
-- halt_excep make of it.
use snoop_diggity_d_os.Prelude.{
  ℕ, ◌%◌, ◌^◌, ◌<◌, ◌≡◌, ◌≢◌, refl, ◌∙◌, List, Option, Bool, true, false, ◌==◌, arith, Bool-cases,
  inl, inr, ==→eq, eq→==, pos, ltb,
}
use snoop_diggity_d_os.Prelude.Tables.{all_below, agree_below, agree_below_sound}
use snoop_diggity_d_os.Fs.{Dentry}
use snoop_diggity_d_os.Pids.{all_pids_available, get_available_pid, mark_pid_used}
use snoop_diggity_d_os.Pids.Table.{used}
use snoop_diggity_d_os.Pids.Set.{get_available_pid-IsLowestFree, mark_pid_free-mark_pid_used}
use snoop_diggity_d_os.Scheduler.{current_pcb, pcb_address, stack_top}
use snoop_diggity_d_os.Scheduler.Switch.{current_pcb_lem}
use snoop_diggity_d_os.Execute.Start.{guarded}
use snoop_diggity_d_os.Execute.Memory.{started_as}
use snoop_diggity_d_os.Execute.{System, Unset, UserContext, started, child_system, internal_execute}
use snoop_diggity_d_os.Execute.Leave.{leave_process, resume_execute}

-- Between two states the kernel has kept what it needs to end the process with the block at
-- `child` and go on with the one at `parent`, whose frame is at `ebp`: other processes that were started in between have
-- ended.
pub record Kept (s r : System) (child parent ebp : ℕ) : Type 0 where
  pub esp0 : r.esp0 ≡ s.esp0
  pub pid_avail : r.pid_avail ≡ s.pid_avail
  pub frame : r.frames ebp ≡ s.frames ebp
  pub parent_pcb : (r.pcbs child).parent_pcb ≡ (s.pcbs child).parent_pcb
  pub child_esp0 : (r.pcbs child).esp0 ≡ (s.pcbs child).esp0
  pub flags : (r.pcbs child).flags ≡ (s.pcbs child).flags
  pub pid : (r.pcbs parent).pid ≡ (s.pcbs parent).pid
  pub esp_k : (r.pcbs parent).esp_k ≡ (s.pcbs parent).esp_k
  pub ebp_k : (r.pcbs parent).ebp_k ≡ (s.pcbs parent).ebp_k
  pub owned : (r.pcbs parent).owned_by_terminal ≡ (s.pcbs parent).owned_by_terminal

-- What the parent finds when internal_execute returns to it in the state `t`, as against the state
-- `s` of the call; the parent has the pid `q`.
pub record IsBack (s t : System) (q : ℕ) : Type 0 where
  pub pid_avail : t.pid_avail ≡ s.pid_avail
  pub esp0 : t.esp0 ≡ s.esp0
  pub interrupts : t.interrupts ≡ s.interrupts
  pub esp : t.esp ≡ s.esp
  pub ebp : t.ebp ≡ s.ebp
  pub directory : t.directory ≡ pos q
  pub terminal : t.terminal_pid (s.pcbs (pcb_address q)).owned_by_terminal ≡ q

-- what internal_execute has stored for halt
pub record Stored (s s' : System) (p q : ℕ) : Type 0 where
  pub esp0 : s'.esp0 ≡ stack_top p
  pub pid_avail : s'.pid_avail ≡ (mark_pid_used s.pid_avail (pos p)).0
  pub frame :
      s'.frames s.ebp ≡ record { pid = p; pcb_child = pcb_address p; interrupts = s.interrupts }
  pub parent_pcb : (s'.pcbs (pcb_address p)).parent_pcb ≡ pcb_address q
  pub child_esp0 : (s'.pcbs (pcb_address p)).esp0 ≡ s.esp0
  pub flags : (s'.pcbs (pcb_address p)).flags ≡ 0
  pub pid : (s'.pcbs (pcb_address q)).pid ≡ (s.pcbs (pcb_address q)).pid
  pub esp_k : (s'.pcbs (pcb_address q)).esp_k ≡ s.esp
  pub ebp_k : (s'.pcbs (pcb_address q)).ebp_k ≡ s.ebp
  pub owned :
      (s'.pcbs (pcb_address q)).owned_by_terminal ≡ (s.pcbs (pcb_address q)).owned_by_terminal

pub child_system-Stored :
    (unset : Unset) (s : System) (interrupts : Bool) (entry : Dentry) (args : Option (List ℕ))
    (p q : ℕ)
    → p < 6
    → q < 6
    → p ≢ q
    → s.esp0 ≡ stack_top q
    → interrupts ≡ s.interrupts
    → Stored s (child_system unset (record s { interrupts = false }) interrupts entry args 0 p) p q
unfolding child_system
child_system-Stored unset s interrupts entry args p q hp hq ne at kept =
    let curr : current_pcb s.esp0 ≡ pcb_address q = rw at (current_pcb_lem q (omega arith)) in
    let apart : (pcb_address p == pcb_address q) ≡ false = ground arith in
    let apart' : (pcb_address q == pcb_address p) ≡ false = ground arith in
    let self_p = eq→== (pcb_address p) (pcb_address p) refl in
    let self_q = eq→== (pcb_address q) (pcb_address q) refl in
    record {
      esp0 = refl;
      pid_avail = refl;
      frame = rw (eq→== s.ebp s.ebp refl, kept) refl;
      parent_pcb = rw (curr, apart, self_p) refl;
      child_esp0 = rw (curr, apart, self_p) refl;
      flags = rw (curr, apart, self_p) refl;
      pid = rw (curr, self_q, apart') refl;
      esp_k = rw (curr, self_q) refl;
      ebp_k = rw (curr, self_q) refl;
      owned = rw (curr, self_q, apart') refl;
    }

pub leave_process-IsBack :
    (s s' r : System) (status p q : ℕ)
    → p < 6
    → q < 6
    → p ≢ q
    → status < 2 ^ 31
    → s.pid_avail < 64
    → get_available_pid s.pid_avail ≡ pos p
    → (s.pcbs (pcb_address q)).pid ≡ pos q
    → Stored s s' p q
    → Kept s' r (pcb_address p) (pcb_address q) s.ebp
    → let child = pcb_address p in
      let s₁ : System = record r { interrupts = false; esp0 = (r.pcbs child).esp0 } in
      let end = resume_execute (leave_process s₁ child (r.pcbs child).parent_pcb status) in
      (end.1 ≡ pos status) × IsBack s end.0 q
unfolding leave_process resume_execute
leave_process-IsBack s s' r status p q hp hq ne byte six available own stored kept =
    let child = pcb_address p in
    let at : r.esp0 ≡ stack_top p = kept.esp0 ∙ stored.esp0 in
    let parent : (r.pcbs child).parent_pcb ≡ pcb_address q = kept.parent_pcb ∙ stored.parent_pcb in
    let apart : (pcb_address q == pcb_address p) ≡ false = ground arith in
    let self_p = eq→== (pcb_address p) (pcb_address p) refl in
    let ebp : (r.pcbs (pcb_address q)).ebp_k ≡ s.ebp = kept.ebp_k ∙ stored.ebp_k in
    let frame = kept.frame ∙ stored.frame in
    let word : r.pid_avail ≡ (mark_pid_used s.pid_avail (pos p)).0 =
      kept.pid_avail ∙ stored.pid_avail in
    let pid : (r.pcbs (pcb_address q)).pid ≡ pos q = kept.pid ∙ stored.pid ∙ own in
    let owner : (r.pcbs (pcb_address q)).owned_by_terminal
        ≡ (s.pcbs (pcb_address q)).owned_by_terminal =
      kept.owned ∙ stored.owned in
    let s₁ : System = record r { interrupts = false; esp0 = (r.pcbs child).esp0 } in
    let end = resume_execute (leave_process s₁ child (r.pcbs child).parent_pcb status) in
    let self_o =
      eq→== (s.pcbs (pcb_address q)).owned_by_terminal (s.pcbs (pcb_address q)).owned_by_terminal
        refl in
    let small : ltb status (2 ^ 31) ≡ true = ground arith in
    let one_byte : q % 256 ≡ q = omega arith in
    let result : end.1 ≡ pos status = rw (parent, apart, ebp, frame, self_p, small) refl in
    (
      result,
      record {
        pid_avail =
            rw (parent, apart, ebp, frame, word)
              (mark_pid_free-mark_pid_used s.pid_avail p six available);
        esp0 = kept.child_esp0 ∙ stored.child_esp0;
        interrupts = rw (parent, apart, ebp, frame) refl;
        esp = rw (parent, apart) (kept.esp_k ∙ stored.esp_k);
        ebp = rw (parent, apart) ebp;
        directory = rw parent pid;
        terminal = rw (parent, apart, pid, owner, one_byte, self_o) refl;
      },
    )

unused_table : agree_below 6 (used 0) (λ q. false) ≡ true
unfolding all_below
unused_table = refl

unused_word : (q : ℕ) → q < 6 → used 0 q ≡ false
unused_word q h = agree_below_sound 6 (used 0) (λ q. false) q unused_table h

pub later_process :
    (s : System) (q : ℕ)
    → q < 6
    → used s.pid_avail q ≡ true
    → guarded s ≡ record s { interrupts = false }
unfolding all_pids_available
later_process s q h is = elim (Bool-cases (s.pid_avail == 0)) [
  | inl none_used ↦ absurd (
      let zero_word : s.pid_avail ≡ 0 = ==→eq _ _ none_used in
      let free : used s.pid_avail q ≡ false = rw zero_word (unused_word q h) in ground arith)
  | inr some_used ↦ rw some_used refl
]

-- What a running process has stored when its call of execute has started a program.
pub started-Stored :
    (unset : Unset) (s s' : System) (command : List ℕ) (user : UserContext) (q : ℕ)
    → q < 6
    → s.pid_avail < 64
    → used s.pid_avail q ≡ true
    → s.esp0 ≡ stack_top q
    → internal_execute unset s command 0 ≡ started s' user
    → (p : ℕ) × (p < 6) × (p ≢ q) × (get_available_pid s.pid_avail ≡ pos p) × Stored s s' p q
started-Stored unset s s' command user q hq six is at run =
    let (p, state, _) = started_as unset s s' command 0 user run in
    let (low, free, _) = rw p.available at (get_available_pid-IsLowestFree s.pid_avail six) in
    let ne : p.pid ≢ q =
      λ e. absurd (let clash : used s.pid_avail q ≡ false = rw (← e) free in ground arith) in
    let stored =
      child_system-Stored unset s s.interrupts p.entry p.split.argstring p.pid q low hq ne at
        refl in
    (p.pid, low, ne, p.available, rw (state, later_process s q hq is) stored)
