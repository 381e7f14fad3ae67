-- ===== src/Execute/Keeps.antt =====
-- What a process leaves alone of the other processes in student-distrib/syscalls.c, from the start of
-- a program by internal_execute to its end.
use snoop_diggity_d_os.Prelude.{
  ℕ, ◌+◌, ◌/◌, ◌<◌, ◌≤◌, ◌≡◌, ◌≢◌, refl, sym, ◌∙◌, ap, List, Option, true, false, ◌==◌, arith,
  eq→==, pos,
}
use snoop_diggity_d_os.Fs.{Dentry}
use snoop_diggity_d_os.Pids.Table.{used}
use snoop_diggity_d_os.Scheduler.{current_pcb, pcb_address, stack_top}
use snoop_diggity_d_os.Scheduler.Switch.{current_pcb_lem}
use snoop_diggity_d_os.Execute.Memory.{child_elsewhere}
use snoop_diggity_d_os.Execute.{System, Unset, child_system}
use snoop_diggity_d_os.Execute.Back.{Kept, Stored, child_system-Stored}

-- The address lies in the kernel stack of the process.
abbrev pub InStack : ℕ → ℕ → Type 0
InStack o a = (pcb_address o ≤ a) × (a < stack_top o)

-- Between `s` and `t` nothing of the process `o` has changed: its block, the frames in its kernel
-- stack, its memory, and its page directory and table.
pub record Untouched (o : ℕ) (s t : System) : Type 0 where
  pub block : t.pcbs (pcb_address o) ≡ s.pcbs (pcb_address o)
  pub frames : (a : ℕ) → InStack o a → t.frames a ≡ s.frames a
  pub memory : (a : ℕ) → a / 0x400000 ≡ o + 2 → t.memory a ≡ s.memory a
  pub directory : t.directories o ≡ s.directories o
  pub table : t.tables o ≡ s.tables o

-- Between `s` and `t` the process `q` has run: the pids in use and the kernel stack are the same,
-- its block still names its parent, and the other processes that were in use are untouched.
pub record Keeps (q : ℕ) (s t : System) : Type 0 where
  pub pid_avail : t.pid_avail ≡ s.pid_avail
  pub esp0 : t.esp0 ≡ s.esp0
  pub parent_pcb : (t.pcbs (pcb_address q)).parent_pcb ≡ (s.pcbs (pcb_address q)).parent_pcb
  pub own_esp0 : (t.pcbs (pcb_address q)).esp0 ≡ (s.pcbs (pcb_address q)).esp0
  pub flags : (t.pcbs (pcb_address q)).flags ≡ (s.pcbs (pcb_address q)).flags
  pub pid : (t.pcbs (pcb_address q)).pid ≡ (s.pcbs (pcb_address q)).pid
  pub others : (o : ℕ) → o < 6 → used s.pid_avail o ≡ true → o ≢ q → Untouched o s t

pub Untouched-trans : (o : ℕ) (r s t : System) → Untouched o r s → Untouched o s t → Untouched o r t
Untouched-trans o r s t u v = record {
  block = v.block ∙ u.block;
  frames = λ a h. v.frames a h ∙ u.frames a h;
  memory = λ a h. v.memory a h ∙ u.memory a h;
  directory = v.directory ∙ u.directory;
  table = v.table ∙ u.table;
}

pub Keeps-trans : (q : ℕ) (r s t : System) → Keeps q r s → Keeps q s t → Keeps q r t
Keeps-trans q r s t u v = record {
  pid_avail = v.pid_avail ∙ u.pid_avail;
  esp0 = v.esp0 ∙ u.esp0;
  parent_pcb = v.parent_pcb ∙ u.parent_pcb;
  own_esp0 = v.own_esp0 ∙ u.own_esp0;
  flags = v.flags ∙ u.flags;
  pid = v.pid ∙ u.pid;
  others = λ o h is ne.
      Untouched-trans o r s t (u.others o h is ne) (v.others o h (rw (u.pid_avail) is) ne);
}

pub Keeps-refl : (q : ℕ) (s : System) → Keeps q s s
Keeps-refl q s = record {
  pid_avail = refl;
  esp0 = refl;
  parent_pcb = refl;
  own_esp0 = refl;
  flags = refl;
  pid = refl;
  others = λ o h is ne. record {
    block = refl;
    frames = λ a i. refl;
    memory = λ a i. refl;
    directory = refl;
    table = refl;
  };
}

-- The process `q` is the one that runs.
pub record IsRunning (q : ℕ) (s : System) : Type 0 where
  pub low : q < 6
  pub six : s.pid_avail < 64
  pub is_used : used s.pid_avail q ≡ true
  pub at : s.esp0 ≡ stack_top q
  pub own : (s.pcbs (pcb_address q)).pid ≡ pos q

pub IsRunning-Keeps : (q : ℕ) (s t : System) → IsRunning q s → Keeps q s t → IsRunning q t
IsRunning-Keeps q s t i k = record {
  low = i.low;
  six = rw (k.pid_avail) i.six;
  is_used = rw (k.pid_avail) i.is_used;
  at = k.esp0 ∙ i.at;
  own = k.pid ∙ i.own;
}

-- The state in which `q` has started the program with the pid `p`.
pub record HasStarted (s s' : System) (p q : ℕ) : Type 0 where
  pub stored : Stored s s' p q
  pub child_pid : (s'.pcbs (pcb_address p)).pid ≡ pos p
  pub parent :
      s'.pcbs (pcb_address q) ≡ record (s.pcbs (pcb_address q)) { esp_k = s.esp; ebp_k = s.ebp }
  pub blocks : (o : ℕ) → o < 6 → o ≢ p → o ≢ q → s'.pcbs (pcb_address o) ≡ s.pcbs (pcb_address o)
  pub frames : (a : ℕ) → a ≢ s.ebp → s'.frames a ≡ s.frames a
  pub memory : (a : ℕ) → a / 0x400000 ≢ p + 2 → s'.memory a ≡ s.memory a
  pub tables : (o : ℕ) → o ≢ p → (s'.directories o ≡ s.directories o) × (s'.tables o ≡ s.tables o)

pub child_system-HasStarted :
    (unset : Unset) (s : System) (entry : Dentry) (args : Option (List ℕ)) (p q : ℕ)
    → p < 6
    → q < 6
    → p ≢ q
    → s.esp0 ≡ stack_top q
    → HasStarted s
        (child_system unset (record s { interrupts = false }) s.interrupts entry args 0 p)
        p
        q
unfolding child_system
child_system-HasStarted unset s entry args p q hp hq ne at =
    let curr : current_pcb s.esp0 ≡ pcb_address q = rw at (current_pcb_lem q (omega arith)) in
    let (memory, tables) =
      child_elsewhere unset (record s { interrupts = false }) s.interrupts entry args 0 p hp in
    let apart : (pcb_address p == pcb_address q) ≡ false = ground arith in
    let apart' : (pcb_address q == pcb_address p) ≡ false = ground arith in
    let self_p = eq→== (pcb_address p) (pcb_address p) refl in
    let self_q = eq→== (pcb_address q) (pcb_address q) refl in
    record {
      stored = child_system-Stored unset s s.interrupts entry args p q hp hq ne at refl;
      child_pid = rw (curr, apart, self_p) refl;
      parent = rw (curr, self_q, apart') refl;
      blocks = λ o ho np nq.
          let far_p : (pcb_address o == pcb_address p) ≡ false = ground arith in
          let far_q : (pcb_address o == pcb_address q) ≡ false = ground arith in
          rw (curr, far_p, far_q) refl;
      frames = λ a far. (let other : (a == s.ebp) ≡ false = ground arith in rw other refl);
      memory = memory;
      tables = tables;
    }

-- A program that was started and has run has kept what its end needs.
pub Keeps-Kept :
    (s s' r : System) (p q : ℕ)
    → q < 6
    → p ≢ q
    → used s'.pid_avail q ≡ true
    → InStack q s.ebp
    → Keeps p s' r
    → Kept s' r (pcb_address p) (pcb_address q) s.ebp
Keeps-Kept s s' r p q hq ne is stack k =
    let u = k.others q hq is (λ e. ne (sym e)) in
    record {
      esp0 = k.esp0;
      pid_avail = k.pid_avail;
      frame = u.frames s.ebp stack;
      parent_pcb = k.parent_pcb;
      child_esp0 = k.own_esp0;
      flags = k.flags;
      pid = ap (λ b. b.pid) u.block;
      esp_k = ap (λ b. b.esp_k) u.block;
      ebp_k = ap (λ b. b.ebp_k) u.block;
      owned = ap (λ b. b.owned_by_terminal) u.block;
    }
