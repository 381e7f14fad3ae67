-- ===== src/Execute/Nested.antt =====
-- Programs that start programs, to any depth: calls of internal_execute, halt and halt_excep in
-- student-distrib/syscalls.c by the processes of one terminal, while those of the others wait.
pub mod Child
pub mod Ends
use snoop_diggity_d_os.Prelude.{
  ℤ, ℕ, ◌+◌, ◌/◌, ◌<◌, ◌≡◌, ◌≢◌, refl, ap, List, Bool, true, false, ◌==◌, update, arith, eq→==, pos,
}
use snoop_diggity_d_os.Pids.{get_available_pid}
use snoop_diggity_d_os.Pids.Table.{used}
use snoop_diggity_d_os.Paging.{Table}
use snoop_diggity_d_os.Descriptors.{FileInfo}
use snoop_diggity_d_os.Scheduler.{pcb_address}
use snoop_diggity_d_os.Execute.{System, Unset, UserContext, refused, started, internal_execute}
use snoop_diggity_d_os.Execute.Leave.{returns, halt, halt_excep}
use snoop_diggity_d_os.Execute.Back.{IsBack}
use snoop_diggity_d_os.Execute.Keeps.{InStack, Untouched, Keeps}

-- What the process `q` does by itself between its calls: it writes to its own memory and changes its
-- page directory and table and its open files, and its next call finds the processor in some state.
pub record Works (q : ℕ) (s t : System) : Type 0 where
  pub memory : ℕ → ℕ
  pub fds : ℕ → FileInfo
  pub directory : Table
  pub table : Table
  pub interrupts : Bool
  pub esp : ℕ
  pub ebp : ℕ
  pub own_memory : (a : ℕ) → a / 0x400000 ≢ q + 2 → memory a ≡ s.memory a
  pub result : t ≡ record s {
    pcbs = update s.pcbs (pcb_address q) (record (s.pcbs (pcb_address q)) { fd_array = fds });
    memory = memory;
    directories = update s.directories q directory;
    tables = update s.tables q table;
    interrupts = interrupts;
    esp = esp;
    ebp = ebp;
  }

-- `Runs q s t`: the process `q` calls execute in `s`, and gets back in `t` when the program has ended.
-- `Does q s t`: from `s` to `t` the process `q` works, has calls of execute refused, and runs programs.
mutual
  pub data Runs (unset : Unset) : ℕ → System → System → Type 0 where
    halts :
        {q : ℕ} {s t : System} (s' r : System) (command : List ℕ) (user : UserContext)
        (p status : ℕ) (result : ℤ)
        → InStack q s.ebp
        → get_available_pid s.pid_avail ≡ pos p
        → internal_execute unset s command 0 ≡ started s' user
        → Does unset p s' r
        → status < 256
        → halt unset r status ≡ returns t result
        → Runs unset q s t
    dies :
        {q : ℕ} {s t : System} (s' r : System) (command : List ℕ) (user : UserContext) (p : ℕ)
        (result : ℤ)
        → InStack q s.ebp
        → get_available_pid s.pid_avail ≡ pos p
        → internal_execute unset s command 0 ≡ started s' user
        → Does unset p s' r
        → halt_excep r 256 ≡ returns t result
        → Runs unset q s t

  pub data Does (unset : Unset) : ℕ → System → System → Type 0 where
    starts : {q : ℕ} {s : System} → Does unset q s s
    works : {q : ℕ} {r s t : System} → Does unset q r s → Works q s t → Does unset q r t
    is_refused :
        {q : ℕ} {r s t : System} (command : List ℕ)
        → Does unset q r s
        → internal_execute unset s command 0 ≡ refused t
        → Does unset q r t
    runs : {q : ℕ} {r s t : System} → Does unset q r s → Runs unset q s t → Does unset q r t

-- What the process `q` finds when execute returns to it: besides what IsBack says, its block is the
-- same up to the place of the call, its memory, page directory and table are the same, and so is all
-- that belongs to the other processes in use.
pub record IsReturned (q : ℕ) (s t : System) : Type 0 where
  pub back : IsBack s t q
  pub block :
      t.pcbs (pcb_address q) ≡ record (s.pcbs (pcb_address q)) { esp_k = s.esp; ebp_k = s.ebp }
  pub memory : (a : ℕ) → a / 0x400000 ≡ q + 2 → t.memory a ≡ s.memory a
  pub directory : t.directories q ≡ s.directories q
  pub table : t.tables q ≡ s.tables q
  pub others : (o : ℕ) → o < 6 → used s.pid_avail o ≡ true → o ≢ q → Untouched o s t

pub IsReturned-Keeps : (q : ℕ) (s t : System) → IsReturned q s t → Keeps q s t
IsReturned-Keeps q s t i = record {
  pid_avail = i.back.pid_avail;
  esp0 = i.back.esp0;
  parent_pcb = ap (λ b. b.parent_pcb) i.block;
  own_esp0 = ap (λ b. b.esp0) i.block;
  flags = ap (λ b. b.flags) i.block;
  pid = ap (λ b. b.pid) i.block;
  others = i.others;
}

pub Works-Keeps : (q : ℕ) (s t : System) → q < 6 → Works q s t → Keeps q s t
Works-Keeps q s t low w =
    let self = eq→== (pcb_address q) (pcb_address q) refl in
    rw (w.result) (record {
      pid_avail = refl;
      esp0 = refl;
      parent_pcb = rw self refl;
      own_esp0 = rw self refl;
      flags = rw self refl;
      pid = rw self refl;
      others = λ o h is ne.
          let far : (pcb_address o == pcb_address q) ≡ false = ground arith in
          let other : (o == q) ≡ false = ground arith in
          record {
            block = rw far refl;
            frames = λ a i. refl;
            memory = λ a i. w.own_memory a (λ e. ne (omega arith));
            directory = rw other refl;
            table = rw other refl;
          };
    })
