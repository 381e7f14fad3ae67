-- ===== src/Execute/Nested/Child.antt =====
-- The start and the end of one program in student-distrib/syscalls.c, as its caller sees them.
use snoop_diggity_d_os.Prelude.{
  ℤ, ℕ, ◌^◌, ◌<◌, ◌≡◌, ◌≢◌, refl, sym, ◌∙◌, ap, List, true, false, ◌==◌, arith, eq→==, pos, negsuc,
}
use snoop_diggity_d_os.Pids.{get_available_pid}
use snoop_diggity_d_os.Pids.Table.{used}
use snoop_diggity_d_os.Pids.Set.{get_available_pid-IsLowestFree, mark_pid_used-used}
use snoop_diggity_d_os.Scheduler.{pcb_address}
use snoop_diggity_d_os.Execute.Memory.{started_as}
use snoop_diggity_d_os.Execute.{System, Unset, UserContext, started, internal_execute}
use snoop_diggity_d_os.Execute.Leave.{leave_process, resume_execute}
use snoop_diggity_d_os.Execute.Back.{later_process, leave_process-IsBack}
use snoop_diggity_d_os.Execute.Halt.{after_leave}
use snoop_diggity_d_os.Execute.Keeps.{
  InStack, Keeps, Keeps-Kept, IsRunning, HasStarted, child_system-HasStarted, Untouched,
  Untouched-trans,
}
use snoop_diggity_d_os.Execute.Nested.{IsReturned}

pos_or : ℤ → ℕ
pos_or (pos n) = n
pos_or (negsuc n) = 0

-- What a running process has done by starting the program with the lowest free pid.
pub started-HasStarted :
    (unset : Unset) (s s' : System) (command : List ℕ) (user : UserContext) (p q : ℕ)
    → IsRunning q s
    → get_available_pid s.pid_avail ≡ pos p
    → internal_execute unset s command 0 ≡ started s' user
    → (p < 6) × (p ≢ q) × (used s.pid_avail p ≡ false) × HasStarted s s' p q
unfolding pos_or
started-HasStarted unset s s' command user p q i available run =
    let (pr, state, _) = started_as unset s s' command 0 user run in
    let same : pr.pid ≡ p = ap pos_or (sym pr.available ∙ available) in
    let (low, free, _) = rw available at (get_available_pid-IsLowestFree s.pid_avail i.six) in
    let ne : p ≢ q = λ e. absurd (
      let clash : used s.pid_avail q ≡ false = rw (← e) free in
      let is = i.is_used in ground arith) in
    (
      low,
      ne,
      free,
      rw (state, later_process s q i.low i.is_used, same)
          (child_system-HasStarted unset s pr.entry pr.split.argstring p q low i.low ne i.at),
    )

-- The program that was started runs.
pub HasStarted-IsRunning :
    (s s' : System) (p q : ℕ) → p < 6 → s.pid_avail < 64 → HasStarted s s' p q → IsRunning p s'
HasStarted-IsRunning s s' p q low six h =
    let (bound, bits) = mark_pid_used-used s.pid_avail (pos p) six in
    record {
      low = low;
      six = rw (h.stored.pid_avail) bound;
      is_used = rw (h.stored.pid_avail, bits p low, eq→== p p refl) refl;
      at = h.stored.esp0;
      own = h.child_pid;
    }

-- A pid that was in use when a program was started still is.
still_used :
    (s s' : System) (p q o : ℕ)
    → o < 6
    → s.pid_avail < 64
    → used s.pid_avail o ≡ true
    → HasStarted s s' p q
    → used s'.pid_avail o ≡ true
still_used s s' p q o low six is h =
    let (bound, bits) = mark_pid_used-used s.pid_avail (pos p) six in
    rw (h.stored.pid_avail, bits o low) (ground arith)

-- The start of a program by `q` leaves the other processes in use alone.
HasStarted-Untouched :
    (s s' : System) (p q o : ℕ)
    → o < 6
    → q < 6
    → o ≢ p
    → o ≢ q
    → InStack q s.ebp
    → HasStarted s s' p q
    → Untouched o s s'
HasStarted-Untouched s s' p q o ho hq np nq stack h = record {
  block = h.blocks o ho np nq;
  frames = λ a (low, high). h.frames a (λ e. nq (omega arith));
  memory = λ a own. h.memory a (λ e. np (omega arith));
  directory = (h.tables o np).0;
  table = (h.tables o np).1;
}

-- What the end of a program changes: besides what belongs to the processor, the return value in its
-- own block.
after_leave-Untouched :
    (r : System) (p status o : ℕ) → o < 6 → p < 6 → o ≢ p → Untouched o r (after_leave r p status).0
unfolding leave_process resume_execute
after_leave-Untouched r p status o ho hp ne =
    let far : (pcb_address o == pcb_address p) ≡ false = ground arith in
    record {
      block = rw far refl;
      frames = λ a h. refl;
      memory = λ a h. refl;
      directory = refl;
      table = refl;
    }

-- A program that was started, has run and ends, returns to its caller.
pub leave-IsReturned :
    (s s' r : System) (status p q : ℕ)
    → p < 6
    → p ≢ q
    → used s.pid_avail p ≡ false
    → status < 2 ^ 31
    → IsRunning q s
    → get_available_pid s.pid_avail ≡ pos p
    → InStack q s.ebp
    → HasStarted s s' p q
    → Keeps p s' r
    → ((after_leave r p status).1 ≡ pos status) × IsReturned q s (after_leave r p status).0
leave-IsReturned s s' r status p q low ne free small i available stack h k =
    let t = (after_leave r p status).0 in
    let is_q = still_used s s' p q q i.low i.six i.is_used h in
    let mine =
      Untouched-trans q s' r t (k.others q i.low is_q (λ e. ne (sym e)))
        (after_leave-Untouched r p status q i.low low (λ e. ne (sym e))) in
    let kept = Keeps-Kept s s' r p q i.low ne is_q stack k in
    let (result, back) =
      leave_process-IsBack s s' r status p q low i.low ne small i.six available i.own h.stored
        kept in
    (
      result,
      record {
        back = back;
        block = mine.block ∙ h.parent;
        memory = λ a own. mine.memory a own ∙ h.memory a (λ e. ne (omega arith));
        directory = mine.directory ∙ (h.tables q (λ e. ne (sym e))).0;
        table = mine.table ∙ (h.tables q (λ e. ne (sym e))).1;
        others = λ o ho is nq.
            let np : o ≢ p =
              λ e. absurd (let clash : used s.pid_avail o ≡ false = rw e free in ground arith) in
            Untouched-trans o s s' t (HasStarted-Untouched s s' p q o ho i.low np nq stack h) (
              Untouched-trans o s' r t (k.others o ho (still_used s s' p q o ho i.six is h) np)
                (after_leave-Untouched r p status o ho low np));
      },
    )
