-- ===== src/Scheduler/Switch.antt =====
-- The switch between two processes in student-distrib/scheduling.c.
use snoop_diggity_d_os.Prelude.{
  ℕ, ◌+◌, ◌-◌, ◌*◌, ◌%◌, ◌^◌, ◌<◌, ◌≡◌, ◌≢◌, refl, sym, ◌∙◌, eq→==, false, ◌==◌, if◌then◌else◌,
  arith,
}
use snoop_diggity_d_os.Prelude.Bits.{bit_and_split, bit_and_ones, bit_and-zero}
use snoop_diggity_d_os.Scheduler.{
  get_esp, Context, Cpu, current_pcb, pcb_address, stack_top, save_process_context,
  save_and_switch_process_context,
}

-- From the top of a process's kernel stack the block of that process is found.
pub current_pcb_lem : (pid : ℕ) → pid < 1023 → current_pcb (stack_top pid) ≡ pcb_address pid
unfolding current_pcb
current_pcb_lem pid h =
    let split : stack_top pid - 1 ≡ (1023 - pid) * 8192 + 8191 = omega arith in
    rw split (
      bit_and_split 13 (1023 - pid) 8191 (2 ^ 19 - 1) 0 (omega arith) (omega arith)
      ∙ rw (bit_and_ones 19 (1023 - pid), bit_and-zero 8191) (omega arith))

save_process_context_lem :
    (cpu : Cpu) (pcbs : ℕ → Context) (p eip esp ebp a : ℕ)
    → p < 1023
    → cpu.esp0 ≡ stack_top p
    → save_process_context cpu pcbs eip esp ebp a ≡ (
        if a == pcb_address p
        then record { eip = eip; esp_k = esp; ebp_k = ebp; eflags = cpu.eflags }
        else pcbs a)
unfolding save_process_context
save_process_context_lem cpu pcbs p eip esp ebp a hp at = rw (at, current_pcb_lem p hp) refl

-- When a process is switched away from and a second one runs that switches back, the first one
-- continues at the point of the switch with its stack, flags, page directory and kernel stack, and
-- no block but those of the two has changed.
pub switch_back :
    (resume : ℕ) (cpu other : Cpu) (pcbs : ℕ → Context) (p q : ℕ)
    → p < 1023
    → q < 1023
    → p ≢ q
    → cpu.esp < 2 ^ 32
    → cpu.esp0 ≡ stack_top p
    → cpu.directory ≡ p
    → other.esp0 ≡ stack_top q
    → let away = save_and_switch_process_context resume cpu pcbs q in
      let back = save_and_switch_process_context resume other away.1 p in
      (back.0 ≡ record cpu { eip = resume })
      × ((a : ℕ) → a ≢ pcb_address p → a ≢ pcb_address q → back.1 a ≡ pcbs a)
unfolding save_and_switch_process_context
switch_back resume cpu other pcbs p q hp hq ne hesp at dir at' =
    let esp = (get_esp cpu + 4) % 2 ^ 32 in
    let esp' = (get_esp other + 4) % 2 ^ 32 in
    let first = λ (a : ℕ). save_process_context_lem cpu pcbs p resume esp cpu.ebp a hp at in
    let away = save_process_context cpu pcbs resume esp cpu.ebp in
    let second = λ (a : ℕ). save_process_context_lem other away q resume esp' other.ebp a hq at' in
    let apart : (pcb_address p == pcb_address q) ≡ false = ground arith in
    let kept : esp ≡ cpu.esp = omega arith in
    (
      rw
          (
            second (pcb_address p),
            apart,
            first (pcb_address p),
            eq→== (pcb_address p) (pcb_address p) refl,
            kept,
            sym at,
            sym dir,
          )
          refl,
      λ a np nq. ground (arith, first a, second a),
    )
