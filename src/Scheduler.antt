-- ===== src/Scheduler.antt =====
-- student-distrib/scheduling.c: the round robin over the launched terminals, the switch of process
-- context, and the timer's set-up. A process control block lies at the bottom of the kernel stack
-- of its pid, so that it is found from the task state's `esp0`; here it is an entry of a function on
-- addresses. What the processor holds is a record, and a jump stores the instruction pointer.
pub mod Rotation
pub mod Switch
use snoop_diggity_d_os.Prelude.{
  ℕ, zero, suc, ◌+◌, ◌-◌, ◌*◌, ◌/◌, ◌%◌, ◌^◌, List, [], ◌∷◌, ◌++◌, Option, none, some, Bool, ◌==◌,
  if◌then◌else◌, update, bit_and, not,
}
use snoop_diggity_d_os.Pic.{PortWrite, outb, Masks, enable_irq}

abbrev pub num_terminals : ℕ
num_terminals = 3

-- (terminals_launched >> t) & ISOLATE_LEAST_SIG_BIT
abbrev pub launched : ℕ → ℕ → Bool
launched terminals_launched t = not (bit_and (terminals_launched / 2 ^ t) 1 == 0)

-- the loop of round_robin_scheduler: terminal_being_serviced after it, and whether it broke off
unfoldable pub next_launched : ℕ → ℕ → ℕ → ℕ × Bool
next_launched terminals_launched zero serviced = (serviced, Bool.false)
next_launched terminals_launched (suc rounds) serviced =
    let next = (serviced + 1) % num_terminals in
    let rest = next_launched terminals_launched rounds next in
    if launched terminals_launched next then (next, Bool.true) else rest

-- round_robin_scheduler: terminal_being_serviced after it, and the terminal whose process it
-- switches to
unfoldable pub round_robin_scheduler : ℕ → ℕ → ℕ × Option ℕ
unfolding next_launched
round_robin_scheduler terminals_launched serviced =
    if terminals_launched == 1
    then (serviced, none)
    else (let (next, found) = next_launched terminals_launched num_terminals serviced in
        (next, if found then some next else none))

-- The fields of a process control block that a switch reads and writes.
pub record Context : Type 0 where
  pub eip : ℕ
  pub esp_k : ℕ
  pub ebp_k : ℕ
  pub eflags : ℕ

-- The processor's registers, the current page directory's pid and the task state's `esp0`.
pub record Cpu : Type 0 where
  pub eip : ℕ
  pub esp : ℕ
  pub ebp : ℕ
  pub eflags : ℕ
  pub directory : ℕ
  pub esp0 : ℕ

abbrev pub kernel_stack_start : ℕ
kernel_stack_start = 0x800000

-- KERNEL_STACK_START - pid*LITERAL_8KB, and the address of the block of a pid
abbrev pub stack_top : ℕ → ℕ
stack_top pid = kernel_stack_start - pid * 0x2000

abbrev pub pcb_address : ℕ → ℕ
pcb_address pid = kernel_stack_start - (pid + 1) * 0x2000

-- (tss_base->esp0-1) & MASK_8KB_ALIGNED
unfoldable pub current_pcb : ℕ → ℕ
current_pcb esp0 = bit_and (esp0 - 1) 0xFFFFE000

-- get_esp in syscalls_asm.S: below the caller's stack pointer is the return address
abbrev pub get_esp : Cpu → ℕ
get_esp cpu = (cpu.esp + 2 ^ 32 - 4) % 2 ^ 32

-- save_process_context
unfoldable pub save_process_context : Cpu → (ℕ → Context) → ℕ → ℕ → ℕ → ℕ → Context
save_process_context cpu pcbs eip esp ebp =
    update pcbs (current_pcb cpu.esp0)
      (record { eip = eip; esp_k = esp; ebp_k = ebp; eflags = cpu.eflags })

-- save_and_switch_process_context up to its jump, for a pid of a process, with `resume` the address
-- of SWITCH_CONTEXT
unfoldable pub save_and_switch_process_context : ℕ → Cpu → (ℕ → Context) → ℕ → Cpu × (ℕ → Context)
unfolding save_process_context
save_and_switch_process_context resume cpu pcbs pid =
    let saved = save_process_context cpu pcbs resume ((get_esp cpu + 4) % 2 ^ 32) cpu.ebp in
    let next = saved (pcb_address pid) in
    (
      record {
        eip = next.eip;
        esp = next.esp_k;
        ebp = next.ebp_k;
        eflags = next.eflags;
        directory = pid;
        esp0 = stack_top pid;
      },
      saved,
    )

-- init_scheduling; the macro `outb` takes the value first and the port second, and the arguments
-- stand here in the order of the source
unfoldable pub init_scheduling : (ℕ → ℕ) → Masks → Masks × List PortWrite
init_scheduling inb masks =
    let (masks', more) = enable_irq inb masks 0 in
    (
      masks',
      outb 0x43 0x36
          ∷ outb 0x40 (bit_and 35794 0xFF)
          ∷ outb 0x40 (bit_and (35794 / 2 ^ 8) 0xFF)
          ∷ more,
    )
