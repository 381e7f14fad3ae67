-- ===== src/Interrupts.antt =====
-- student-distrib/interrupt_handler.c: the handlers of the hardware interrupts but the keyboard's,
-- with the test in_hardware_int of student-distrib/scheduling.c. A handler that sets the interrupt
-- flag may itself be interrupted: the interrupts that come before and behind its work are lists,
-- and the work is one step. Interrupts between the restoring of the flags and the handler's return
-- count as the next ones. The handler's messages are listed by their lines, not as characters on
-- the screen. The keyboard's handler, IRQ1_handler_sub, is no constructor of these types: it may start a
-- shell and not return, so that nothing here speaks of a keyboard interrupt inside another handler.
pub mod Quiet
pub mod Fair
pub mod Exceptions
pub mod Faults
use snoop_diggity_d_os.Prelude.{
  ℕ, List, [], ◌∷◌, ◌++◌, Option, none, some, Bool, ◌==◌, if◌then◌else◌, update, bit_and, bit_or,
  not,
}
use snoop_diggity_d_os.Pic.{PortWrite, outb, send_eoi}
use snoop_diggity_d_os.Rtc.{rtc_control_port}
use snoop_diggity_d_os.Scheduler.{round_robin_scheduler, current_pcb, stack_top}

-- The lines whose handlers print a message: 3 to 7 and 9 to 15.
pub data Line : Type 0 where
  com2 com1 lpt2 floppy lpt1 peripherals_9 peripherals_10 eth0 mouse coprocessor ide0 ide1 : Line

pub data Device : Type 0 where
  rtc : Device
  other : Line → Device

-- What the handlers read and write: the task state's `esp0`, the flags of the process control
-- blocks by address, the scheduler's state with the pids of the terminals, the clock's flag, and in
-- order the writes to the ports, the messages and the terminals that were switched to.
pub record Kernel : Type 0 where
  pub esp0 : ℕ
  pub flags : ℕ → ℕ
  pub terminals_launched : ℕ
  pub terminal_being_serviced : ℕ
  pub terminal_pid : ℕ → ℕ
  pub rtc_flag : ℕ
  pub writes : List PortWrite
  pub printed : List Line
  pub switches : List ℕ

abbrev pub in_interrupt_flag : ℕ
in_interrupt_flag = 0x0002

-- in_hardware_int
unfoldable pub in_hardware_int : Kernel → Bool
in_hardware_int k = not (bit_and (k.flags (current_pcb k.esp0)) in_interrupt_flag == 0)

-- the switch in round_robin_scheduler, as far as it changes what the handlers read
unfoldable pub switch_to : Option ℕ → Kernel → Kernel
switch_to none k = k
switch_to (some t) k = record k {
  esp0 = stack_top (k.terminal_pid t);
  switches = k.switches ++ (t ∷ []);
}

-- IRQ0_handler_sub
unfoldable pub irq0_handler : Kernel → Kernel
unfolding switch_to
irq0_handler k =
    let k₁ = record k { writes = k.writes ++ send_eoi 0 } in
    if in_hardware_int k₁
    then k₁
    else (let (next, found) =
          round_robin_scheduler k₁.terminals_launched k₁.terminal_being_serviced in
        switch_to found (record k₁ { terminal_being_serviced = next }))

-- what IRQ3_handler_sub to IRQ15_handler_sub do between sti() and the restoring of the flags
unfoldable pub device_work : Device → Kernel → Kernel
device_work rtc k = record k {
  writes = k.writes ++ (outb 0x8C rtc_control_port ∷ send_eoi 8);
  rtc_flag = 0;
}
device_work (other line) k = record k { printed = k.printed ++ (line ∷ []) }

-- An interrupt, with those that come before and behind the work of its handler.
mutual
  pub data Interrupt : Type 0 where
    timer : Interrupt
    device : Device → Interrupts → Interrupts → Interrupt

  pub data Interrupts : Type 0 where
    quiet : Interrupts
    then_next : Interrupt → Interrupts → Interrupts

-- the saving and setting of the flags at a handler's start, and the restoring at its end
unfoldable pub set_interrupt_flag : ℕ → Kernel → Kernel
set_interrupt_flag pcb_curr k = record k {
  flags = update (k.flags) pcb_curr (bit_or (k.flags pcb_curr) in_interrupt_flag);
}

unfoldable pub restore_flags : ℕ → ℕ → Kernel → Kernel
restore_flags pcb_curr flags k = record k { flags = update (k.flags) pcb_curr flags }

-- a handler, with the interrupts it takes
unfoldable mutual
  pub handle : Interrupt → Kernel → Kernel
  handle timer k = irq0_handler k
  handle (device d before behind) k =
      let pcb_curr = current_pcb k.esp0 in
      let k₁ = handle_all before (set_interrupt_flag pcb_curr k) in
      let k₂ = handle_all behind (device_work d k₁) in restore_flags pcb_curr (k.flags pcb_curr) k₂

  pub handle_all : Interrupts → Kernel → Kernel
  handle_all quiet k = k
  handle_all (then_next i rest) k = handle_all rest (handle i k)
