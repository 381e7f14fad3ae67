-- ===== src/Interrupts/Exceptions.antt =====
-- student-distrib/interrupt_handler.c: the handlers of exceptions and of interrupts with no handler, which
-- print a message through the page table of the running process and end it by halt_excep.
use snoop_diggity_d_os.Prelude.{ℕ, List, [], ◌∷◌, ◌++◌, Option, none, some, pos, codes}
use snoop_diggity_d_os.Pic.{PortWrite}
use snoop_diggity_d_os.Terminals.{State, write_terminal}
use snoop_diggity_d_os.Execute.{System}
use snoop_diggity_d_os.Execute.Leave.{Halted, halt_excep}

-- ignore_int_sub, and exception_handler_0_sub to exception_handler_19_sub in order.
pub data Exception : Type 0 where
  unknown divide_by_zero nmi breakpoint overflow bound_range invalid_opcode not_available :
      Exception
  double_fault coprocessor_overrun invalid_tss segment_not_present stack_segment : Exception
  general_protection page_fault fpu alignment_check machine_check simd : Exception

-- the format of printf_t in the handler; none holds a '%'
unfoldable pub message : Exception → List ℕ
message unknown = codes "Unknown interrupt"
message divide_by_zero = codes "EXCEPTION: DIVIDE BY ZERO ERROR\n"
message nmi = codes "EXCEPTION: NMI INTERRUPT\n"
message breakpoint = codes "EXCEPTION: BREAKPOINT\n"
message overflow = codes "EXCEPTION: OVERFLOW\n"
message bound_range = codes "EXCEPTION: BOUND RANGE EXCEEDED ERROR\n"
message invalid_opcode = codes "EXCEPTION: INVALID OPCODE ERROR\n"
message not_available = codes "EXCEPTION: DEVICE NOT AVAILABLE\n"
message double_fault = codes "EXCEPTION: DOUBLE FAULT\n"
message coprocessor_overrun = codes "EXCEPTION: COPROCESSOR SEGMENT OVERRUN\n"
message invalid_tss = codes "EXCEPTION: INVALID TSS ERROR\n"
message segment_not_present = codes "EXCEPTION: SEGMENT NOT PRESENT ERROR\n"
message stack_segment = codes "EXCEPTION: STACK-SEGMENT FAULT\n"
message general_protection = codes "EXCEPTION: GENERAL PROTECTION FAULT\n"
message page_fault = codes "EXCEPTION: PAGE FAULT ERROR\n"
message fpu = codes "EXCEPTION: x87 FPU FLOATING-POINT ERROR\n"
message alignment_check = codes "EXCEPTION: ALIGNMENT CHECK\n"
message machine_check = codes "EXCEPTION: MACHINE CHECK\n"
message simd = codes "EXCEPTION: SIMD FLOATING-POINT EXCEPTION\n"

-- printf_t of a text without '%' and without its NUL, called by the process `pid`: a call of
-- write_terminal for each character, from a buffer with the character
unfoldable pub print_chars : State → ℕ → List ℕ → Option (State × List PortWrite)
print_chars s pid [] = some (s, [])
print_chars s pid (c ∷ text) = elim (write_terminal s pid (pos 1) (c ∷ 0 ∷ []) (pos 1)) [
  | none ↦ none
  | some w ↦ elim (print_chars w.state pid text) [
    | none ↦ none
    | some (s', writes) ↦ some (s', w.writes ++ writes)
  ]
]

-- What a handler leaves: the terminals, the writes to the ports, and what halt_excep does.
pub record Handled : Type 0 where
  pub terminals : State
  pub writes : List PortWrite
  pub halted : Halted

abbrev pub exception_halt_ret_val : ℕ
exception_halt_ret_val = 256

-- the handler of an exception, while the process `pid` runs
unfoldable pub exception_handler : Exception → State → System → ℕ → Option Handled
exception_handler e terminals s pid = elim (print_chars terminals pid (message e)) [
  | none ↦ none
  | some (terminals', writes) ↦ some (record {
    terminals = terminals';
    writes = writes;
    halted = halt_excep s exception_halt_ret_val;
  })
]
