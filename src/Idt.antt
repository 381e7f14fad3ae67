-- ===== src/Idt.antt =====
-- student-distrib/kernel.c and student-distrib/x86_desc.h: the interrupt descriptor table. The jump
-- table of student-distrib/interrupt_handler_asm.S is a function from its index to an address.
pub mod Gates
pub mod Delivers
use snoop_diggity_d_os.Prelude.{
  ℕ, ◌/◌, ◌^◌, Bool, ◌&&◌, not, ltb, leb, ◌==◌, if◌then◌else◌, bit_and, update,
}
use snoop_diggity_d_os.Prelude.Tables.{for_range}

-- idt_desc_t
pub record Gate : Type 0 where
  pub offset_15_00 : ℕ
  pub seg_selector : ℕ
  pub reserved4 : ℕ
  pub reserved3 : ℕ
  pub reserved2 : ℕ
  pub reserved1 : ℕ
  pub size : ℕ
  pub reserved0 : ℕ
  pub dpl : ℕ
  pub present : ℕ
  pub offset_31_16 : ℕ

abbrev pub valid_exception_range : ℕ
valid_exception_range = 20

abbrev pub reserved_excep_1 : ℕ
reserved_excep_1 = 1

abbrev pub reserved_excep_15 : ℕ
reserved_excep_15 = 15

abbrev pub irq_low_bound : ℕ
irq_low_bound = 32

abbrev pub irq_high_bound : ℕ
irq_high_bound = 48

abbrev pub system_call_vector : ℕ
system_call_vector = 0x80

abbrev pub system_call_handler : ℕ
system_call_handler = 48

abbrev pub num_vec : ℕ
num_vec = 256

abbrev pub kernel_cs : ℕ
kernel_cs = 0x10

-- SET_IDT_ENTRY
unfoldable pub set_idt_entry : Gate → ℕ → Gate
set_idt_entry gate handler = record gate {
  offset_31_16 = bit_and handler 0xFFFF0000 / 2 ^ 16;
  offset_15_00 = bit_and handler 0xFFFF;
}

-- the assignments that the three branches for a handler share, with reserved3 and dpl, in which the
-- third one differs
unfoldable pub init_gate : Gate → ℕ → ℕ → ℕ → Gate
init_gate gate handler gate_kind level = record (set_idt_entry gate handler) {
  seg_selector = kernel_cs;
  reserved4 = 0;
  reserved3 = gate_kind;
  reserved2 = 1;
  reserved1 = 1;
  size = 1;
  reserved0 = 0;
  dpl = level;
  present = 1;
}

-- the body of the loop of init_idt
unfoldable pub init_idt_entry : (ℕ → ℕ) → ℕ → Gate → Gate
unfolding init_gate
init_idt_entry idt_handler i gate =
    if ltb i valid_exception_range && (not (i == reserved_excep_1) && not (i == reserved_excep_15))
    then init_gate gate (idt_handler i) 0 0
    else if leb irq_low_bound i && ltb i irq_high_bound
    then init_gate gate (idt_handler i) 0 0
    else if i == system_call_vector
    then init_gate gate (idt_handler system_call_handler) 1 3
    else record gate { present = 0 }

-- init_idt
unfoldable pub init_idt : (ℕ → ℕ) → (ℕ → Gate) → ℕ → Gate
init_idt idt_handler idt =
    for_range num_vec 0 (λ i idt. update idt i (init_idt_entry idt_handler i (idt i))) idt
