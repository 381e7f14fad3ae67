-- ===== src/Idt/Gates.antt =====
-- What the processor makes of a gate of student-distrib/x86_desc.h, by its manual.
use snoop_diggity_d_os.Prelude.{
  ℕ, ◌+◌, ◌*◌, ◌/◌, ◌%◌, ◌^◌, ◌<◌, ◌≡◌, ◌∙◌, ap, Option, none, some, Bool, false, ◌&&◌, ltb, ◌==◌,
  not, if◌then◌else◌, bit_and, arith,
}
use snoop_diggity_d_os.Prelude.Bits.{bit_and_split, bit_and_ones, bit_and-zero}
use snoop_diggity_d_os.Idt.{Gate, set_idt_entry}

-- What happens at an interrupt: the handler at an address runs, with interrupts on or off.
pub record Entered : Type 0 where
  pub handler : ℕ
  pub interrupts : Bool

-- the four bits of the gate's type and the bit of a system descriptor: 0xE is a 32-bit interrupt gate,
-- 0xF a 32-bit trap gate
abbrev pub gate_type : Gate → ℕ
gate_type g = g.reserved3 + 2 * g.reserved2 + 4 * g.reserved1 + 8 * g.size + 16 * g.reserved0

abbrev pub gate_offset : Gate → ℕ
gate_offset g = g.offset_31_16 * 2 ^ 16 + g.offset_15_00

-- A selector of the kernel's code segment: entry 2 of the global descriptor table; the privilege bits of
-- a gate's selector are not looked at.
abbrev pub is_kernel_code : ℕ → Bool
is_kernel_code selector = selector / 8 == 2 && selector / 4 % 2 == 0

-- Through a gate, with the interrupt flag as it was; none is a fault. An `int` instruction of a program
-- with a higher privilege number than the gate's is refused; exceptions and the devices' interrupts are not. The
-- kernel's is the one code segment of the table to which a gate can lead; any other selector is a fault.
abbrev pub enter : Gate → (by_program : Bool) (level : ℕ) (flag : Bool) → Option Entered
enter g by_program level flag =
    if g.present == 0
    then none
    else if by_program && ltb g.dpl level
    then none
    else if not (is_kernel_code g.seg_selector)
    then none
    else if gate_type g == 0xE
    then some (record { handler = gate_offset g; interrupts = false })
    else if gate_type g == 0xF
    then some (record { handler = gate_offset g; interrupts = flag })
    else none

-- The two halves of the address give it back.
pub set_idt_entry-offset :
    (gate : Gate) (handler : ℕ)
    → handler < 2 ^ 32
    → gate_offset (set_idt_entry gate handler) ≡ handler
unfolding set_idt_entry
set_idt_entry-offset gate handler h =
    let parts : handler ≡ handler / 2 ^ 16 * 2 ^ 16 + handler % 2 ^ 16 = omega arith in
    let low : bit_and handler 0xFFFF ≡ handler % 2 ^ 16 = bit_and_ones 16 handler in
    let high : bit_and handler 0xFFFF0000 ≡ handler / 2 ^ 16 * 2 ^ 16 =
      ap (λ x. bit_and x 0xFFFF0000) parts
      ∙ bit_and_split 16 (handler / 2 ^ 16) (handler % 2 ^ 16) 0xFFFF 0 (omega arith) (omega arith)
      ∙ rw (bit_and_ones 16 (handler / 2 ^ 16), bit_and-zero (handler % 2 ^ 16)) (omega arith) in
    rw (low, high) (omega arith)
