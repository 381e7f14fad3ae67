-- ===== src/Pic.antt =====
-- student-distrib/devices/i8259.c: the two interrupt controllers. `inb` is what the ports read, and
-- each `outb(value, port)` is an entry of the list of writes, in order; `io_wait` only delays.
pub mod Mask
pub mod Controller
use snoop_diggity_d_os.Prelude.{
  ℕ, ◌+◌, ◌-◌, ◌*◌, ◌/◌, ◌%◌, ◌^◌, List, [], ◌∷◌, Bool, ltb, leb, if◌then◌else◌, bit_and, bit_or,
}

-- One write of a byte to a port.
pub record PortWrite : Type 0 where
  pub value : ℕ
  pub port : ℕ

abbrev pub outb : ℕ → ℕ → PortWrite
outb value port = record { value = value % 256; port = port }

-- the saved masks
pub record Masks : Type 0 where
  pub master_mask : ℕ
  pub slave_mask : ℕ

abbrev pub master_8259_port : ℕ
master_8259_port = 0x20

abbrev pub slave_8259_port : ℕ
slave_8259_port = 0xA0

abbrev pub master_8259_port_data : ℕ
master_8259_port_data = 0x21

abbrev pub slave_8259_port_data : ℕ
slave_8259_port_data = 0xA1

abbrev pub eoi : ℕ
eoi = 0x60

-- i8259_init
unfoldable pub i8259_init : Masks × List PortWrite
i8259_init = (
  record { master_mask = 0xFB; slave_mask = 0xFF },
  outb 0x11 master_8259_port
      ∷ outb 0x11 slave_8259_port
      ∷ outb 0x20 master_8259_port_data
      ∷ outb 0x28 slave_8259_port_data
      ∷ outb 0x04 master_8259_port_data
      ∷ outb 0x02 slave_8259_port_data
      ∷ outb 0x01 master_8259_port_data
      ∷ outb 0x01 slave_8259_port_data
      ∷ outb 0xFB master_8259_port_data
      ∷ outb 0xFF slave_8259_port_data
      ∷ [],
)

-- port_number, and irq_num on that controller
abbrev pub irq_port : ℕ → ℕ
irq_port irq_num = if leb 8 irq_num then slave_8259_port_data else master_8259_port_data

abbrev pub irq_line : ℕ → ℕ
irq_line irq_num = if leb 8 irq_num then irq_num - 8 else irq_num

-- the update of the saved mask, and the write
abbrev save_mask : Masks → ℕ → ℕ → Masks × List PortWrite
save_mask s irq_num mask = (
  if leb 8 irq_num then record s { slave_mask = mask } else record s { master_mask = mask },
  outb mask (irq_port irq_num) ∷ [],
)

-- enable_irq; `~(1 << irq_num)` on 32 bits, and the mask is a `uint8_t`
unfoldable pub enable_irq : (ℕ → ℕ) → Masks → ℕ → Masks × List PortWrite
enable_irq inb s irq_num =
    save_mask s irq_num (bit_and (inb (irq_port irq_num)) (2 ^ 32 - 1 - 2 ^ irq_line irq_num) % 256)

-- disable_irq
unfoldable pub disable_irq : (ℕ → ℕ) → Masks → ℕ → Masks × List PortWrite
disable_irq inb s irq_num =
    save_mask s irq_num (bit_or (inb (irq_port irq_num)) (2 ^ irq_line irq_num) % 256)

-- send_eoi; `NUM_INTERRUPTS_PER_PIC - irq_num` wraps as a 32-bit word
unfoldable pub send_eoi : ℕ → List PortWrite
send_eoi irq_num =
    if leb 8 irq_num
    then outb (bit_or eoi ((2 ^ 32 + 8 - irq_num) % 2 ^ 32)) slave_8259_port
      ∷ outb (bit_or eoi 2) master_8259_port
      ∷ []
    else outb (bit_or eoi irq_num) master_8259_port ∷ []
