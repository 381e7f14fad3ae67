-- ===== src/Pic/Mask.antt =====
-- The masks and the end-of-interrupt commands of student-distrib/devices/i8259.c.
use snoop_diggity_d_os.Prelude.{
  ℕ, ◌+◌, ◌-◌, ◌/◌, ◌%◌, ◌^◌, ◌<◌, ◌≤◌, ◌≡◌, ◌↔◌, refl, ap, List, [], ◌∷◌, Bool, true, false, leb,
  if◌then◌else◌, bit_and, bit_or, ◌==◌, not, ◌&&◌, ◌||◌, arith,
}
use snoop_diggity_d_os.Prelude.Tables.{all_below, all_below_sound}
use snoop_diggity_d_os.Pic.{
  PortWrite, outb, Masks, save_mask, enable_irq, disable_irq, send_eoi, irq_port, irq_line, eoi,
  slave_8259_port, master_8259_port,
}

-- The saved mask of the controller of an interrupt line.
abbrev pub mask_of : Masks → ℕ → ℕ
mask_of s irq_num = if leb 8 irq_num then s.slave_mask else s.master_mask

-- Line `n` of a controller is masked.
abbrev pub masked : ℕ → ℕ → Bool
masked mask n = mask / 2 ^ n % 2 == 1

abbrev same : Bool → Bool → Bool
same true b = b
same false b = not b

same→eq : (a b : Bool) → same a b ≡ true → a ≡ b
same→eq a b h = ground arith

abbrev table : (ℕ → ℕ → ℕ → Bool) → Bool
table p = all_below 256 (λ w. all_below 8 (λ i. all_below 8 (λ j. p w i j)))

table_sound :
    (p : ℕ → ℕ → ℕ → Bool) (w i j : ℕ) → table p ≡ true → w < 256 → i < 8 → j < 8 → p w i j ≡ true
table_sound p w i j h hw hi hj =
    all_below_sound 8 (λ j. p w i j) j
      (all_below_sound 8 (λ i. all_below 8 (λ j. p w i j)) i
        (all_below_sound 256 (λ w. all_below 8 (λ i. all_below 8 (λ j. p w i j))) w h hw) hi)
      hj

enable_table :
    table
      (λ w i j. same (masked (bit_and w (2 ^ 32 - 1 - 2 ^ i) % 256) j) (not (j == i) && masked w j))
    ≡ true
unfolding all_below
enable_table = refl

disable_table :
    table (λ w i j. same (masked (bit_or w (2 ^ i) % 256) j) (j == i || masked w j)) ≡ true
unfolding all_below
disable_table = refl

irq_line-lt : (irq : ℕ) → irq < 16 → irq_line irq < 8
irq_line-lt irq h = ground arith

mask_of-save_mask : (s : Masks) (irq m : ℕ) → mask_of (save_mask s irq m).0 irq ≡ m
mask_of-save_mask s irq m = ground arith

mask_of-save_mask_other :
    (s : Masks) (irq m other : ℕ)
    → leb 8 other ≡ not (leb 8 irq)
    → mask_of (save_mask s irq m).0 other ≡ mask_of s other
mask_of-save_mask_other s irq m other h = ground arith

-- For one of the 16 lines, enable_irq unmasks the line that it is given and keeps the other
-- lines of that controller as the port read them, writes that mask to the controller's data
-- port, and saves it; the saved mask of the other controller stays.
pub enable_irq_lem :
    (inb : ℕ → ℕ) (s : Masks) (irq : ℕ)
    → irq < 16
    → inb (irq_port irq) < 256
    → let r = enable_irq inb s irq in
      ((j : ℕ)
        → j < 8
        → masked (mask_of r.0 irq) j ≡ (not (j == irq_line irq) && masked (inb (irq_port irq)) j))
      × (r.1 ≡ outb (mask_of r.0 irq) (irq_port irq) ∷ [])
      × ((other : ℕ) → leb 8 other ≡ not (leb 8 irq) → mask_of r.0 other ≡ mask_of s other)
unfolding enable_irq
enable_irq_lem inb s irq h byte = (
  λ j hj.
      rw
        (mask_of-save_mask s irq
          (bit_and (inb (irq_port irq)) (2 ^ 32 - 1 - 2 ^ irq_line irq) % 256))
        (same→eq _ _ (
          table_sound _ (inb (irq_port irq)) (irq_line irq) j enable_table byte (irq_line-lt irq h)
            hj)),
  rw (mask_of-save_mask s irq (bit_and (inb (irq_port irq)) (2 ^ 32 - 1 - 2 ^ irq_line irq) % 256)),
  λ other opposite.
      mask_of-save_mask_other s irq
        (bit_and (inb (irq_port irq)) (2 ^ 32 - 1 - 2 ^ irq_line irq) % 256) other opposite,
)

-- For one of the 16 lines, disable_irq masks the line that it is given and keeps the other lines
-- of that controller as the port read them, writes that mask to the controller's data port, and
-- saves it; the saved mask of the other controller stays.
pub disable_irq_lem :
    (inb : ℕ → ℕ) (s : Masks) (irq : ℕ)
    → irq < 16
    → inb (irq_port irq) < 256
    → let r = disable_irq inb s irq in
      ((j : ℕ)
        → j < 8
        → masked (mask_of r.0 irq) j ≡ (j == irq_line irq || masked (inb (irq_port irq)) j))
      × (r.1 ≡ outb (mask_of r.0 irq) (irq_port irq) ∷ [])
      × ((other : ℕ) → leb 8 other ≡ not (leb 8 irq) → mask_of r.0 other ≡ mask_of s other)
unfolding disable_irq
disable_irq_lem inb s irq h byte = (
  λ j hj. rw (mask_of-save_mask s irq (bit_or (inb (irq_port irq)) (2 ^ irq_line irq) % 256)) (
      same→eq _ _ (
        table_sound _ (inb (irq_port irq)) (irq_line irq) j disable_table byte (irq_line-lt irq h)
          hj)),
  rw (mask_of-save_mask s irq (bit_or (inb (irq_port irq)) (2 ^ irq_line irq) % 256)),
  λ other opposite.
      mask_of-save_mask_other s irq (bit_or (inb (irq_port irq)) (2 ^ irq_line irq) % 256) other
        opposite,
)

abbrev first_value : List PortWrite → ℕ
first_value [] = 0
first_value (w ∷ ws) = w.value

eoi_table :
    all_below 16 (λ irq.
      not (leb 8 irq)
      || same (bit_or eoi ((2 ^ 32 + 8 - irq) % 2 ^ 32) % 256 == eoi + (irq - 8)) (irq == 8))
    ≡ true
unfolding all_below
eoi_table = refl

-- The specific end-of-interrupt command for the slave's own line, `0x60 + (irq - 8)`, is what
-- send_eoi sends to the slave for interrupt 8 and for no other interrupt of the slave.
pub send_eoi-slave :
    (irq : ℕ)
    → 8 ≤ irq
    → irq < 16
    → (send_eoi irq
        ≡ outb (eoi + (irq - 8)) slave_8259_port ∷ outb (bit_or eoi 2) master_8259_port ∷ [])
      ↔ (irq ≡ 8)
unfolding send_eoi
send_eoi-slave irq lo hi =
    let entry =
      all_below_sound 16
        (λ irq.
          not (leb 8 irq)
          || same (bit_or eoi ((2 ^ 32 + 8 - irq) % 2 ^ 32) % 256 == eoi + (irq - 8)) (irq == 8))
        irq eoi_table hi in
    (λ e. ground (arith, entry, ap first_value e), λ e. rw e refl)
