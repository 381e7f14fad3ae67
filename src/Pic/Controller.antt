-- ===== src/Pic/Controller.antt =====
-- What an 8259A controller makes of the bytes that are written to its ports, by its manual.
use snoop_diggity_d_os.Prelude.{
  ℕ, ◌+◌, ◌-◌, ◌≡◌, refl, List, [], ◌∷◌, ◌++◌, ◌⊎◌, ◌==◌, if◌then◌else◌, bit_and,
}
use snoop_diggity_d_os.Pic.{PortWrite}

-- How many initialisation words are still to come, and the interrupt mask.
pub record Controller : Type 0 where
  pub icws : ℕ
  pub mask : ℕ

-- The words behind the first one, which says whether a third and a fourth one come.
abbrev icws_after : ℕ → ℕ
icws_after icw1 =
    1 + (if bit_and icw1 2 == 0 then 1 else 0) + (if bit_and icw1 1 == 0 then 0 else 1)

-- A write, with the controller's command port; its data port is the next one. The first word of an
-- initialisation has bit 4 set and clears the mask. The data port takes the words to come, and then the mask.
abbrev pub take_write : ℕ → Controller → PortWrite → Controller
take_write command c w =
    if w.port == command
    then if bit_and w.value 0x10 == 0 then c else record { icws = icws_after w.value; mask = 0 }
    else if w.port == command + 1
    then if c.icws == 0 then record c { mask = w.value } else record c { icws = c.icws - 1 }
    else c

abbrev pub take_writes : ℕ → Controller → List PortWrite → Controller
take_writes command c [] = c
take_writes command c (w ∷ ws) = take_writes command (take_write command c w) ws

-- Outside of an initialisation the data ports of the controllers at 0x20 and 0xA0 read their masks,
-- whatever state the controllers were in at the start.
abbrev pub ReadsMasks : (ℕ → Controller) → (List PortWrite → ℕ → ℕ) → Type 0
ReadsMasks start inb =
    (ws : List PortWrite) (command : ℕ)
    → (command ≡ 0x20) ⊎ (command ≡ 0xA0)
    → (take_writes command (start command) ws).icws ≡ 0
    → inb ws (command + 1) ≡ (take_writes command (start command) ws).mask

pub take_writes-append :
    (command : ℕ) (c : Controller) (ws more : List PortWrite)
    → take_writes command c (ws ++ more) ≡ take_writes command (take_writes command c ws) more
take_writes-append command c [] more = refl
take_writes-append command c (w ∷ ws) more =
    take_writes-append command (take_write command c w) ws more
