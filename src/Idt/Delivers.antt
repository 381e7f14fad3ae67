-- ===== src/Idt/Delivers.antt =====
-- The table that init_idt of student-distrib/kernel.c sets up.
use snoop_diggity_d_os.Prelude.{
  ℕ, ◌+◌, ◌^◌, ◌<◌, ◌≡◌, Option, none, some, Bool, true, false, ◌&&◌, ◌||◌, not, ltb, leb, ◌==◌,
  if◌then◌else◌, arith,
}
use snoop_diggity_d_os.Prelude.Tables.{for_range-update}
use snoop_diggity_d_os.Idt.{Gate, init_gate, init_idt_entry, init_idt}
use snoop_diggity_d_os.Idt.Gates.{Entered, enter, set_idt_entry-offset}

-- The vectors of the exceptions and of the two interrupt controllers.
abbrev pub is_hardware : ℕ → Bool
is_hardware v = ltb v 20 && (not (v == 1) && not (v == 15)) || leb 32 v && ltb v 48

-- What an interrupt of a vector should do: exceptions and devices enter their handler with interrupts
-- off, when no program asks for it; a program enters the system call handler with its interrupt flag.
abbrev pub delivered : (ℕ → ℕ) → ℕ → Bool → ℕ → Bool → Option Entered
delivered idt_handler v by_program level flag =
    if is_hardware v
    then if by_program && ltb 0 level
      then none
      else some (record { handler = idt_handler v; interrupts = false })
    else if v == 0x80
    then if by_program && ltb 3 level
      then none
      else some (record { handler = idt_handler 48; interrupts = flag })
    else none

entered :
    (gate : Gate) (idt_handler : ℕ → ℕ) (v level : ℕ) (by_program flag : Bool)
    → ((i : ℕ) → idt_handler i < 2 ^ 32)
    → enter (init_idt_entry idt_handler v gate) by_program level flag
      ≡ delivered idt_handler v by_program level flag
unfolding init_idt_entry init_gate
entered gate idt_handler v level by_program flag small =
    let own = set_idt_entry-offset gate (idt_handler v) (small v) in
    let call = set_idt_entry-offset gate (idt_handler 48) (small 48) in ground arith

-- With the addresses of the handlers below 2^32, and whatever the table held before: after init_idt
-- the processor enters, at an exception but 1 and 15 or at an interrupt of the two controllers, the
-- handler of that vector with interrupts off, and a program cannot call it; at 0x80 it enters the
-- system call handler, entry 48 of the jump table, with the interrupt flag as it was, also for a
-- program; and no other of the 256 vectors has a handler.
pub init_idt-delivered :
    (idt_handler : ℕ → ℕ) (idt : ℕ → Gate) (v level : ℕ) (by_program flag : Bool)
    → ((i : ℕ) → idt_handler i < 2 ^ 32)
    → v < 256
    → enter (init_idt idt_handler idt v) by_program level flag
      ≡ delivered idt_handler v by_program level flag
unfolding init_idt
init_idt-delivered idt_handler idt v level by_program flag small h =
    let here : (leb 0 v && ltb v (0 + 256)) ≡ true = ground arith in
    rw (for_range-update (init_idt_entry idt_handler) 256 0 idt v, here)
      (entered (idt v) idt_handler v level by_program flag small)
