-- ===== src/Boot/Enabled.antt =====
-- Which interrupts are enabled behind the initialisation in student-distrib/kernel.c.
use snoop_diggity_d_os.Prelude.{ℕ, ◌≡◌, refl, ap, ◌∙◌, [], ◌++◌, inl, inr}
use snoop_diggity_d_os.Pic.{i8259_init, enable_irq}
use snoop_diggity_d_os.Pic.Controller.{Controller, ReadsMasks, take_writes, take_writes-append}
use snoop_diggity_d_os.Screen.{initialize_video_memory}
use snoop_diggity_d_os.Rtc.{init_rtc}
use snoop_diggity_d_os.Terminals.Keys.{init_kbd}
use snoop_diggity_d_os.Scheduler.{init_scheduling}
use snoop_diggity_d_os.Boot.{
  Environment, Machine, init_interrupts, init_timer, init_paging, init_filesystem, init_devices,
}

-- after init_kbd
interrupts-enabled :
    (env : Environment) (m : Machine) (start : ℕ → Controller)
    → ReadsMasks start env.inb
    → m.writes ≡ []
    → let m' = init_interrupts env m in
      (m'.rtc.masks ≡ record { master_mask = 0xF9; slave_mask = 0xFE })
      × (take_writes 0x20 (start 0x20) m'.writes ≡ record { icws = 0; mask = 0xF9 })
      × (take_writes 0xA0 (start 0xA0) m'.writes ≡ record { icws = 0; mask = 0xFE })
unfolding init_interrupts i8259_init init_rtc init_kbd enable_irq
interrupts-enabled env m start reads empty =
    let slave : env.inb i8259_init.1 0xA1 ≡ 0xFF = reads i8259_init.1 0xA0 (inr refl) refl in
    let w =
      i8259_init.1
      ++ (init_rtc (record { reg_a = env.rtc_reg_a; reg_b = env.rtc_reg_b; pic = λ _. 0xFF })
          (record { been_inited = 0; masks = i8259_init.0 })).writes in
    let master : env.inb w 0x21 ≡ 0xFB = reads w 0x20 (inl refl) refl in
    rw (empty, slave, master) (refl, refl, refl)

-- after init_scheduling
timer-enabled :
    (env : Environment) (m : Machine) (start : ℕ → Controller)
    → ReadsMasks start env.inb
    → m.rtc.masks ≡ record { master_mask = 0xF9; slave_mask = 0xFE }
    → take_writes 0x20 (start 0x20) m.writes ≡ record { icws = 0; mask = 0xF9 }
    → take_writes 0xA0 (start 0xA0) m.writes ≡ record { icws = 0; mask = 0xFE }
    → let m' = init_timer env m in
      (m'.rtc.masks ≡ record { master_mask = 0xF8; slave_mask = 0xFE })
      × (take_writes 0x20 (start 0x20) m'.writes ≡ record { icws = 0; mask = 0xF8 })
      × (take_writes 0xA0 (start 0xA0) m'.writes ≡ record { icws = 0; mask = 0xFE })
unfolding init_timer init_scheduling enable_irq
timer-enabled env m start reads masks master slave =
    let read : env.inb m.writes 0x21 ≡ 0xF9 =
      reads m.writes 0x20 (inl refl) (ap (λ c. c.icws) master) ∙ ap (λ c. c.mask) master in
    rw
      (
        read,
        take_writes-append 0x20 (start 0x20) m.writes,
        take_writes-append 0xA0 (start 0xA0) m.writes,
        master,
        slave,
      )
      (ap (λ s. record { master_mask = 0xF8; slave_mask = s.slave_mask }) masks, refl, refl)

-- Outside of an initialisation the data ports of the interrupt controllers read their masks, the
-- controllers start in any state, and no port was written before. Then behind the initialisation by
-- entry both the saved masks and those in the controllers enable exactly the timer, the keyboard, the
-- line to the slave and the clock, lines 0, 1, 2 and 8, and no controller waits for a further word of
-- its initialisation.
pub init_devices-enabled :
    (env : Environment) (m : Machine) (filesys_start_addr : ℕ) (start : ℕ → Controller)
    → ReadsMasks start env.inb
    → m.writes ≡ []
    → let m' = init_devices env m filesys_start_addr in
      (m'.rtc.masks ≡ record { master_mask = 0xF8; slave_mask = 0xFE })
      × (take_writes 0x20 (start 0x20) m'.writes ≡ record { icws = 0; mask = 0xF8 })
      × (take_writes 0xA0 (start 0xA0) m'.writes ≡ record { icws = 0; mask = 0xFE })
unfolding init_devices init_paging
init_devices-enabled env m address start reads empty =
    let paged = init_paging env m in
    let (masks, master, slave) = interrupts-enabled env paged start reads empty in
    let m₁ = init_interrupts env paged in
    timer-enabled env
      (record m₁ {
        file_system = init_filesystem env.memory address;
        screen = initialize_video_memory m₁.screen;
      })
      start reads masks master slave
