-- ===== src/Tests/Boot.antt =====
-- The start of the kernel on a small machine.
use snoop_diggity_d_os.Prelude.{
  ℕ, ◌+◌, ◌-◌, ◌*◌, ◌<◌, ◌^◌, ◌≡◌, refl, ap, List, [], ◌∷◌, some, true, ltb, ◌==◌, if◌then◌else◌,
  arith, pos,
}
use snoop_diggity_d_os.Pic.{PortWrite}
use snoop_diggity_d_os.Scheduler.{pcb_address, stack_top}
use snoop_diggity_d_os.Keyboard.{init_terminal}
use snoop_diggity_d_os.Execute.{System, UserContext, started, internal_execute}
use snoop_diggity_d_os.Execute.Leave.{shell}
use snoop_diggity_d_os.Idt.{Gate, init_idt}
use snoop_diggity_d_os.Idt.Gates.{enter}
use snoop_diggity_d_os.Idt.Delivers.{delivered, init_idt-delivered}
use snoop_diggity_d_os.Segments.{SegDesc, ldt_entry, tss_entry}
use snoop_diggity_d_os.Segments.Place.{segment_base, segment_limit, system_segments-placed}
use snoop_diggity_d_os.Multiboot.{Memory, Message, region, memory_map_at, regions}
use snoop_diggity_d_os.Multiboot.Regions.{IsMap, done, entry, regions-IsMap}
use snoop_diggity_d_os.Boot.{
  Environment, Machine, executes, init_devices, multiboot_bootloader_magic,
}
use snoop_diggity_d_os.Boot as boot
use snoop_diggity_d_os.Boot.Enabled.{init_devices-enabled}
use snoop_diggity_d_os.Pic.Controller.{Controller, ReadsMasks, take_writes}
use snoop_diggity_d_os.Boot.Shell.{entry-first_shell}
use snoop_diggity_d_os.Tests.Programs.{image, unset, system}

abbrev handlers : ℕ → ℕ
handlers i = if ltb i 49 then 0x400000 + 16 * i else 0

handlers_small : (i : ℕ) → handlers i < 2 ^ 32
handlers_small i = ground arith

abbrev no_gate : Gate
no_gate = record {
  offset_15_00 = 0;
  seg_selector = 0;
  reserved4 = 0;
  reserved3 = 0;
  reserved2 = 0;
  reserved1 = 0;
  size = 0;
  reserved0 = 0;
  dpl = 0;
  present = 0;
  offset_31_16 = 0;
}

-- a program's system call, with interrupts on
init_idt-delivered_example :
    enter (init_idt handlers (λ _. no_gate) 0x80) true 3 true ≡ delivered handlers 0x80 true 3 true
init_idt-delivered_example =
    init_idt-delivered handlers (λ _. no_gate) 0x80 3 true true handlers_small (omega arith)

abbrev garbage : SegDesc
garbage = record {
  seg_lim_15_00 = 1;
  base_15_00 = 2;
  base_23_16 = 3;
  type = 4;
  sys = 1;
  dpl = 3;
  present = 0;
  seg_lim_19_16 = 5;
  avail = 1;
  reserved = 1;
  opsize = 0;
  granularity = 1;
  base_31_24 = 6;
}

system_segments-placed_example :
    let l = ldt_entry garbage 0x412340 31 in
    let t = tss_entry garbage 0x412380 104 in
    (segment_base l ≡ 0x412340)
    × (segment_limit l ≡ 31)
    × (segment_base t ≡ 0x412380)
    × (segment_limit t ≡ 104)
    × (l.present ≡ 1)
    × (l.dpl ≡ 0)
    × (l.sys ≡ 0)
    × (l.type ≡ 2)
    × (t.present ≡ 1)
    × (t.dpl ≡ 0)
    × (t.sys ≡ 0)
    × (t.type ≡ 9)
system_segments-placed_example =
    system_segments-placed garbage garbage 0x412340 31 0x412380 104 (omega arith) (omega arith)
      (omega arith) (omega arith)

-- the information at 0x10000, a module at 0x20000 and a map of two entries at 0x30000
abbrev memory : Memory
memory = record {
  word = λ a.
      if a == 0x10000
      then 0x49
      else if a == 0x10014
      then 1
      else if a == 0x10018
      then 0x20000
      else if a == 0x1002C
      then 48
      else if a == 0x10030
      then 0x30000
      else if a == 0x20000
      then 0x100000
      else if a == 0x30000
      then 20
      else if a == 0x30018
      then 20
      else 0;
  byte = λ a. 0xFF;
}

abbrev two_regions : List Message
two_regions = region (memory_map_at memory 0x30000) ∷ region (memory_map_at memory 0x30018) ∷ []

two_regions-IsMap : IsMap memory 0x30030 0x30000 two_regions
two_regions-IsMap = entry (omega arith) (entry (omega arith) (done refl))

regions-IsMap_example : regions memory 49 0x30030 0x30000 ≡ some two_regions
regions-IsMap_example =
    regions-IsMap memory 49 0x30030 0x30000 two_regions (omega arith) two_regions-IsMap
      (omega arith)

-- the controllers as another program has left them, and ports that read their masks
abbrev at_start : ℕ → Controller
at_start command = record { icws = 0; mask = 0xB8 }

abbrev port_reads : List PortWrite → ℕ → ℕ
port_reads ws port = (take_writes (port - 1) (at_start (port - 1)) ws).mask

port_reads-ReadsMasks : ReadsMasks at_start port_reads
port_reads-ReadsMasks ws command is outside =
    (let same : command + 1 - 1 ≡ command = omega arith in
      ap (λ p. (take_writes p (at_start p) ws).mask) same)

abbrev environment : Environment
environment = record {
  memory = memory;
  idt_handler = handlers;
  ldt = 0x412340;
  ldt_size = 31;
  tss = 0x412380;
  tss_size = 104;
  the_ldt_desc = garbage;
  the_tss_desc = garbage;
  kernel_page_table = 0x413000;
  rtc_reg_a = 0x26;
  rtc_reg_b = 2;
  inb = port_reads;
  image_at = λ _. image;
  unset = unset;
}

abbrev machine : Machine
machine = record {
  screen = record { x = 0; y = 0; attribute = 7; mem = λ _. 0 };
  idt = λ _. no_gate;
  ldt_desc_ptr = garbage;
  tss_desc_ptr = garbage;
  ldt_segment_selector = 0;
  ss0 = 0;
  kernel_page_directory = λ _. 0;
  kernel_page_table = λ _. 0;
  rtc = record { been_inited = 0; masks = record { master_mask = 0; slave_mask = 0 } };
  terminals = λ _. record { screen_x = 0; screen_y = 0; line = init_terminal; pid = 0 };
  file_system = record { bootblock = 0; inodes = 0; datablocks = 0 };
  writes = [];
  system = system 0;
}

init_devices-enabled_example :
    let m' = init_devices environment machine 0x100000 in
    (m'.rtc.masks ≡ record { master_mask = 0xF8; slave_mask = 0xFE })
    × (take_writes 0x20 (at_start 0x20) m'.writes ≡ record { icws = 0; mask = 0xF8 })
    × (take_writes 0xA0 (at_start 0xA0) m'.writes ≡ record { icws = 0; mask = 0xFE })
init_devices-enabled_example =
    init_devices-enabled environment machine 0x100000 at_start port_reads-ReadsMasks refl

entry-first_shell_example :
    (m' : Machine) × (messages : List Message) × (boot.entry environment machine 49
        multiboot_bootloader_magic 0x10000
      ≡ executes m' messages (internal_execute unset m'.system shell 1))
    × (m'.system ≡ record (system 0) { esp0 = stack_top 0; interrupts = true; image = image })
    × ((s : System) (user : UserContext)
        → internal_execute unset m'.system shell 1 ≡ started s user
        → ((s.pcbs (pcb_address 0)).pid ≡ pos 0)
          × ((s.pcbs (pcb_address 0)).parent_pcb ≡ pcb_address 0))
entry-first_shell_example =
    entry-first_shell environment machine 49 0x10000 refl
      (λ flag. (two_regions, omega arith, two_regions-IsMap)) (omega arith) refl
