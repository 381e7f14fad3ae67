-- ===== src/Boot.antt =====
-- student-distrib/kernel.c: entry, from the boot loader to the first shell, over the models of the parts
-- that it sets up. What lies in memory, what ports read behind a list of writes, and what the linker
-- places are arguments. The messages of printf and printf_t are listed and not drawn; between clear
-- and initialize_video_memory the screen stays as clear leaves it.
pub mod Enabled
pub mod Shell
use snoop_diggity_d_os.Prelude.{
  ℕ, ◌+◌, ◌-◌, ◌*◌, ◌%◌, ◌^◌, List, [], ◌∷◌, ◌++◌, Option, none, some, Bool, true, not, ◌==◌,
  if◌then◌else◌,
}
use snoop_diggity_d_os.Screen.{Screen, clear, initialize_video_memory}
use snoop_diggity_d_os.Fs.{Image}
use snoop_diggity_d_os.Paging.{Table, init_kernel_pages}
use snoop_diggity_d_os.Pic.{PortWrite, i8259_init}
use snoop_diggity_d_os.Rtc.{Rtc, init_rtc}
use snoop_diggity_d_os.Terminals.{Slot}
use snoop_diggity_d_os.Terminals.Keys.{init_kbd}
use snoop_diggity_d_os.Scheduler.{init_scheduling}
use snoop_diggity_d_os.Execute.{System, Unset, Executed, internal_execute}
use snoop_diggity_d_os.Execute.Leave.{shell}
use snoop_diggity_d_os.Idt.{Gate, init_idt}
use snoop_diggity_d_os.Segments.{SegDesc, ldt_entry, tss_entry}
use snoop_diggity_d_os.Multiboot.{
  Memory, Message, invalid_magic, both_bits, welcome, info_at, module_at, before_conflict, conflict,
  behind_conflict,
}

-- What entry finds: memory, the jump table of the handlers, the addresses and sizes of the tables,
-- what is on the stack, the clock's registers, the ports, and the image at an address.
pub record Environment : Type 0 where
  pub memory : Memory
  pub idt_handler : ℕ → ℕ
  pub ldt : ℕ
  pub ldt_size : ℕ
  pub tss : ℕ
  pub tss_size : ℕ
  pub the_ldt_desc : SegDesc
  pub the_tss_desc : SegDesc
  pub kernel_page_table : ℕ
  pub rtc_reg_a : ℕ
  pub rtc_reg_b : ℕ
  pub inb : List PortWrite → ℕ → ℕ
  pub image_at : ℕ → Image
  pub unset : Unset

-- bootblock, inodes and datablocks
pub record FileSystem : Type 0 where
  pub bootblock : ℕ
  pub inodes : ℕ
  pub datablocks : ℕ

-- What entry sets up. The task state's `esp0` and the interrupt flag are those of `system`.
pub record Machine : Type 0 where
  pub screen : Screen
  pub idt : ℕ → Gate
  pub ldt_desc_ptr : SegDesc
  pub tss_desc_ptr : SegDesc
  pub ldt_segment_selector : ℕ
  pub ss0 : ℕ
  pub kernel_page_directory : Table
  pub kernel_page_table : Table
  pub rtc : Rtc
  pub terminals : ℕ → Slot
  pub file_system : FileSystem
  pub writes : List PortWrite
  pub system : System

-- How entry ends: it returns, it does not leave the loop over the memory map, or it comes back from
-- internal_execute, or not, in the way that is given.
pub data Booted : Type 0 where
  returns : Machine → List Message → Booted
  loops : Booted
  executes : Machine → List Message → Executed → Booted

abbrev pub multiboot_bootloader_magic : ℕ
multiboot_bootloader_magic = 0x2BADB002

-- the blocks that construct the entries of the LDT and the TSS
unfoldable pub init_segments : Environment → Machine → Machine
init_segments env m = record m {
  ldt_desc_ptr = ldt_entry env.the_ldt_desc env.ldt env.ldt_size;
  tss_desc_ptr = tss_entry env.the_tss_desc env.tss env.tss_size;
  ldt_segment_selector = 0x38;
  ss0 = 0x18;
  system = record (m.system) { esp0 = 0x800000 };
}

-- init_filesystem, with the count of inodes that the boot block holds
unfoldable pub init_filesystem : Memory → ℕ → FileSystem
init_filesystem memory start_addr = record {
  bootblock = start_addr;
  inodes = (start_addr + 4096) % 2 ^ 32;
  datablocks = (start_addr + 4096 + 4096 * memory.word (start_addr + 4)) % 2 ^ 32;
}

-- init_paging
unfoldable pub init_paging : Environment → Machine → Machine
init_paging env m =
    let (directory, table) =
      init_kernel_pages env.kernel_page_table m.kernel_page_directory m.kernel_page_table in
    record m { kernel_page_directory = directory; kernel_page_table = table }

-- i8259_init, init_rtc and init_kbd
unfoldable pub init_interrupts : Environment → Machine → Machine
init_interrupts env m =
    let (masks, setup) = i8259_init in
    let w₁ = m.writes ++ setup in
    let c =
      init_rtc (record { reg_a = env.rtc_reg_a; reg_b = env.rtc_reg_b; pic = env.inb w₁ })
        (record (m.rtc) { masks = masks }) in
    let w₂ = w₁ ++ c.writes in
    let (terminals, keyboard) = init_kbd (env.inb w₂) c.state.masks m.terminals in
    record m {
      rtc = record (c.state) { masks = keyboard.0 };
      terminals = terminals;
      writes = w₂ ++ keyboard.1;
    }

-- init_scheduling
unfoldable pub init_timer : Environment → Machine → Machine
init_timer env m =
    let (masks, more) = init_scheduling (env.inb m.writes) m.rtc.masks in
    record m { rtc = record (m.rtc) { masks = masks }; writes = m.writes ++ more }

-- from init_paging to sti, with the address of the file system
unfoldable pub init_devices : Environment → Machine → ℕ → Machine
init_devices env m filesys_start_addr =
    let m₁ = init_interrupts env (init_paging env m) in
    let m₂ = init_timer env (record m₁ {
      file_system = init_filesystem env.memory filesys_start_addr;
      screen = initialize_video_memory m₁.screen;
    }) in
    record m₂ {
      system = record (m₂.system) { interrupts = true; image = env.image_at filesys_start_addr };
    }

-- entry from the construction of the LDT's entry on, without its last loop
unfoldable pub start_kernel : Environment → Machine → ℕ → List Message → Booted
start_kernel env m mods_addr messages =
    let m' = init_devices env (init_segments env m) (module_at env.memory mods_addr).mod_start in
    executes m' (messages ++ (welcome ∷ [])) (internal_execute env.unset m'.system shell 1)

-- entry
unfoldable pub entry : Environment → Machine → ℕ → ℕ → ℕ → Booted
entry env m fuel magic addr =
    let m₁ = record m { screen = clear m.screen } in
    if not (magic == multiboot_bootloader_magic)
    then returns m₁ (invalid_magic magic ∷ [])
    else (let m₂ = record m₁ { idt = init_idt env.idt_handler m.idt } in
        let mbi = info_at env.memory addr in
        let first = before_conflict env.memory mbi in
        if conflict mbi
        then returns m₂ (first ++ (both_bits ∷ []))
        else elim (behind_conflict env.memory fuel mbi) [
          | none ↦ loops
          | some more ↦ start_kernel env m₂ mbi.mods_addr (first ++ more)
        ])
