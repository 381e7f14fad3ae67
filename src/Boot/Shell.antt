-- ===== src/Boot/Shell.antt =====
-- How entry of student-distrib/kernel.c ends, and the first shell.
use native.Mathlib.Nat.{mod-eq_of_lt}
use snoop_diggity_d_os.Prelude.{
  ℕ, ◌+◌, ◌%◌, ◌^◌, ◌<◌, ◌≡◌, refl, ◌∙◌, ap, List, [], ◌∷◌, ◌++◌, some, true, false, arith, inl,
  inr, pos, Bool-cases,
}
use snoop_diggity_d_os.Screen.{clear}
use snoop_diggity_d_os.Pids.{initial_pid_avail}
use snoop_diggity_d_os.Scheduler.{pcb_address, stack_top}
use snoop_diggity_d_os.Execute.{System, UserContext, started, internal_execute}
use snoop_diggity_d_os.Execute.Leave.{shell}
use snoop_diggity_d_os.Execute.Halt.{internal_execute-own_parent}
use snoop_diggity_d_os.Idt.{init_idt}
use snoop_diggity_d_os.Multiboot.{
  Memory, MultibootInfo, Message, welcome, mmap, elf_messages, check_flag, info_at, module_at,
  before_conflict, conflict, behind_conflict,
}
use snoop_diggity_d_os.Multiboot.Regions.{IsMap, regions-IsMap}
use snoop_diggity_d_os.Boot.{
  Environment, Machine, executes, init_segments, init_devices, init_paging, init_interrupts,
  init_timer, start_kernel, entry, multiboot_bootloader_magic,
}

-- What init_devices leaves of what the kernel keeps for its processes.
init_devices-system :
    (env : Environment) (m : Machine) (start : ℕ)
    → (init_devices env m start).system
      ≡ record (m.system) { interrupts = true; image = env.image_at start }
unfolding init_devices init_timer init_interrupts init_paging
init_devices-system env m start = refl

reaches_shell :
    (env : Environment) (m : Machine) (fuel addr : ℕ) (more : List Message)
    → conflict (info_at env.memory addr) ≡ false
    → behind_conflict env.memory fuel (info_at env.memory addr) ≡ some more
    → (m' : Machine) × (messages : List Message) × (entry env m fuel multiboot_bootloader_magic addr
        ≡ executes m' messages (internal_execute env.unset m'.system shell 1))
      × (m'.system ≡ record (m.system) {
        esp0 = 0x800000;
        interrupts = true;
        image = env.image_at (module_at env.memory (info_at env.memory addr).mods_addr).mod_start;
      })
unfolding entry start_kernel init_segments
reaches_shell env m fuel addr more apart map =
    let m₁ = record m { screen = clear m.screen; idt = init_idt env.idt_handler m.idt } in
    let start = (module_at env.memory (info_at env.memory addr).mods_addr).mod_start in
    (
      init_devices env (init_segments env m₁) start,
      (before_conflict env.memory (info_at env.memory addr) ++ more) ++ (welcome ∷ []),
      rw (apart, map) refl,
      init_devices-system env (init_segments env m₁) start,
    )

-- The memory map of the information, when there is one, is well-formed and ends below 2^32.
abbrev pub HasMap : Memory → MultibootInfo → Type 0
HasMap m mbi =
    check_flag mbi.flags 6 ≡ true
    → (messages : List Message) × (mbi.mmap_addr + mbi.mmap_length < 2 ^ 32)
      × IsMap m (mbi.mmap_addr + mbi.mmap_length) mbi.mmap_addr messages

behind_conflict-ends :
    (m : Memory) (fuel : ℕ) (mbi : MultibootInfo)
    → HasMap m mbi
    → mbi.mmap_length < fuel
    → (more : List Message) × (behind_conflict m fuel mbi ≡ some more)
unfolding behind_conflict
behind_conflict-ends m fuel mbi h enough = elim (Bool-cases (check_flag mbi.flags 6)) [
  | inr plain ↦ (elf_messages mbi, rw plain refl)
  | inl has_map ↦
      let (messages, short, map) = h has_map in
      let end : (mbi.mmap_addr + mbi.mmap_length) % 2 ^ 32 ≡ mbi.mmap_addr + mbi.mmap_length =
        mod-eq_of_lt short in
      let all =
        regions-IsMap m fuel (mbi.mmap_addr + mbi.mmap_length) mbi.mmap_addr messages short map
          (omega arith) in
      (
        elf_messages mbi ++ (mmap mbi.mmap_addr mbi.mmap_length ∷ messages),
        rw (has_map, end, all) refl,
      )
]

-- With the boot loader's magic number, bits 4 and 5 of its flags not both set, a well-formed memory map
-- if bit 6 is set, fuel for each byte of the map and one more, and no pid in use: entry comes to the
-- call of internal_execute for the shell, with the kernel stack of pid 0, interrupts on and the
-- file system of the first module, and nothing else changed of what internal_execute uses; and
-- when that starts the shell, it has pid 0 and is its own parent.
pub entry-first_shell :
    (env : Environment) (m : Machine) (fuel addr : ℕ)
    → let mbi = info_at env.memory addr in
      conflict mbi ≡ false
      → HasMap env.memory mbi
      → mbi.mmap_length < fuel
      → m.system.pid_avail ≡ initial_pid_avail
      → (m' : Machine) × (messages : List Message) × (entry env m fuel multiboot_bootloader_magic
            addr
          ≡ executes m' messages (internal_execute env.unset m'.system shell 1))
        × (m'.system ≡ record (m.system) {
          esp0 = stack_top 0;
          interrupts = true;
          image = env.image_at (module_at env.memory mbi.mods_addr).mod_start;
        })
        × ((s : System) (user : UserContext)
            → internal_execute env.unset m'.system shell 1 ≡ started s user
            → ((s.pcbs (pcb_address 0)).pid ≡ pos 0)
              × ((s.pcbs (pcb_address 0)).parent_pcb ≡ pcb_address 0))
entry-first_shell env m fuel addr apart map enough unused =
    let mbi = info_at env.memory addr in
    let (more, ends) = behind_conflict-ends env.memory fuel mbi map enough in
    let (m', messages, run, system) = reaches_shell env m fuel addr more apart ends in
    (
      m',
      messages,
      run,
      system,
      λ s user starts.
          let (parent, pid, _) =
            internal_execute-own_parent env.unset m'.system s shell user
              (ap (λ x. x.pid_avail) system ∙ unused) (ap (λ x. x.esp0) system) starts in
          (pid, parent),
    )
