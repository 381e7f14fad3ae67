-- ===== src/Multiboot.antt =====
-- What entry of student-distrib/kernel.c reads of the boot loader's information (student-distrib/multiboot.h),
-- and the messages that it prints of it. Memory is a function from an address to the 32-bit word
-- there, and one to the byte there. A message is its format with the arguments, and is not drawn.
pub mod Regions
use snoop_diggity_d_os.Prelude.{
  ℕ, zero, suc, ◌+◌, ◌-◌, ◌*◌, ◌/◌, ◌%◌, ◌^◌, List, [], ◌∷◌, ◌++◌, Option, none, some, Bool, true,
  false, ◌&&◌, not, ltb, ◌==◌, if◌then◌else◌, bit_and, elements,
}

-- multiboot_info_t, with elf_section_header_table_t
pub record MultibootInfo : Type 0 where
  pub flags : ℕ
  pub mem_lower : ℕ
  pub mem_upper : ℕ
  pub boot_device : ℕ
  pub cmdline : ℕ
  pub mods_count : ℕ
  pub mods_addr : ℕ
  pub elf_num : ℕ
  pub elf_size : ℕ
  pub elf_addr : ℕ
  pub elf_shndx : ℕ
  pub mmap_length : ℕ
  pub mmap_addr : ℕ

-- module_t
pub record Module : Type 0 where
  pub mod_start : ℕ
  pub mod_end : ℕ

-- memory_map_t
pub record MemoryMap : Type 0 where
  pub size : ℕ
  pub base_addr_low : ℕ
  pub base_addr_high : ℕ
  pub length_low : ℕ
  pub length_high : ℕ
  pub type : ℕ

pub record Memory : Type 0 where
  pub word : ℕ → ℕ
  pub byte : ℕ → ℕ

-- the structures at an address
abbrev pub info_at : Memory → ℕ → MultibootInfo
info_at m addr = record {
  flags = m.word addr;
  mem_lower = m.word (addr + 4);
  mem_upper = m.word (addr + 8);
  boot_device = m.word (addr + 12);
  cmdline = m.word (addr + 16);
  mods_count = m.word (addr + 20);
  mods_addr = m.word (addr + 24);
  elf_num = m.word (addr + 28);
  elf_size = m.word (addr + 32);
  elf_addr = m.word (addr + 36);
  elf_shndx = m.word (addr + 40);
  mmap_length = m.word (addr + 44);
  mmap_addr = m.word (addr + 48);
}

abbrev pub module_at : Memory → ℕ → Module
module_at m addr = record { mod_start = m.word addr; mod_end = m.word (addr + 4) }

abbrev pub memory_map_at : Memory → ℕ → MemoryMap
memory_map_at m addr = record {
  size = m.word addr;
  base_addr_low = m.word (addr + 4);
  base_addr_high = m.word (addr + 8);
  length_low = m.word (addr + 12);
  length_high = m.word (addr + 16);
  type = m.word (addr + 20);
}

-- The calls of printf and printf_t in entry, with their arguments.
pub data Message : Type 0 where
  invalid_magic : ℕ → Message
  flags : ℕ → Message
  mem : ℕ → ℕ → Message
  boot_device : ℕ → Message
  cmdline : ℕ → Message
  module_loaded : ℕ → ℕ → Message
  module_ends : ℕ → ℕ → Message
  first_few_bytes : Message
  module_byte : ℕ → Message
  line_break : Message
  both_bits : Message
  elf_sec : ℕ → ℕ → ℕ → ℕ → Message
  mmap : ℕ → ℕ → Message
  region : MemoryMap → Message
  welcome : Message

-- CHECK_FLAG
abbrev pub check_flag : ℕ → ℕ → Bool
check_flag word bit = not (bit_and word (2 ^ bit) == 0)

-- a `char` as the word that printf gets
abbrev pub char_word : ℕ → ℕ
char_word b = if ltb b 128 then b else b + 2 ^ 32 - 256

-- the inner loop over the first 16 bytes of a module
unfoldable pub module_bytes : Memory → ℕ → ℕ → List Message
module_bytes m zero address = []
module_bytes m (suc rounds) address =
    module_byte (char_word (m.byte address)) ∷ module_bytes m rounds ((address + 1) % 2 ^ 32)

-- the loop over the modules, with the number that is left, mod_count and mod
unfoldable pub modules : Memory → ℕ → ℕ → ℕ → List Message
modules m zero mod_count mod_address = []
modules m (suc left) mod_count mod_address =
    let it = module_at m mod_address in
    (module_loaded mod_count it.mod_start
      ∷ module_ends mod_count it.mod_end
      ∷ first_few_bytes
      ∷ (module_bytes m 16 it.mod_start ++ (line_break ∷ [])))
    ++ modules m left (mod_count + 1) ((mod_address + 16) % 2 ^ 32)

-- the loop over the memory map, whose entries lie below `end`; none when the fuel runs out
unfoldable pub regions : Memory → ℕ → ℕ → ℕ → Option (List Message)
regions m zero end address = none
regions m (suc fuel) end address =
    let it = memory_map_at m address in
    let rest = regions m fuel end ((address + it.size + 4) % 2 ^ 32) in
    if ltb address end
    then elim rest [ none ↦ none | some messages ↦ some (region it ∷ messages) ]
    else some []

abbrev pub when : Bool → List Message → List Message
when test messages = if test then messages else []

-- what entry prints before the test of bits 4 and 5
unfoldable pub before_conflict : Memory → MultibootInfo → List Message
unfolding modules module_bytes
before_conflict m mbi =
    (flags mbi.flags ∷ [])
    ++ (when (check_flag mbi.flags 0) (mem mbi.mem_lower mbi.mem_upper ∷ [])
        ++ (when (check_flag mbi.flags 1) (boot_device mbi.boot_device ∷ [])
            ++ (when (check_flag mbi.flags 2) (cmdline mbi.cmdline ∷ [])
                ++ when (check_flag mbi.flags 3) (modules m mbi.mods_count 0 mbi.mods_addr))))

-- bits 4 and 5 are both set
abbrev pub conflict : MultibootInfo → Bool
conflict mbi = check_flag mbi.flags 4 && check_flag mbi.flags 5

-- the section header table
abbrev pub elf_messages : MultibootInfo → List Message
elf_messages mbi =
    when (check_flag mbi.flags 5) (elf_sec mbi.elf_num mbi.elf_size mbi.elf_addr mbi.elf_shndx ∷ [])

-- what entry prints behind that test; none when the loop over the memory map runs out of fuel
unfoldable pub behind_conflict : Memory → ℕ → MultibootInfo → Option (List Message)
unfolding regions
behind_conflict m fuel mbi =
    if check_flag mbi.flags 6
    then elim (regions m fuel ((mbi.mmap_addr + mbi.mmap_length) % 2 ^ 32) mbi.mmap_addr) [
      | none ↦ none
      | some messages ↦ some (elf_messages mbi ++ (mmap mbi.mmap_addr mbi.mmap_length ∷ messages))
    ]
    else some (elf_messages mbi)
