-- ===== src/Multiboot/Regions.antt =====
-- The loop of entry in student-distrib/kernel.c over the memory map ends, and shows every entry.
use snoop_diggity_d_os.Prelude.{
  ℕ, zero, suc, ◌+◌, ◌%◌, ◌^◌, ◌<◌, ◌≤◌, ◌≡◌, refl, List, [], ◌∷◌, some, true, ltb, arith,
}
use snoop_diggity_d_os.Multiboot.{Memory, Message, region, memory_map_at, regions}

-- The entries of a well-formed map from `address` to `end`, in order: each ends within the map.
pub data IsMap (m : Memory) (end : ℕ) : ℕ → List Message → Type 0 where
  done : {address : ℕ} → address ≡ end → IsMap m end address []
  entry :
      {address : ℕ} {messages : List Message}
      → address + m.word address + 4 ≤ end
      → IsMap m end (address + m.word address + 4) messages
      → IsMap m end address (region (memory_map_at m address) ∷ messages)

-- On a well-formed memory map that ends below 2^32, with a fuel of one more than its length in
-- bytes, the loop ends, and it shows the entries of the map in order, all of them and no others.
pub regions-IsMap :
    (m : Memory) (fuel end address : ℕ) (messages : List Message)
    → end < 2 ^ 32
    → IsMap m end address messages
    → end < address + fuel
    → regions m fuel end address ≡ some messages
unfolding regions
regions-IsMap m zero end address messages small (done at) enough = absurd (omega arith)
regions-IsMap m (suc fuel) end address messages small (done at) enough = ground arith
regions-IsMap m zero end address messages small (entry {messages = rest} inside map) enough =
    absurd (omega arith)
regions-IsMap m (suc fuel) end address messages small (entry {messages = rest} inside map) enough =
    let below : ltb address end ≡ true = ground arith in
    let next : (address + m.word address + 4) % 2 ^ 32 ≡ address + m.word address + 4 =
      omega arith in
    rw
      (
        next,
        regions-IsMap m fuel end (address + m.word address + 4) rest small map (omega arith),
        below,
      )
      refl
