-- ===== src/Paging/Entry.antt =====
-- An entry of a page table: an aligned address and flag bits below it.
use snoop_diggity_d_os.Prelude.{
  ℕ, zero, suc, ◌+◌, ◌-◌, ◌*◌, ◌^◌, ◌<◌, ◌≡◌, ◌∙◌, ◌==◌, ltb, leb, ==→eq, if◌then◌else◌, bit_and,
  bit_or, arith, Bool-cases, ◌&&◌, inl, inr,
}
use snoop_diggity_d_os.Prelude.Bits.{
  bit_and_split, bit_or_split, bit_and_ones, bit_and-zero, bit_or-zero, zero-bit_or,
}
use snoop_diggity_d_os.Prelude.Tables.{for_range}
use snoop_diggity_d_os.Paging.{Table, address_assign, set_entry}

pub address_assign_lem :
    (q r : ℕ) → q < 2 ^ 20 → r < 4096 → address_assign (q * 4096 + r) ≡ q * 4096
address_assign_lem q r h hr =
    bit_and_split 12 q r (2 ^ 20 - 1) 0 hr (omega arith)
    ∙ rw (bit_and_ones 20 q, bit_and-zero r) (omega arith)

pub or_flags : (q r b : ℕ) → r < 4096 → b < 4096 → bit_or (q * 4096 + r) b ≡ q * 4096 + bit_or r b
or_flags q r b hr hb =
    let low : 0 * 2 ^ 12 + b ≡ b = omega arith in
    rw (low, bit_or-zero q) at (bit_or_split 12 q r 0 b hr hb)

pub and_flags : (q r b : ℕ) → r < 4096 → b < 4096 → bit_and (q * 4096 + r) b ≡ bit_and r b
and_flags q r b hr hb =
    let low : 0 * 2 ^ 12 + b ≡ b = omega arith in
    omega (arith, rw (low, bit_and-zero q) at (bit_and_split 12 q r 0 b hr hb))

-- What set_entry leaves in the entry.
abbrev pub entry_of : ℕ → ℕ → ℕ
entry_of address bits = bit_or (address_assign address) bits

-- An aligned address and flags are added.
pub entry_of_lem : (q b : ℕ) → q < 2 ^ 20 → b < 4096 → entry_of (q * 4096) b ≡ q * 4096 + b
entry_of_lem q b hq hb =
    let whole : q * 4096 + 0 ≡ q * 4096 = omega arith in
    let assigned : address_assign (q * 4096) ≡ q * 4096 =
      rw whole at (address_assign_lem q 0 hq (omega arith)) in
    rw (assigned) (rw (whole, zero-bit_or b) at (or_flags q 0 b (omega arith) hb))

pub set_entry_lem :
    (table : Table) (i address bits j : ℕ)
    → set_entry table i address bits j ≡ (if j == i then entry_of address bits else table j)
set_entry_lem table i address bits j = ground arith

-- A loop that writes entry `i` in round `i` fills its range and leaves the rest.
pub for_range-fill :
    (body : ℕ → Table → Table) (value : ℕ → ℕ)
    → ((i : ℕ) (table : Table) (j : ℕ) → body i table j ≡ (if j == i then value i else table j))
    → (n i : ℕ) (table : Table) (j : ℕ)
    → for_range n i body table j ≡ (if leb i j && ltb j (i + n) then value j else table j)
unfolding for_range
for_range-fill body value step zero i table j = ground arith
for_range-fill body value step (suc n) i table j =
    for_range-fill body value step n (i + 1) (body i table) j ∙ elim (Bool-cases (j == i)) [
      | inl e ↦ let e' : j ≡ i = ==→eq j i e in rw (e') (ground (arith, step i table i))
      | inr ne ↦ ground (arith, step i table j)
    ]
