-- ===== src/Segments/Place.antt =====
-- Where the processor finds the segments that entry of student-distrib/kernel.c describes.
use snoop_diggity_d_os.Prelude.{
  ℕ, ◌+◌, ◌-◌, ◌*◌, ◌/◌, ◌%◌, ◌^◌, ◌<◌, ◌≤◌, ◌≡◌, ◌∙◌, ap, refl, ◌==◌, if◌then◌else◌, bit_and,
  arith,
}
use snoop_diggity_d_os.Prelude.Bits.{bit_and_split, bit_and_ones, bit_and-zero}
use native.Mathlib.Nat.{one-le-pow}
use snoop_diggity_d_os.Segments.{SegDesc, set_ldt_params, set_tss_params, ldt_entry, tss_entry}

-- The processor's reading of a descriptor: its base, and its limit in bytes or pages of 4 KB.
abbrev pub segment_base : SegDesc → ℕ
segment_base d = d.base_31_24 * 2 ^ 24 + d.base_23_16 * 2 ^ 16 + d.base_15_00

abbrev pub segment_limit : SegDesc → ℕ
segment_limit d =
    let lim = d.seg_lim_19_16 * 2 ^ 16 + d.seg_lim_15_00 in
    if d.granularity == 0 then lim else lim * 4096 + 4095

-- The `k` bits of a number from bit `s` on.
pub bit_and-field : (s k a : ℕ) → bit_and a ((2 ^ k - 1) * 2 ^ s + 0) ≡ a / 2 ^ s % 2 ^ k * 2 ^ s
bit_and-field s k a =
    let one : 1 ≤ 2 ^ s = one-le-pow s 2 (omega arith) in
    let parts : a ≡ a / 2 ^ s * 2 ^ s + a % 2 ^ s = grind arith in
    ap (λ x. bit_and x ((2 ^ k - 1) * 2 ^ s + 0)) parts
    ∙ bit_and_split s (a / 2 ^ s) (a % 2 ^ s) (2 ^ k - 1) 0 (grind arith) (omega arith)
    ∙ rw (bit_and_ones k (a / 2 ^ s), bit_and-zero (a % 2 ^ s)) (omega arith)

-- A descriptor's fields from an address and a limit.
record Fields (d : SegDesc) (addr lim : ℕ) : Type 0 where
  high : d.base_31_24 ≡ addr / 2 ^ 24 % 2 ^ 8
  middle : d.base_23_16 ≡ addr / 2 ^ 16 % 2 ^ 8
  low : d.base_15_00 ≡ addr % 2 ^ 16
  limit_high : d.seg_lim_19_16 ≡ lim / 2 ^ 16 % 2 ^ 4
  limit_low : d.seg_lim_15_00 ≡ lim % 2 ^ 16

ldt_entry-Fields : (d : SegDesc) (addr lim : ℕ) → Fields (ldt_entry d addr lim) addr lim
unfolding ldt_entry set_ldt_params
ldt_entry-Fields d addr lim = record {
  high = omega (arith, bit_and-field 24 8 addr);
  middle = omega (arith, bit_and-field 16 8 addr);
  low = bit_and_ones 16 addr;
  limit_high = omega (arith, bit_and-field 16 4 lim);
  limit_low = bit_and_ones 16 lim;
}

tss_entry-Fields : (d : SegDesc) (addr lim : ℕ) → Fields (tss_entry d addr lim) addr lim
unfolding tss_entry set_tss_params
tss_entry-Fields d addr lim = record {
  high = omega (arith, bit_and-field 24 8 addr);
  middle = omega (arith, bit_and-field 16 8 addr);
  low = bit_and_ones 16 addr;
  limit_high = omega (arith, bit_and-field 16 4 lim);
  limit_low = bit_and_ones 16 lim;
}

Fields-base :
    (d : SegDesc) (addr lim : ℕ) → addr < 2 ^ 32 → Fields d addr lim → segment_base d ≡ addr
Fields-base d addr lim h f = omega (arith, f.high, f.middle, f.low)

-- Whatever was on the stack: with addresses of 32 bits and sizes of 20 bits, the processor finds the
-- local descriptor table and the task state segment where they are, with their sizes as limits in bytes;
-- both descriptors are present, of privilege 0 and system descriptors, of type 2, a local descriptor
-- table, and of type 9, an available 32-bit task state segment.
pub system_segments-placed :
    (before before' : SegDesc) (ldt ldt_size tss size : ℕ)
    → ldt < 2 ^ 32
    → ldt_size < 2 ^ 20
    → tss < 2 ^ 32
    → size < 2 ^ 20
    → let l = ldt_entry before ldt ldt_size in
      let t = tss_entry before' tss size in
      (segment_base l ≡ ldt)
      × (segment_limit l ≡ ldt_size)
      × (segment_base t ≡ tss)
      × (segment_limit t ≡ size)
      × (l.present ≡ 1)
      × (l.dpl ≡ 0)
      × (l.sys ≡ 0)
      × (l.type ≡ 2)
      × (t.present ≡ 1)
      × (t.dpl ≡ 0)
      × (t.sys ≡ 0)
      × (t.type ≡ 9)
unfolding ldt_entry tss_entry set_ldt_params set_tss_params
system_segments-placed before before' ldt ldt_size tss size hl hls ht hs =
    let f = ldt_entry-Fields before ldt ldt_size in
    let g = tss_entry-Fields before' tss size in
    (
      Fields-base (ldt_entry before ldt ldt_size) ldt ldt_size hl f,
      omega (arith, f.limit_high, f.limit_low),
      Fields-base (tss_entry before' tss size) tss size ht g,
      omega (arith, g.limit_high, g.limit_low),
      refl,
      refl,
      refl,
      refl,
      refl,
      refl,
      refl,
      refl,
    )
