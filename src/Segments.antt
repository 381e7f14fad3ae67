-- ===== src/Segments.antt =====
-- student-distrib/x86_desc.h: segment descriptors, and the two that entry of student-distrib/kernel.c
-- constructs in the global descriptor table. The addresses and sizes of the tables, which
-- student-distrib/x86_desc.S lays out, are arguments, and so is what a descriptor on the stack holds
-- before it is set.
pub mod Place
use snoop_diggity_d_os.Prelude.{ℕ, ◌/◌, ◌%◌, ◌^◌, bit_and}

-- seg_desc_t
pub record SegDesc : Type 0 where
  pub seg_lim_15_00 : ℕ
  pub base_15_00 : ℕ
  pub base_23_16 : ℕ
  pub type : ℕ
  pub sys : ℕ
  pub dpl : ℕ
  pub present : ℕ
  pub seg_lim_19_16 : ℕ
  pub avail : ℕ
  pub reserved : ℕ
  pub opsize : ℕ
  pub granularity : ℕ
  pub base_31_24 : ℕ

abbrev pub tss_size : ℕ
tss_size = 104

-- SET_LDT_PARAMS
unfoldable pub set_ldt_params : SegDesc → ℕ → ℕ → SegDesc
set_ldt_params str addr lim = record str {
  base_31_24 = bit_and addr 0xFF000000 / 2 ^ 24;
  base_23_16 = bit_and addr 0xFF0000 / 2 ^ 16;
  base_15_00 = bit_and addr 0xFFFF;
  seg_lim_19_16 = bit_and lim 0xF0000 / 2 ^ 16;
  seg_lim_15_00 = bit_and lim 0xFFFF;
}

-- SET_TSS_PARAMS
unfoldable pub set_tss_params : SegDesc → ℕ → ℕ → SegDesc
set_tss_params str addr lim = record str {
  base_31_24 = bit_and addr 0xFF000000 / 2 ^ 24;
  base_23_16 = bit_and addr 0xFF0000 / 2 ^ 16;
  base_15_00 = bit_and addr 0xFFFF;
  seg_lim_19_16 = bit_and lim 0xF0000 / 2 ^ 16;
  seg_lim_15_00 = bit_and lim 0xFFFF;
}

-- the_ldt_desc
unfoldable pub ldt_entry : SegDesc → ℕ → ℕ → SegDesc
ldt_entry the_ldt_desc ldt ldt_size =
    set_ldt_params
      (record the_ldt_desc {
        granularity = 0;
        opsize = 1;
        reserved = 0;
        avail = 0;
        present = 1;
        dpl = 0;
        sys = 0;
        type = 2;
      })
      ldt ldt_size

-- the_tss_desc; a field of four bits keeps the low ones of what is assigned to it
unfoldable pub tss_entry : SegDesc → ℕ → ℕ → SegDesc
tss_entry the_tss_desc tss size =
    set_tss_params
      (record the_tss_desc {
        granularity = 0;
        opsize = 0;
        reserved = 0;
        avail = 0;
        seg_lim_19_16 = bit_and tss_size 0xF0000 % 2 ^ 4;
        present = 1;
        dpl = 0;
        sys = 0;
        type = 9;
        seg_lim_15_00 = bit_and tss_size 0xFFFF;
      })
      tss size
