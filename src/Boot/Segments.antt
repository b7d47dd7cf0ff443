-- ===== src/Boot/Segments.antt =====
-- The two descriptors that the entry of student-distrib/kernel.c builds, with the fields and macros
-- of student-distrib/x86_desc.h.
use project_my_os.Base.{ℕ, ◌+◌, ◌*◌, ◌/◌, ◌%◌, ◌^◌, ◌<◌, ◌≡◌, arith}

-- `seg_desc_t`; `type` is a word of the language.
pub record SegDesc : Type 0 where
  pub seg_lim_15_00 : ℕ
  pub base_15_00 : ℕ
  pub base_23_16 : ℕ
  pub seg_type : ℕ
  pub sys : ℕ
  pub dpl : ℕ
  pub present : ℕ
  pub seg_lim_19_16 : ℕ
  pub avail : ℕ
  pub reserved : ℕ
  pub opsize : ℕ
  pub granularity : ℕ
  pub base_31_24 : ℕ

-- `SET_LDT_PARAMS` and `SET_TSS_PARAMS`, which are the same.
unfoldable pub set_params : SegDesc → (addr lim : ℕ) → SegDesc
set_params d addr lim = record d {
  base_31_24 = addr / 16777216 % 256;
  base_23_16 = addr / 65536 % 256;
  base_15_00 = addr % 65536;
  seg_lim_19_16 = lim / 65536 % 16;
  seg_lim_15_00 = lim % 65536;
}

abbrev pub tss_size_constant : ℕ
tss_size_constant = 104

-- What a block sets before the macro; the other fields are the macro's.
unfoldable pub the_ldt_desc : SegDesc
the_ldt_desc = record {
  seg_lim_15_00 = 0;
  base_15_00 = 0;
  base_23_16 = 0;
  seg_type = 2;
  sys = 0;
  dpl = 0;
  present = 1;
  seg_lim_19_16 = 0;
  avail = 0;
  reserved = 0;
  opsize = 1;
  granularity = 0;
  base_31_24 = 0;
}

unfoldable pub the_tss_desc : SegDesc
the_tss_desc = record {
  seg_lim_15_00 = tss_size_constant;
  base_15_00 = 0;
  base_23_16 = 0;
  seg_type = 9;
  sys = 0;
  dpl = 0;
  present = 1;
  seg_lim_19_16 = 0;
  avail = 0;
  reserved = 0;
  opsize = 0;
  granularity = 0;
  base_31_24 = 0;
}

-- The base and the limit of a descriptor, as the processor puts them together.
abbrev pub seg_base : SegDesc → ℕ
seg_base d = d.base_15_00 + 65536 * d.base_23_16 + 16777216 * d.base_31_24

abbrev pub seg_limit : SegDesc → ℕ
seg_limit d = d.seg_lim_15_00 + 65536 * d.seg_lim_19_16

-- The parts that the macros store are put together to the address and the limit again, for any
-- 32-bit address and 20-bit limit.
pub set_params_lem :
    (d : SegDesc) (addr lim : ℕ)
    → addr < 2 ^ 32
    → lim < 2 ^ 20
    → (seg_base (set_params d addr lim) ≡ addr) × (seg_limit (set_params d addr lim) ≡ lim)
unfolding set_params
set_params_lem d addr lim small short = (omega arith, omega arith)
