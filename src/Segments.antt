-- ===== src/Segments.antt =====
-- The segment descriptors that `entry` of student-distrib/kernel.c builds, with the macros of
-- student-distrib/x86_desc.h.
use linux_kernel_os.Prelude.{ℕ, ◌+◌, ◌*◌, ◌/◌, ◌%◌, ◌^◌}
pub mod Fields

-- `seg_desc_t`, by its bit fields.
pub record SegDesc : Type 0 where
  pub seg_lim_15_00 : ℕ
  pub base_15_00 : ℕ
  pub base_23_16 : ℕ
  pub kind : ℕ
  pub sys : ℕ
  pub dpl : ℕ
  pub present : ℕ
  pub seg_lim_19_16 : ℕ
  pub avail : ℕ
  pub reserved : ℕ
  pub opsize : ℕ
  pub granularity : ℕ
  pub base_31_24 : ℕ

-- SET_LDT_PARAMS and SET_TSS_PARAMS, which are the same.
unfoldable pub set_params : SegDesc → ℕ → ℕ → SegDesc
set_params d addr lim = record d {
  base_31_24 = addr / 2 ^ 24 % 2 ^ 8;
  base_23_16 = addr / 2 ^ 16 % 2 ^ 8;
  base_15_00 = addr % 2 ^ 16;
  seg_lim_19_16 = lim / 2 ^ 16 % 2 ^ 4;
  seg_lim_15_00 = lim % 2 ^ 16;
}

-- The descriptor of the LDT, from the local variable `d`.
unfoldable pub ldt_descriptor : SegDesc → ℕ → ℕ → SegDesc
unfolding set_params
ldt_descriptor d ldt ldt_size =
    let d' = record d {
      granularity = 0;
      opsize = 1;
      reserved = 0;
      avail = 0;
      present = 1;
      dpl = 0;
      sys = 0;
      kind = 2;
    } in
    set_params d' ldt ldt_size

-- The descriptor of the TSS. TSS_SIZE is 104: bits 16 to 19 of it are 0.
unfoldable pub tss_descriptor : SegDesc → ℕ → ℕ → SegDesc
unfolding set_params
tss_descriptor d tss tss_size =
    let d' = record d {
      granularity = 0;
      opsize = 0;
      reserved = 0;
      avail = 0;
      seg_lim_19_16 = 0;
      present = 1;
      dpl = 0;
      sys = 0;
      kind = 9;
      seg_lim_15_00 = 104;
    } in
    set_params d' tss tss_size

-- The base and the limit that the processor puts together.
unfoldable pub base_of : SegDesc → ℕ
base_of d = d.base_31_24 * 2 ^ 24 + d.base_23_16 * 2 ^ 16 + d.base_15_00

unfoldable pub limit_of : SegDesc → ℕ
limit_of d = d.seg_lim_19_16 * 2 ^ 16 + d.seg_lim_15_00
