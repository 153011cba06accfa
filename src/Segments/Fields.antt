-- ===== src/Segments/Fields.antt =====
-- The base and the limit in the two segment descriptors of student-distrib/kernel.c.
use linux_kernel_os.Prelude.{ℕ, ◌^◌, ◌<◌, ◌≡◌, arith}
use linux_kernel_os.Segments.{
  SegDesc, set_params, ldt_descriptor, tss_descriptor, base_of, limit_of,
}

-- Whatever the local variable holds, the base and the limit that the processor puts together from the
-- descriptors of the LDT and of the TSS are the address and the size that `entry` gave, for an
-- address of 32 bits and a size of 20 bits.
pub descriptors_located :
    (d : SegDesc) (addr size : ℕ)
    → addr < 2 ^ 32
    → size < 2 ^ 20
    → (base_of (ldt_descriptor d addr size) ≡ addr)
      × (limit_of (ldt_descriptor d addr size) ≡ size)
      × (base_of (tss_descriptor d addr size) ≡ addr)
      × (limit_of (tss_descriptor d addr size) ≡ size)
unfolding base_of limit_of set_params ldt_descriptor tss_descriptor
descriptors_located d addr size ha hs = (omega arith, omega arith, omega arith, omega arith)
