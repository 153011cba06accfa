-- ===== src/Memory.antt =====
-- The machine's memory, a byte at each address. Pointer arithmetic is not reduced modulo 2 ^ 32,
-- since a C object does not cross the end of the address space.
pub mod Copy
pub mod Fill
pub mod Move
pub mod Write
use linux_kernel_os.Prelude.{◌==◌, if◌then◌else◌, ℕ, ◌+◌, ◌*◌, ◌^◌}

abbrev pub Memory : Type 0
Memory = ℕ → ℕ

abbrev pub null : ℕ
null = 0

abbrev pub store : Memory → ℕ → ℕ → Memory
store m p v a = if p == a then v else m a

-- A little-endian `uint32_t`.
abbrev pub load32 : Memory → ℕ → ℕ
load32 m p = m p + m (p + 1) * 2 ^ 8 + m (p + 2) * 2 ^ 16 + m (p + 3) * 2 ^ 24
