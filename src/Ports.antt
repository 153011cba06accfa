-- ===== src/Ports.antt =====
-- The x86 port instructions of student-distrib/lib.h. What a device answers on `inb` is not part of
-- the code: it is an argument of the operation that reads, and what is written is a log.
use linux_kernel_os.Prelude.{ℕ, ◌%◌}

-- One `outb(data, port)`.
pub record Out : Type 0 where
  pub byte : ℕ
  pub port : ℕ

-- `outb` passes on the low byte of its argument.
abbrev pub outb : ℕ → ℕ → Out
outb value p = record { byte = value % 256; port = p }
