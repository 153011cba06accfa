-- ===== src/Exceptions.antt =====
-- The handlers of student-distrib/interrupts-exceptions/exceptionHandlers.c, which print and halt the
-- current process.
use linux_kernel_os.Prelude.Int.{pos}
use linux_kernel_os.Run.{Outcome, say, halt}
use linux_kernel_os.Kernel.{Kernel, fault, Frame}
use linux_kernel_os.Prelude.{◌==◌, if◌then◌else◌, ◌>>=◌, ℕ, Option}

-- The handlers differ in their text only. That of a page fault prints the address in CR2, `cr2`; the
-- others have no argument. MINUS_ONE is cut to the `uint8_t` 255.
unfoldable pub exception_handler :
    Frame → Frame → Frame → Kernel → (vector cr2 : ℕ) → Option (Kernel × Outcome)
exception_handler f h g k vector cr2 = do
  k' ← say f (fault vector) (if vector == 0x0e then pos cr2 else pos 0) k
  halt h g k' 255
