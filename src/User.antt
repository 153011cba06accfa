-- ===== src/User.antt =====
-- The programs of the users, in syscalls/ and fish/: what they ask of the system, and their library.
-- A program's addresses are the ones after translation.
pub mod Support
pub mod Programs
pub mod Syserr
pub mod Cat
pub mod Grep
pub mod Pingpong
pub mod Passes
pub mod Refused
use linux_kernel_os.Syscalls.{syscall_handler}
use linux_kernel_os.Run.{Outcome, returned, entered, resumed}
use linux_kernel_os.Prelude.Int.{ℤ, uint32}
use linux_kernel_os.Prelude.{◌>>=◌, ℕ, Option, none, some}
use linux_kernel_os.Memory.{Memory}
use linux_kernel_os.Kernel.{Kernel, Frame, memory_of, with_memory}

-- What a program runs on: a state with a memory, and the system calls, by the contents of EAX, EBX,
-- ECX and EDX. A call that does not come back to the program is `none`.
pub record System (S : Type 0) : Type 0 where
  pub memory : S → Memory
  pub put_memory : S → Memory → S
  pub call : S → (eax ebx ecx edx : ℕ) → Option (S × ℤ)

-- The wrappers of syscalls/ece391syscall.S. What a wrapper with fewer arguments leaves in the other
-- registers does not matter.
module _ {S : Type 0} (sys : System S) where
  unfoldable pub ece391_execute : S → ℕ → Option (S × ℤ)
  ece391_execute s command = sys.call s 2 command 0 0

  unfoldable pub ece391_read : S → ℤ → ℕ → ℤ → Option (S × ℤ)
  ece391_read s fd buf nbytes = sys.call s 3 (uint32 fd) buf (uint32 nbytes)

  unfoldable pub ece391_write : S → ℤ → ℕ → ℤ → Option (S × ℤ)
  ece391_write s fd buf nbytes = sys.call s 4 (uint32 fd) buf (uint32 nbytes)

  unfoldable pub ece391_open : S → ℕ → Option (S × ℤ)
  ece391_open s filename = sys.call s 5 filename 0 0

  unfoldable pub ece391_close : S → ℤ → Option (S × ℤ)
  ece391_close s fd = sys.call s 6 (uint32 fd) 0 0

  unfoldable pub ece391_getargs : S → ℕ → ℤ → Option (S × ℤ)
  ece391_getargs s buf nbytes = sys.call s 7 buf (uint32 nbytes) 0

  unfoldable pub ece391_vidmap : S → ℕ → Option (S × ℤ)
  ece391_vidmap s screen_start = sys.call s 8 screen_start 0 0

  unfoldable pub ece391_set_handler : S → ℕ → ℕ → Option (S × ℤ)
  ece391_set_handler s signum handler = sys.call s 9 signum handler 0

-- The system calls of the kernel, as a program sees them: every call with the frames `f` and `g`, and
-- with the place of an address after translation.
unfoldable pub came_back : Kernel × Outcome → Option (Kernel × ℤ)
came_back (k, returned r) = some (k, r)
came_back (k, entered eip esp cs ss) = none
came_back (k, resumed status esp ebp) = none

unfoldable pub kernel_system : Frame → Frame → (ℕ → ℕ) → System Kernel
unfolding came_back
kernel_system f g place = record {
  memory = memory_of;
  put_memory = with_memory;
  call = λ k eax ebx ecx edx. (do
    r ←
        syscall_handler f g k
          (record { eax = eax; ebx = ebx; ecx = ecx; edx = edx; place = place ebx })
    came_back r);
}
