-- ===== src/Syscalls.antt =====
-- student-distrib/linkages/syscall_wrapper.S: the handler of the system calls, which a program makes
-- with the number in EAX and the arguments in EBX, ECX and EDX.
use linux_kernel_os.Prelude.Int.{ℤ, pos, fail, lt_int, int32}
use linux_kernel_os.Args.{getargs, vidmap, set_handler, sigreturn}
use linux_kernel_os.Run.{Outcome, returned, execute, halt}
use linux_kernel_os.Files.{open_file, read, write, close}
use linux_kernel_os.Kernel.{Kernel, Frame}
use linux_kernel_os.Prelude.{◌==◌, if◌then◌else◌, ℕ, ◌%◌, ◌||◌, Option, none, some}

-- The registers are words; a signed argument is their value as an `int32_t`. Pointers are the
-- addresses after translation, but for the argument of `vidmap`, whose place after translation is
-- `place`. `g` is the frame of the call that a system call makes.
pub record Registers : Type 0 where
  pub eax : ℕ
  pub ebx : ℕ
  pub ecx : ℕ
  pub edx : ℕ
  pub place : ℕ

-- A system call that returns its result in EAX.
abbrev pub returning : Option (Kernel × ℤ) → Option (Kernel × Outcome)
returning none = none
returning (some (k, r)) = some (k, returned r)

-- The table `system_calls`, behind the test of the number: `halt` takes the low byte of EBX.
unfoldable pub call_table : Frame → Frame → Kernel → Registers → ℕ → Option (Kernel × Outcome)
call_table f g k r number =
    if number == 1
    then halt f g k (r.ebx % 256)
    else if number == 2
    then execute f k r.ebx
    else if number == 3
    then returning (read f k (int32 r.ebx) r.ecx (int32 r.edx))
    else if number == 4
    then returning (write f k (int32 r.ebx) r.ecx (int32 r.edx))
    else if number == 5
    then returning (open_file f k r.ebx)
    else if number == 6
    then returning (close k (int32 r.ebx))
    else if number == 7
    then returning (getargs k r.ebx (int32 r.ecx))
    else if number == 8
    then returning (some (vidmap f k r.ebx r.place))
    else if number == 9
    then some (k, returned (set_handler r.ebx r.ecx))
    else some (k, returned sigreturn)

-- `cmpl $1, %eax; jl` and `cmpl $10, %eax; jg` are comparisons of signed words.
unfoldable pub syscall_handler : Frame → Frame → Kernel → Registers → Option (Kernel × Outcome)
unfolding call_table
syscall_handler f g k r =
    if lt_int (int32 r.eax) (pos 1) || lt_int (pos 10) (int32 r.eax)
    then some (k, returned fail)
    else call_table f g k r r.eax
