-- ===== src/Args.antt =====
-- The other system calls of student-distrib/systemCalls/systemCalls.c: `getargs`, `vidmap`,
-- `set_handler` and `sigreturn`.
pub mod Copy
pub mod Screen
use linux_kernel_os.Prelude.Int.{ℤ, pos, negsuc, fail}
use linux_kernel_os.Memory.{Memory, null, store}
use linux_kernel_os.Process.{get_current_pcb, arguments_at, pid_of_pcb}
use linux_kernel_os.Kernel.{Kernel, Frame, memory_of, with_memory, pcb_of, current_pid, with_pcb}
use linux_kernel_os.Strings.{strlen, strncpy}
use linux_kernel_os.Paging.{remap_video_memory}
use linux_kernel_os.Prelude.{
  ltb, ◌==◌, if◌then◌else◌, ◌>>=◌, ℕ, ◌+◌, ◌/◌, ◌%◌, ◌^◌, true, ◌||◌, Option, some,
}

-- `buf` is the address of the buffer after translation.
unfoldable pub getargs : Kernel → ℕ → ℤ → Option (Kernel × ℤ)
getargs k buf (negsuc n) = some (k, fail)
getargs k buf (pos n) =
    let from = arguments_at (current_pid k) in
    let go : Option (Kernel × ℤ) = (do
      len ← strlen (memory_of k) from
      let copied : Option (Kernel × ℤ) = (do
        m ← strncpy (memory_of k) buf from n
        some (with_memory k m, pos 0))
      if (len == 0) || ltb n len then some (k, fail) else copied) in
    if (n == 0) || (buf == null) then some (k, fail) else go

-- A little-endian `uint32_t` at an address.
abbrev pub store32 : Memory → ℕ → ℕ → Memory
store32 m p v =
    store (store (store (store m p (v % 256)) (p + 1) (v / 2 ^ 8 % 256)) (p + 2) (v / 2 ^ 16 % 256))
      (p + 3) (v / 2 ^ 24)

-- _128MB and _4MB
abbrev pub program_start : ℕ
program_start = 0x8000000

abbrev pub page_4mb : ℕ
page_4mb = 0x400000

-- `screen_start` is the address that the program gives, and `place` where it is after translation.
unfoldable pub vidmap : Frame → Kernel → (screen_start place : ℕ) → Kernel × ℤ
vidmap f k screen_start place =
    if (screen_start == null)
      || ltb screen_start program_start
      || ltb (program_start + page_4mb) screen_start
    then (k, fail)
    else (let pid = pid_of_pcb (get_current_pcb f.esp) in
        let marked = with_pcb k pid (record (pcb_of k pid) { vidmap_flag = true }) in
        let mapped = record marked { paging = remap_video_memory marked.paging } in
        (
          with_memory mapped (store32 (memory_of mapped) place (program_start + page_4mb)),
          pos (program_start + page_4mb),
        ))

unfoldable pub set_handler : ℕ → ℕ → ℤ
set_handler signum handler_address = fail

unfoldable pub sigreturn : ℤ
sigreturn = fail
