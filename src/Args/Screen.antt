-- ===== src/Args/Screen.antt =====
-- What `vidmap` maps, and when it refuses.
use linux_kernel_os.Prelude.Int.{pos, fail}
use linux_kernel_os.Process.{max_pcb, pcb_8kb, get_pcb_by_id, get_current_pcb, pid_of_pcb}
use linux_kernel_os.Args.{program_start, page_4mb, vidmap}
use linux_kernel_os.Kernel.{Kernel, Frame, pcb_of, current_pid}
use linux_kernel_os.Paging.Isolation.{IsLinked, translate-remap}
use linux_kernel_os.Paging.Translate.{translate}
use linux_kernel_os.Prelude.{
  ℕ, ◌+◌, ◌-◌, ◌%◌, ◌^◌, ◌≤◌, ◌<◌, ◌≡◌, ap, ◌∙◌, ◌⊎◌, Bool, true, some, arith,
}
use linux_kernel_os.Process.Stack.{get_current_pcb_lem, pid_of_pcb_back}

-- With the two page tables on different pages, `vidmap` with an address from 128 MB to 132 MB, the
-- end included, on the kernel stack of the current process, one of six, returns the address 132 MB,
-- and the 4 KB from there on are the video memory for the kernel and for programs. The process is
-- marked as one that uses the video memory.
pub vidmap-translate :
    (f : Frame) (k : Kernel) (screen_start place va : ℕ) (as_user : Bool)
    → let pid = current_pid k in
      let page = program_start + page_4mb in
      let (k', result) = vidmap f k screen_start place in
      pid < max_pcb
      → get_pcb_by_id pid ≤ f.esp
      → f.esp < get_pcb_by_id pid + pcb_8kb
      → IsLinked k.paging
      → program_start ≤ screen_start
      → screen_start ≤ page
      → page ≤ va
      → va < page + 4096
      → (result ≡ pos page)
        × (translate k'.paging as_user va ≡ some (0xb8000 + (va - page)))
        × ((pcb_of k' pid).vidmap_flag ≡ true)
unfolding vidmap
vidmap-translate f k screen_start place va as_user process lo hi linked above below from to =
    let block = get_current_pcb_lem (current_pid k) f.esp process lo hi in
    let back : pid_of_pcb (get_current_pcb f.esp) ≡ current_pid k =
      ap pid_of_pcb block ∙ pid_of_pcb_back (current_pid k) process in
    let shown = translate-remap k.paging va as_user linked (omega arith) (omega arith) in
    let at : va % 2 ^ 12 ≡ va - 0x8400000 = omega arith in ground (arith, back, shown, at)

-- An address below 128 MB or above 132 MB, the null pointer among them, is refused, and nothing
-- changes.
pub vidmap_refused :
    (f : Frame) (k : Kernel) (screen_start place : ℕ)
    → (screen_start < program_start) ⊎ (program_start + page_4mb < screen_start)
    → vidmap f k screen_start place ≡ (k, fail)
unfolding vidmap
vidmap_refused f k screen_start place bad = ground arith
