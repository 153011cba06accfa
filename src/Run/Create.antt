-- ===== src/Run/Create.antt =====
-- The state that `execute` leaves to a new program, and what is as before once the program has ended.
use mathlib.Core.Path.{subst}
use linux_kernel_os.Files.Reachable.{AllAssigned}
use linux_kernel_os.Memory.Write.{Apart}
use linux_kernel_os.Print.Rendering.{Outside}
use linux_kernel_os.Run.Speak.{IsReady}
use linux_kernel_os.Prelude.{
  length, ℕ, ◌+◌, ◌-◌, ◌*◌, ◌/◌, ◌%◌, ◌^◌, ◌<◌, ◌≡◌, sym, ap, ◌∙◌, ◌≢◌, true, false, some, List,
  arith,
}
use linux_kernel_os.Prelude.Int.{pos, plus}
use linux_kernel_os.Fs.{inode_length}
use linux_kernel_os.Fs.Image.{file_byte}
use linux_kernel_os.Process.{pcb_addr, pcb_8kb, Ops, Pcb, Processes, arguments_at, update}
use linux_kernel_os.Process.Slots.{get_unused_process_id-lowest}
use linux_kernel_os.Kernel.{Kernel, Frame, memory_of, pcb_of}
use linux_kernel_os.Paging.{Paging, program_index, create_page_dir_entry}
use linux_kernel_os.Paging.Isolation.{program_page, translate-create_page_dir_entry}
use linux_kernel_os.Paging.Translate.{translate}
use linux_kernel_os.Run.{entered, image_offset, user_cs, user_ds, page_bottom, create_process}
use linux_kernel_os.Run.Links.{
  parent_on, link_parent_others, link_parent_tables, link_parent_vidmap, link_parent-AllAssigned,
  link_parent-init_pcb,
}
use linux_kernel_os.Run.Start.{CanStart, start_process-entered}

-- The address that a program is loaded to.
abbrev pub program_start : ℕ
program_start = 0x8048000

-- A new process `pid` runs the file of the inode.
pub record Started (f : Frame) (k : Kernel) (pid inode length : ℕ) (k' : Kernel) : Type 0 where
  pub is_current : k'.processes.current ≡ pid
  pub now_active : k'.processes.active ≡ update k.processes.active pid true
  pub now_top :
      k'.processes.pid_in_terminal
      ≡ update k.processes.pid_in_terminal k.terminals.current (pos pid)
  pub counted :
      k'.processes.per_terminal
      ≡ update k.processes.per_terminal k.terminals.current
          (plus (k.processes.per_terminal k.terminals.current) 1)
  pub parent : (pcb_of k' pid).parent_id ≡ parent_on k.processes k.terminals.current pid
  pub back_esp : (pcb_of k' pid).parent_esp ≡ f.esp
  pub back_ebp : (pcb_of k' pid).parent_ebp ≡ f.ebp
  pub on_terminal : (pcb_of k' pid).terminal ≡ k.terminals.current
  pub no_vidmap : (pcb_of k' pid).vidmap_flag ≡ false
  pub others : (p : ℕ) → p ≢ pid → pcb_of k' p ≡ pcb_of k p
  pub kernel_stack : k'.tss_esp0 ≡ pcb_addr - pcb_8kb * pid - 4
  pub paged : k'.paging ≡ create_page_dir_entry k.paging (program_page pid)
  pub program :
      (i : ℕ)
      → i < inode_length k.fs (memory_of k) inode
      → (a : ℕ) × (translate k'.paging true (program_start + i) ≡ some a)
        × (memory_of k' a ≡ file_byte k.fs (memory_of k) inode i)
  -- The memory below the programs, but for the screen, the buffer of `printf` and the arguments.
  pub kept :
      (a : ℕ)
      → a < 0x800000
      → Apart (arguments_at pid) (length + 1) a 1
      → Outside k.devices.console.video_mem f.conv a 1
      → memory_of k' a ≡ memory_of k a
  pub ready : IsReady f k'.devices.console
  pub same_screen : k'.devices.console.video_mem ≡ k.devices.console.video_mem
  pub safe : AllAssigned k → AllAssigned k'

pub program_at :
    (p : Paging) (pid i : ℕ)
    → i + image_offset < 0x400000
    → translate (create_page_dir_entry p (program_page pid)) true (program_start + i)
      ≡ some (program_page pid + image_offset + i)
program_at p pid i inside =
    let there : (program_start + i) / 2 ^ 22 ≡ program_index = omega arith in
    let offset : program_page pid + (program_start + i) % 2 ^ 22
        ≡ program_page pid + image_offset + i =
      omega arith in
    translate-create_page_dir_entry p pid (program_start + i) true ∙ rw there (ap some offset)

module _ (f : Frame) (k : Kernel) (pid inode arguments : ℕ) (bs : List ℕ)
    (can : CanStart f k pid inode arguments bs)
    (own : (p : ℕ) → (k.processes.pcbs p).process_id ≡ p) where
  -- With `pid` the lowest process id that is not active, blocks that carry their own ids, and a
  -- file that can be started as that process (it fits into the 4 MB page from its offset on, the
  -- arguments are at most 127 characters, the messages can be printed, and image, screen,
  -- buffers and messages do not overlap what is written): `execute` from the search of the
  -- process id on enters the program, at the entry point that was read, with the segments and
  -- the stack of the user. The new process is the current one, is active and at the top of its
  -- terminal, whose count goes up by one; its parent is the process that was at the top, or
  -- itself where there was none; it keeps the stack and base pointers of the call; no other
  -- block changes; the TSS has its kernel stack; and the program finds each byte of its file at
  -- its address from 0x8048000 on.
  pub create_process-Started :
      k.processes.active pid ≡ false
      → ((l : ℕ) → l < pid → k.processes.active l ≡ true)
      → (k' : Kernel) × (create_process f k inode arguments
          ≡ some (k', entered k.entry_pt page_bottom user_cs user_ds))
        × Started f k pid inode (length bs) k'
  unfolding create_process
  create_process-Started free below =
      let (k', run, processes, paging, tss, bytes, kept, ready, same_screen) =
        start_process-entered f k pid inode arguments bs can in
      let t = k.terminals.current in
      let s = record k.processes { active = update k.processes.active pid true } in
      let (current, _, _, _, terminal, parent, esp, ebp, _, _, _) =
        link_parent-init_pcb f s pid t 0 (omega arith) own in
      let (active, top, count) = link_parent_tables f s pid t in
      let blocks = ap (λ (x : Processes). x.pcbs) processes in
      let lowest = get_unused_process_id-lowest k.processes pid can.pid_in free below in
      (
        k',
        rw (create_process, lowest) run,
        record {
          is_current = ap (λ (x : Processes). x.current) processes ∙ current;
          now_active = ap (λ (x : Processes). x.active) processes ∙ active;
          now_top = ap (λ (x : Processes). x.pid_in_terminal) processes ∙ top;
          counted = ap (λ (x : Processes). x.per_terminal) processes ∙ count;
          parent = ap (λ (b : ℕ → Pcb). (b pid).parent_id) blocks ∙ parent;
          back_esp = ap (λ (b : ℕ → Pcb). (b pid).parent_esp) blocks ∙ esp;
          back_ebp = ap (λ (b : ℕ → Pcb). (b pid).parent_ebp) blocks ∙ ebp;
          on_terminal = ap (λ (b : ℕ → Pcb). (b pid).terminal) blocks ∙ terminal;
          no_vidmap =
              ap (λ (b : ℕ → Pcb). (b pid).vidmap_flag) blocks ∙ link_parent_vidmap f s pid t;
          others =
              λ p other. ap (λ (b : ℕ → Pcb). b p) blocks ∙ link_parent_others f s pid t p other;
          kernel_stack = tss;
          paged = paging;
          program = λ i h. (
            program_page pid + image_offset + i,
            ap (λ (p : Paging). translate p true (program_start + i)) paging
                ∙ program_at k.paging pid i (omega (arith, h, can.fits)),
            bytes i h,
          );
          kept = kept;
          ready = ready;
          same_screen = same_screen;
          safe = λ ok.
              subst
                (λ (x : Processes).
                  (p j : ℕ)
                  → ((x.pcbs p).fds j).in_use ≡ true
                  → (o : Ops) × (((x.pcbs p).fds j).operations ≡ some o))
                (sym processes) (link_parent-AllAssigned f s pid t ok);
        },
      )
