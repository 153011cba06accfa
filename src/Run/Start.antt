-- ===== src/Run/Start.antt =====
-- How `execute` in student-distrib/systemCalls/systemCalls.c starts a program that it has found.
use linux_kernel_os.Prelude.{
  length, length-append, get_or, ℕ, zero, suc, ◌+◌, ◌-◌, ◌*◌, ◌≤◌, ◌<◌, ◌≡◌, refl, ap, ◌∙◌, inl,
  inr, true, some, List, [], ◌∷◌, ◌++◌, arith,
}
use linux_kernel_os.Prelude.Int.{ℤ}
use linux_kernel_os.Memory.{Memory}
use linux_kernel_os.Memory.Write.{Apart, write_bytes, write_bytes_outside, write_bytes_inside}
use linux_kernel_os.Strings.{IsString}
use linux_kernel_os.Strings.Laws.{line, strcpy-write}
use linux_kernel_os.Fs.{Fs, inode_length, read_data}
use linux_kernel_os.Fs.Image.{
  image_end, SameImage, IsFile, file_byte, file_bytes, length-file_bytes, inode_length-SameImage,
}
use linux_kernel_os.Fs.Read.{left, read_data-file_bytes, file_bytes-SameImage, IsFile-SameImage}
use linux_kernel_os.Process.{
  max_pcb, pcb_addr, pcb_8kb, Processes, update, get_pcb_by_id, arguments_at, init_pcb,
}
use linux_kernel_os.Kernel.{Kernel, Frame, running, memory_of}
use linux_kernel_os.Paging.{create_page_dir_entry}
use linux_kernel_os.Paging.Isolation.{program_page}
use linux_kernel_os.Print.Rendering.{Outside}
use linux_kernel_os.Print.Shown.{IsString-same}
use linux_kernel_os.Run.{
  entered, page_of_process, image_offset, kernel_ds, user_cs, user_ds, page_bottom, link_parent,
  start_process,
}
use linux_kernel_os.Run.Leave.{IsHeld}
use linux_kernel_os.Run.Speak.{
  IsReady, say-Spoken, running_text, running-IsWords, length-running_text,
}

pub file_bytes_at :
    (fs : Fs) (m : Memory) (i p n j : ℕ)
    → j < n
    → get_or (file_bytes fs m i p n) j 0 ≡ file_byte fs m i (p + j)
unfolding file_bytes
file_bytes_at fs m i p zero j h = absurd (omega arith)
file_bytes_at fs m i p (suc n) zero h = ap (file_byte fs m i) (omega arith)
file_bytes_at fs m i p (suc n) (suc j) h =
    file_bytes_at fs m i (p + 1) n j (omega arith) ∙ ap (file_byte fs m i) (omega arith)

length-line : (bs : List ℕ) → length (line bs) ≤ length bs
length-line [] = omega arith
length-line (b ∷ bs) = ground (arith, length-line bs)

-- The file of the inode can be started as the process `pid` with the arguments `bs`: it fits into the
-- page of a program from its offset on; the image, the screen, the buffer of `printf` and the messages
-- lie below the kernel stacks or the programs, and the copy of the arguments overwrites neither them
-- nor the message.
pub record CanStart (f : Frame) (k : Kernel) (pid inode arguments : ℕ) (bs : List ℕ) : Type 0 where
  pub pid_in : pid < max_pcb
  pub file : IsFile k.fs (memory_of k) inode
  pub full : 0 < inode_length k.fs (memory_of k) inode
  pub fits : inode_length k.fs (memory_of k) inode + image_offset ≤ 0x400000
  pub image_low : image_end k.fs ≤ 0x7f4000
  pub is_arguments : IsString (memory_of k) arguments bs
  pub short : length bs ≤ 127
  pub arguments_out : Apart (arguments_at pid) (length bs + 1) arguments (length bs + 1)
  pub ready : IsReady f k.devices.console
  pub screen_low : k.devices.console.video_mem + 4000 ≤ 0x800000
  pub buffer_low : f.conv + 64 ≤ 0x800000
  pub on_start : IsHeld f k running running_text
  pub message_low : f.messages running + length running_text + 1 ≤ 0x800000
  pub message_out :
      Apart (arguments_at pid) (length bs + 1) (f.messages running) (length running_text + 1)

module _ (f : Frame) (k : Kernel) (pid inode arguments : ℕ) (bs : List ℕ)
    (can : CanStart f k pid inode arguments bs) where
  -- The memory with the arguments, and with the program behind them.
  abbrev copied : Memory
  copied = write_bytes (memory_of k) (arguments_at pid) (line bs ++ 0 ∷ [])

  abbrev size : ℕ
  size = inode_length k.fs (memory_of k) inode

  abbrev loaded : Memory
  loaded =
      write_bytes copied (program_page pid + image_offset)
        (file_bytes k.fs (memory_of k) inode 0 size)

  copied_outside : (a : ℕ) → Apart (arguments_at pid) (length bs + 1) a 1 → copied a ≡ memory_of k a
  copied_outside a out =
      write_bytes_outside (memory_of k) (arguments_at pid) a (line bs ++ 0 ∷ [])
        (ground (arith, length-line bs, length-append (line bs) (0 ∷ []), out))

  copied-SameImage : SameImage k.fs (memory_of k) copied
  unfolding get_pcb_by_id
  copied-SameImage a lo hi = copied_outside a (inr (omega (arith, can.image_low, can.pid_in)))

  page : page_of_process pid ≡ program_page pid
  page = omega (arith, can.pid_in)

  read_data-loaded :
      (read_data k.fs copied inode 0 (page_of_process pid + image_offset) 0x400000).0 ≡ loaded
  read_data-loaded =
      let same = copied-SameImage in
      let m = memory_of k in
      let file' = IsFile-SameImage k.fs m copied inode can.file same in
      let size' = inode_length-SameImage k.fs m copied same inode can.file.inode_in in
      let whole : left k.fs copied inode 0x400000 0 ≡ size = omega (arith, size', can.fits) in
      let run =
        read_data-file_bytes k.fs copied inode 0 (program_page pid + image_offset) 0x400000 file'
          (omega (arith, size', can.full)) (omega arith) (omega arith) (λ e. absurd (omega arith))
          (inr (omega (arith, can.image_low))) in
      let at = program_page pid + image_offset in
      ap (λ (b : ℕ). (read_data k.fs copied inode 0 (b + image_offset) 0x400000).0) page
      ∙ ap (λ (r : Memory × ℤ). r.0) run
      ∙ ap (λ (n : ℕ). write_bytes copied at (file_bytes k.fs copied inode 0 n)) whole
      ∙ ap (write_bytes copied at)
          (file_bytes-SameImage k.fs m copied inode 0 size can.file same (omega arith))

  loaded_byte :
      (i : ℕ)
      → i < size
      → loaded (program_page pid + image_offset + i) ≡ file_byte k.fs (memory_of k) inode i
  loaded_byte i h =
      let bytes = file_bytes k.fs (memory_of k) inode 0 size in
      let count = length-file_bytes k.fs (memory_of k) inode 0 size in
      write_bytes_inside copied (program_page pid + image_offset) i bytes (omega (arith, count))
      ∙ file_bytes_at k.fs (memory_of k) inode 0 size i h
      ∙ ap (file_byte k.fs (memory_of k) inode) (omega arith)

  loaded_outside :
      (a : ℕ)
      → a < 0x800000
      → Apart (arguments_at pid) (length bs + 1) a 1
      → loaded a ≡ memory_of k a
  loaded_outside a low aside =
      write_bytes_outside copied (program_page pid + image_offset) a
        (file_bytes k.fs (memory_of k) inode 0 size) (inr (omega arith))
      ∙ copied_outside a aside

  loaded_message : IsString loaded (f.messages running) running_text
  loaded_message =
      IsString-same (memory_of k) loaded (f.messages running) running_text
        (λ a lo hi.
          loaded_outside a (omega (arith, can.message_low)) (ground (arith, can.message_out)))
        can.on_start.is

  -- The tables of processes that the start leaves.
  abbrev pub linked : Processes
  linked =
      let s = record k.processes { active = update k.processes.active pid true } in
      link_parent f pid (init_pcb s pid k.terminals.current)

  -- The file of the inode is started as a new process: its bytes are in the page of the process, which
  -- is mapped, the TSS has the kernel stack of the process, and the program is entered.
  pub start_process-entered :
      (k' : Kernel) × (start_process f k pid inode arguments
        ≡ some (k', entered k.entry_pt page_bottom user_cs user_ds))
      × (k'.processes ≡ linked)
      × (k'.paging ≡ create_page_dir_entry k.paging (program_page pid))
      × (k'.tss_esp0 ≡ pcb_addr - pcb_8kb * pid - 4)
      × ((i : ℕ)
          → i < size
          → memory_of k' (program_page pid + image_offset + i)
            ≡ file_byte k.fs (memory_of k) inode i)
      × ((a : ℕ)
          → a < 0x800000
          → Apart (arguments_at pid) (length bs + 1) a 1
          → Outside k.devices.console.video_mem f.conv a 1
          → memory_of k' a ≡ memory_of k a)
      × IsReady f k'.devices.console
      × (k'.devices.console.video_mem ≡ k.devices.console.video_mem)
  unfolding start_process
  start_process-entered =
      let copy =
        strcpy-write (memory_of k) (arguments_at pid) arguments bs can.is_arguments
          can.arguments_out (omega (arith, can.short)) in
      let start = record k {
        processes = linked;
        devices = record k.devices { memory = loaded };
        paging = create_page_dir_entry k.paging (program_page pid);
        tss_esp0 = pcb_addr - pcb_8kb * pid - 4;
        tss_ss0 = kernel_ds;
      } in
      let (k', spoken, s) =
        say-Spoken f running (linked.per_terminal (linked.pcbs pid).terminal) start running_text
          can.ready running-IsWords loaded_message can.on_start.out
          (omega (arith, length-running_text)) in
      (
        k',
        rw (copy, read_data-loaded, page, spoken) refl,
        ap (λ (x : Kernel). x.processes) s.state,
        ap (λ (x : Kernel). x.paging) s.state,
        ap (λ (x : Kernel). x.tss_esp0) s.state,
        λ i h.
            s.kept (program_page pid + image_offset + i)
              (inl (omega (arith, can.screen_low)), inl (omega (arith, can.buffer_low)))
            ∙ loaded_byte i h,
        λ a low aside out. s.kept a out ∙ loaded_outside a low aside,
        s.ready,
        s.same_screen,
      )
