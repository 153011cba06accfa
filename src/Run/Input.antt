-- ===== src/Run/Input.antt =====
-- What `execute` in student-distrib/systemCalls/systemCalls.c leaves alone: the keyboard with its line
-- buffer, and the terminals.
use linux_kernel_os.Prelude.{
  ltb, ◌==◌, if◌then◌else◌, ◌>>=◌, ℕ, ◌+◌, ◌-◌, ◌*◌, ◌≡◌, refl, ◌∙◌, Bool, true, false, Option,
  none, some,
}
use linux_kernel_os.Prelude.Int.{ℤ, pos, uint32, fail}
use linux_kernel_os.Memory.{Memory, null, load32}
use linux_kernel_os.Console.{Console}
use linux_kernel_os.Strings.{strlen, strcpy}
use linux_kernel_os.Print.{printf}
use linux_kernel_os.Fs.{inode_num, read_data}
use linux_kernel_os.Fs.Dentry.{read_dentry_by_name}
use linux_kernel_os.Keyboard.{buffer_size}
use linux_kernel_os.Paging.{create_page_dir_entry}
use linux_kernel_os.Process.{
  pcb_addr, pcb_8kb, update, arguments_at, get_unused_process_id, init_pcb,
}
use linux_kernel_os.Kernel.{Kernel, Frame, Message, pid_failed, running, memory_of, with_memory}
use linux_kernel_os.Run.{
  returned, entered, page_of_process, image_offset, page_bottom, kernel_ds, user_cs, user_ds, say,
  name_index, argument_index, write_magic, link_parent, start_process, create_process, load_program,
  find_program, execute,
}

abbrev pub SameInput : Kernel → Kernel → Type 0
SameInput k k' = (k'.devices.keyboard ≡ k.devices.keyboard) × (k'.terminals ≡ k.terminals)

-- A call that comes to a result leaves the keyboard and the terminals as in `k`.
abbrev pub KeepsInput : {A : Type 0} → Kernel → Option (Kernel × A) → Type 0
KeepsInput k none = Unit
KeepsInput k (some (k', a)) = SameInput k k'

module _ (k : Kernel) where
  KeepsInput-bind {ℓ} :
      {A : Type ℓ} {B : Type 0} (x : Option A) (h : A → Option (Kernel × B))
      → ((a : A) → KeepsInput k (h a))
      → KeepsInput k (x >>= h)
  KeepsInput-bind none h each = record {}
  KeepsInput-bind (some a) h each = each a

  KeepsInput-if :
      {B : Type 0} (b : Bool) (x y : Option (Kernel × B))
      → KeepsInput k x
      → KeepsInput k y
      → KeepsInput k (if b then x else y)
  KeepsInput-if true x y p q = p
  KeepsInput-if false x y p q = q

  KeepsInput-map {ℓ} :
      {A : Type ℓ} {B : Type 0} (x : Option A) (g : A → Kernel) (h : Kernel → Option (Kernel × B))
      → ((a : A) → KeepsInput k (h (g a)))
      → KeepsInput k ((x >>= λ a. some (g a)) >>= h)
  KeepsInput-map none g h each = record {}
  KeepsInput-map (some a) g h each = each a

  -- A message changes the memory and the console only.
  pub say-KeepsInput :
      {B : Type 0} (f : Frame) (message : Message) (value : ℤ) (k' : Kernel)
      (h : Kernel → Option (Kernel × B))
      → ((k'' : Kernel) → SameInput k' k'' → KeepsInput k (h k''))
      → KeepsInput k (say f message value k' >>= h)
  unfolding say
  say-KeepsInput f message value k' h each =
      KeepsInput-map
        (printf (memory_of k') k'.devices.console f.conv (f.messages message) (λ i. uint32 value))
        (λ (x : Memory × Console × ℕ). record k' {
          devices = record k'.devices { memory = x.0; console = x.1 };
        })
        h
        (λ a.
          each (record k' { devices = record k'.devices { memory = a.0; console = a.1 } })
            (refl, refl))

  start_process-KeepsInput :
      (f : Frame) (k' : Kernel) (pid inode arguments : ℕ)
      → SameInput k k'
      → KeepsInput k (start_process f k' pid inode arguments)
  unfolding start_process
  start_process-KeepsInput f k' pid inode arguments (keys, terminals) =
      let s = record k'.processes { active = update k'.processes.active pid true } in
      let linked = link_parent f pid (init_pcb s pid k'.terminals.current) in
      KeepsInput-bind (strcpy (memory_of k') (arguments_at pid) arguments) _ (λ m.
        let loaded = (read_data k'.fs m inode 0 (page_of_process pid + image_offset) 0x400000).0 in
        let prepared : Kernel = record (with_memory k' loaded) {
          processes = linked;
          paging = create_page_dir_entry k'.paging (page_of_process pid);
          tss_esp0 = pcb_addr - pcb_8kb * pid - 4;
          tss_ss0 = kernel_ds;
        } in
        say-KeepsInput f running (linked.per_terminal (linked.pcbs pid).terminal) prepared
          (λ k''. some (k'', entered k'.entry_pt page_bottom user_cs user_ds))
          (λ k'' same. (same.0 ∙ keys, same.1 ∙ terminals)))

  create_process-KeepsInput :
      (f : Frame) (k' : Kernel) (inode arguments : ℕ) (found : Option ℕ)
      → SameInput k k'
      → get_unused_process_id k'.processes ≡ found
      → KeepsInput k (create_process f k' inode arguments)
  unfolding create_process
  create_process-KeepsInput f k' inode arguments none (keys, terminals) none_free =
      rw (create_process, none_free)
        (say-KeepsInput f pid_failed (pos 0) k' (λ k''. some (k'', returned fail))
          (λ k'' same. (same.0 ∙ keys, same.1 ∙ terminals)))
  create_process-KeepsInput f k' inode arguments (some pid) same free =
      rw (create_process, free) (start_process-KeepsInput f k' pid inode arguments same)

  load_program-KeepsInput :
      (f : Frame) (k' : Kernel) (arguments : ℕ)
      → SameInput k k'
      → KeepsInput k (load_program f k' arguments)
  unfolding load_program
  load_program-KeepsInput f k' arguments same =
      let inode = inode_num (memory_of k') f.dentry in
      let m = (read_data k'.fs (memory_of k') inode 0 f.elf_buffer 4).0 in
      let m' = (read_data k'.fs m inode 24 f.entry_buffer 4).0 in
      let with_entry = record (with_memory k' m') { entry_pt = load32 m' f.entry_buffer } in
      KeepsInput-if _ (some (with_memory k' m, returned fail))
        (create_process f with_entry inode arguments) same
        (create_process-KeepsInput f with_entry inode arguments (get_unused_process_id k'.processes)
          same refl)

  find_program-KeepsInput :
      (f : Frame) (k' : Kernel) (command : ℕ)
      → SameInput k k'
      → KeepsInput k (find_program f k' command)
  unfolding find_program
  find_program-KeepsInput f k' command same = KeepsInput-bind (strcpy _ _ _) _ (λ m.
      KeepsInput-bind (read_dentry_by_name _ _ _ _) _ (λ r.
        KeepsInput-if _ (some (with_memory k' r.0, returned fail))
          (load_program f (with_memory k' r.0) (
            command
            + argument_index m command (name_index (write_magic (memory_of k') f.magic) command)))
          same (load_program-KeepsInput f (with_memory k' r.0) _ same)))

  pub execute-KeepsInput : (f : Frame) (command : ℕ) → KeepsInput k (execute f k command)
  unfolding execute
  execute-KeepsInput f command =
      let same : SameInput k k = (refl, refl) in
      KeepsInput-if (command == null) _ _ same (
        KeepsInput-bind (strlen (memory_of k) command) _ (λ len.
          KeepsInput-if (ltb (buffer_size - 1) len) _ _ same
            (find_program-KeepsInput f k command same)))
