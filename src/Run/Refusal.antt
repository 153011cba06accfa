-- ===== src/Run/Refusal.antt =====
-- What `execute` in student-distrib/systemCalls/systemCalls.c has changed when it returns.
use linux_kernel_os.Prelude.{
  ltb, ◌==◌, if◌then◌else◌, ◌>>=◌, ℕ, ◌+◌, ◌-◌, ◌≡◌, refl, Bool, true, false, Option, none, some,
}
use linux_kernel_os.Prelude.Int.{pos, uint32, fail}
use linux_kernel_os.Memory.{Memory, null, load32}
use linux_kernel_os.Console.{Console}
use linux_kernel_os.Strings.{strlen, strcpy}
use linux_kernel_os.Print.{printf}
use linux_kernel_os.Fs.{inode_num, read_data}
use linux_kernel_os.Fs.Dentry.{read_dentry_by_name}
use linux_kernel_os.Keyboard.{buffer_size}
use linux_kernel_os.Process.{get_unused_process_id}
use linux_kernel_os.Kernel.{Kernel, Frame, pid_failed, memory_of, with_memory}
use linux_kernel_os.Run.{
  Outcome, returned, entered, resumed, say, name_index, argument_index, write_magic, start_process,
  create_process, load_program, find_program, execute,
}

-- All but the memory, the console and the entry point.
abbrev pub SameState : Kernel → Kernel → Type 0
SameState k k' =
    (k'.processes ≡ k.processes)
    × (k'.fs ≡ k.fs)
    × (k'.rtc ≡ k.rtc)
    × (k'.paging ≡ k.paging)
    × (k'.terminals ≡ k.terminals)
    × (k'.pic ≡ k.pic)
    × (k'.pit ≡ k.pit)
    × (k'.tss_esp0 ≡ k.tss_esp0)
    × (k'.tss_ss0 ≡ k.tss_ss0)
    × (k'.devices.keyboard ≡ k.devices.keyboard)

-- A call that returns does so with -1 and in the state of before, or it enters a program.
abbrev pub Refuses : Kernel → Option (Kernel × Outcome) → Type 0
Refuses k none = Unit
Refuses k (some (k', returned r)) = (r ≡ fail) × SameState k k'
Refuses k (some (k', entered eip esp cs ss)) = Unit
Refuses k (some (k', resumed status esp ebp)) = ⊥

module _ (k : Kernel) where
  Refuses-bind {ℓ} :
      {A : Type ℓ} (x : Option A) (h : A → Option (Kernel × Outcome))
      → ((a : A) → Refuses k (h a))
      → Refuses k (x >>= h)
  Refuses-bind none h each = record {}
  Refuses-bind (some a) h each = each a

  Refuses-if :
      (b : Bool) (x y : Option (Kernel × Outcome))
      → Refuses k x
      → Refuses k y
      → Refuses k (if b then x else y)
  Refuses-if true x y p q = p
  Refuses-if false x y p q = q

  -- Behind a message the state is that of before but for the memory and the console.
  Refuses-map {ℓ} :
      {A : Type ℓ} (x : Option A) (g : A → Kernel) (h : Kernel → Option (Kernel × Outcome))
      → ((a : A) → Refuses k (h (g a)))
      → Refuses k ((x >>= λ a. some (g a)) >>= h)
  Refuses-map none g h each = record {}
  Refuses-map (some a) g h each = each a

  start_process-Refuses :
      (f : Frame) (k' : Kernel) (pid inode arguments : ℕ)
      → Refuses k (start_process f k' pid inode arguments)
  unfolding start_process
  start_process-Refuses f k' pid inode arguments =
      Refuses-bind (strcpy _ _ _) _ (λ m. Refuses-bind (say f _ _ _) _ (λ spoken. record {}))

  create_process-Refuses :
      (f : Frame) (k' : Kernel) (inode arguments : ℕ) (found : Option ℕ)
      → SameState k k'
      → get_unused_process_id k'.processes ≡ found
      → Refuses k (create_process f k' inode arguments)
  unfolding create_process say
  create_process-Refuses f k' inode arguments none same none_free =
      rw (create_process, none_free)
        (Refuses-map
          (printf (memory_of k') k'.devices.console f.conv (f.messages pid_failed)
            (λ i. uint32 (pos 0)))
          (λ (x : Memory × Console × ℕ). record k' {
            devices = record k'.devices { memory = x.0; console = x.1 };
          })
          (λ (after : Kernel). some (after, returned fail)) (λ a. (refl, same)))
  create_process-Refuses f k' inode arguments (some pid) same free =
      rw (create_process, free) (start_process-Refuses f k' pid inode arguments)

  load_program-Refuses :
      (f : Frame) (k' : Kernel) (arguments : ℕ)
      → SameState k k'
      → Refuses k (load_program f k' arguments)
  unfolding load_program
  load_program-Refuses f k' arguments same =
      let inode = inode_num (memory_of k') f.dentry in
      let m = (read_data k'.fs (memory_of k') inode 0 f.elf_buffer 4).0 in
      let m' = (read_data k'.fs m inode 24 f.entry_buffer 4).0 in
      let with_entry = record (with_memory k' m') { entry_pt = load32 m' f.entry_buffer } in
      Refuses-if _ (some (with_memory k' m, returned fail))
        (create_process f with_entry inode arguments) (refl, same)
        (create_process-Refuses f with_entry inode arguments (get_unused_process_id k'.processes)
          same refl)

  find_program-Refuses :
      (f : Frame) (k' : Kernel) (command : ℕ)
      → SameState k k'
      → Refuses k (find_program f k' command)
  unfolding find_program
  find_program-Refuses f k' command same = Refuses-bind (strcpy _ _ _) _ (λ m.
      Refuses-bind (read_dentry_by_name _ _ _ _) _ (λ r.
        Refuses-if _ (some (with_memory k' r.0, returned fail))
          (load_program f (with_memory k' r.0) (
            command
            + argument_index m command (name_index (write_magic (memory_of k') f.magic) command)))
          (refl, same) (load_program-Refuses f (with_memory k' r.0) _ same)))

  -- Whatever the command and the memory: a call of `execute` that returns does so with -1, and has
  -- changed nothing but the memory, the console and the entry point: not the tables and blocks of
  -- processes, the page tables, the TSS, the terminals or a device. A call of `execute` never ends
  -- as one of `halt` does.
  pub execute-Refuses : (f : Frame) (command : ℕ) → Refuses k (execute f k command)
  unfolding execute
  execute-Refuses f command =
      let same : SameState k k = (refl, refl, refl, refl, refl, refl, refl, refl, refl, refl) in
      Refuses-if (command == null) _ _ (refl, same)
        (Refuses-bind (strlen (memory_of k) command) _ (λ len.
          Refuses-if (ltb (buffer_size - 1) len) _ _ (refl, same)
            (find_program-Refuses f k command same)))
