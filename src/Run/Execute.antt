-- ===== src/Run/Execute.antt =====
-- `execute` of student-distrib/systemCalls/systemCalls.c as a whole: from the command to the program.
use mathlib.Core.Path.{subst}
use linux_kernel_os.Prelude.{
  length, ℕ, ◌+◌, ◌≤◌, ◌<◌, ◌≡◌, refl, sym, ap, ◌∙◌, true, false, some, List, arith,
}
use linux_kernel_os.Memory.{Memory}
use linux_kernel_os.Memory.Write.{Apart}
use linux_kernel_os.Strings.Laws.{line}
use linux_kernel_os.Fs.{dentry_max, max_name, dentry_size, dentry_at, inode_num}
use linux_kernel_os.Fs.Lookup.{word, SameName}
use linux_kernel_os.Kernel.{Kernel, Frame, memory_of, with_memory}
use linux_kernel_os.Run.{
  entered, user_cs, user_ds, page_bottom, name_index, argument_index, create_process, load_program,
  execute,
}
use linux_kernel_os.Run.Buffer.{file_word}
use linux_kernel_os.Run.Command.{stripped, marked, asked, execute-found}
use linux_kernel_os.Run.Create.{Started, create_process-Started}
use linux_kernel_os.Run.Load.{
  entered_at, loaded_state, loaded-CanStart, loaded_outside, load_program-loaded,
}
use linux_kernel_os.Run.Lookup.{
  CanExecute, looked_up, looked_up_outside, looked_up-CanStart, looked_up-file_byte,
  looked_up-IsProgram, looked_up-inode_num, looked_up-magic,
}
use linux_kernel_os.Run.Start.{CanStart}

module _ (f : Frame) (k : Kernel) (command : ℕ) (whole : List ℕ) (names : ℕ → List ℕ)
    (pid arguments j : ℕ) (bs : List ℕ) (below : j < dentry_max)
    (can : CanExecute f k command whole names pid
      (inode_num (memory_of k) (dentry_at k.fs j))
      arguments
      bs) where
  abbrev inode : ℕ
  inode = inode_num (memory_of k) (dentry_at k.fs j)

  looked_up-file_word :
      file_word
        (with_memory k (looked_up f k command whole names pid arguments j bs below can))
        inode
        24
      ≡ file_word k inode 24
  looked_up-file_word =
      rw
        (
          looked_up-file_byte f k command whole names pid arguments j bs below can 24 (omega arith),
          looked_up-file_byte f k command whole names pid arguments j bs below can 25 (omega arith),
          looked_up-file_byte f k command whole names pid arguments j bs below can 26 (omega arith),
          looked_up-file_byte f k command whole names pid arguments j bs below can 27 (omega arith),
        )
        refl

  -- The state that the program is started in.
  abbrev ready_state : Kernel
  ready_state =
      record (with_memory k (
        entered_at f
          (with_memory k (looked_up f k command whole names pid arguments j bs below can)) inode)) {
            entry_pt = file_word k inode 24;
          }

  ready_state-loaded :
      loaded_state f
        (with_memory k (looked_up f k command whole names pid arguments j bs below can))
        inode
      ≡ ready_state
  ready_state-loaded =
      ap
        (λ (e : ℕ).
          record (with_memory k (
            entered_at f
              (with_memory k (looked_up f k command whole names pid arguments j bs below can))
              inode)) { entry_pt = e })
        looked_up-file_word

  -- In a memory of bytes with terminated names in all 63 directory entries, take a command, not
  -- null, of at most 127 characters in all, arguments included. Its name, without the leading
  -- spaces and up to the next space or newline, has 1 to 32 characters, and `j` is the first entry
  -- that has the length of the name (cut to 32) and agrees with it in all characters but the last.
  -- The file of that entry has at least 28 bytes and the magic number, and can be started as the
  -- process `pid` as for `create_process-Started` (it fits into the page, what stands behind the
  -- name is a string of at most 127 characters, the message can be printed, and the areas do not
  -- overlap); `pid` is the lowest process that is not active, and the blocks carry their own ids.
  -- The arrays of `execute` are not null and overlap neither the image, the command, the arguments,
  -- the message nor the array of the magic number. Then `execute` enters the program, at the
  -- address that the bytes 24 to 27 of its file hold, and leaves the new process that
  -- `create_process` is to leave for that file and those arguments, in a memory that is as before
  -- outside of the arrays.
  pub execute-Started :
      (n : ℕ)
      → n ≡ length (word (line (stripped whole)))
      → 0 < n
      → n ≤ max_name
      → SameName (names j) (line (stripped whole)) n
      → ((l : ℕ) → l < j → ¬ SameName (names l) (line (stripped whole)) n)
      → arguments
        ≡ command
          + argument_index
              (asked f k command whole names can.is_command)
              command
              (name_index (marked f k command whole names can.is_command) command)
      → ((p : ℕ) → (k.processes.pcbs p).process_id ≡ p)
      → k.processes.active pid ≡ false
      → ((l : ℕ) → l < pid → k.processes.active l ≡ true)
      → (m : Memory) × ((a : ℕ)
          → Apart f.magic 4 a 1
          → Apart f.filename 128 a 1
          → Apart f.dentry dentry_size a 1
          → Apart f.elf_buffer 4 a 1
          → Apart f.entry_buffer 4 a 1
          → m a ≡ memory_of k a)
        × (k' : Kernel) × (execute f k command
            ≡ some (k', entered (file_word k inode 24) page_bottom user_cs user_ds))
        × Started f
            (record (with_memory k m) { entry_pt = file_word k inode 24 })
            pid
            inode
            (length bs)
            k'
  execute-Started n len some_name short same before at own free lower =
      let k' = with_memory k (looked_up f k command whole names pid arguments j bs below can) in
      let found =
        execute-found f k command whole names can.is_command n j len some_name short below same
          before in
      let loaded =
        load_program-loaded f k' pid inode arguments bs
          (looked_up-CanStart f k command whole names pid arguments j bs below can)
          (looked_up-IsProgram f k command whole names pid arguments j bs below can)
          (looked_up-inode_num f k command whole names pid arguments j bs below can)
          (looked_up-magic f k command whole names pid arguments j bs below can) in
      let starts : CanStart f ready_state pid inode arguments bs =
        subst (λ (x : Kernel). CanStart f x pid inode arguments bs) ready_state-loaded
          (loaded-CanStart f k' pid inode arguments bs
            (looked_up-CanStart f k command whole names pid arguments j bs below can)
            (looked_up-IsProgram f k command whole names pid arguments j bs below can)) in
      let (after, run, started) =
        create_process-Started f ready_state pid inode arguments bs starts own free lower in
      (
        entered_at f k' inode,
        λ a magic filename dentry elf entry.
            loaded_outside f k' pid inode arguments bs
              (looked_up-CanStart f k command whole names pid arguments j bs below can)
              (looked_up-IsProgram f k command whole names pid arguments j bs below can) a elf entry
            ∙ looked_up_outside f k command whole names pid arguments j bs below can a magic
                filename dentry,
        after,
        found
            ∙ ap (load_program f k') (sym at)
            ∙ loaded
            ∙ ap (λ (x : Kernel). create_process f x inode arguments) ready_state-loaded
            ∙ run,
        started,
      )
