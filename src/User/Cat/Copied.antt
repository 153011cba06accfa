-- ===== src/User/Cat/Copied.antt =====
-- What syscalls/ece391cat.c shows of a file on the kernel.
use Prim.Native.String.{String}
use linux_kernel_os.User.Cat.{
  read-read_fd, read_fd-fs_read, with_chunk, IsReading, IsLaidOut, chunk_same, IsFile-here,
  read_chunk, after, after-IsReading,
}
use linux_kernel_os.Memory.{Memory}
use linux_kernel_os.Kernel.{Kernel, Frame, memory_of, current_pid, fd_of, with_fd}
use linux_kernel_os.Keyboard.{Devices}
use linux_kernel_os.Prelude.{
  ltb, ◌==◌, if◌then◌else◌, Bool-cases, ℕ, zero, suc, ◌+◌, ◌*◌, ◌%◌, ◌^◌, ◌≤◌, ◌<◌, ◌≡◌, refl, sym,
  ap, ◌∙◌, ◌≢◌, inl, inr, true, false, some, List, arith,
}
use linux_kernel_os.Prelude.Int.{ℤ, pos, is_fail, add32, int32}
use linux_kernel_os.Syscalls.{call_table, syscall_handler}
use linux_kernel_os.Memory.Write.{write_bytes}
use linux_kernel_os.Fs.{block_size, Fs, inode_length}
use linux_kernel_os.Fs.Image.{file_byte, file_bytes, inode_length-SameImage}
use linux_kernel_os.Fs.Read.{left}
use linux_kernel_os.Files.{read, write}
use linux_kernel_os.Terminal.{terminal_write}
use linux_kernel_os.User.{System, ece391_read, ece391_write, came_back, kernel_system}
use linux_kernel_os.Terminal.Write.{is_fail-terminal_write}
use linux_kernel_os.Files.Position.{fs_read-end}
use linux_kernel_os.User.Programs.{cat_loop}
use linux_kernel_os.User.Refused.{write_out, small_back}

-- The devices when the bytes of a file from position `p` on have been put at the buffer and written
-- to the terminal, 1024 at a time, in as many rounds.
unfoldable pub copied : ℕ → Fs → Memory → (i p buf : ℕ) → Devices → Devices
copied zero fs m i p buf d = d
copied (suc r) fs m i p buf d =
    let n = left fs m i 1024 p in
    let filled = record d { memory = write_bytes d.memory buf (file_bytes fs m i p n) } in
    let rest = copied r fs m i (p + n) buf (terminal_write filled buf (pos n)).0 in
    if ltb p (inode_length fs m i) then rest else d

module _ {S : Type 0} (sys : System S) (literal : String → ℕ) where
  cat_step :
      (r : ℕ) (s s1 s2 : S) (fd w : ℤ) (c buf : ℕ)
      → ece391_read sys s fd buf (pos 1024) ≡ some (s1, pos c)
      → c ≢ 0
      → ece391_write sys s1 (pos 1) buf (pos c) ≡ some (s2, w)
      → is_fail w ≡ false
      → cat_loop sys literal (suc r) s fd buf ≡ cat_loop sys literal r s2 fd buf
  unfolding cat_loop
  cat_step r s s1 s2 fd w c buf e more e' fine =
      let there : (c == 0) ≡ false = ground (arith, more) in rw (e, there, e', fine) refl

  cat_end :
      (r : ℕ) (s s1 : S) (fd : ℤ) (buf : ℕ)
      → ece391_read sys s fd buf (pos 1024) ≡ some (s1, pos 0)
      → cat_loop sys literal (suc r) s fd buf ≡ some (s1, pos 0)
  unfolding cat_loop
  cat_end r s s1 fd buf e = rw e refl

module _ (f g : Frame) (place : ℕ → ℕ) where
  read_call :
      (k k' : Kernel) (fd buf : ℕ) (v : ℤ)
      → fd < 8
      → read f k (pos fd) buf (pos 1024) ≡ some (k', v)
      → ece391_read (kernel_system f g place) k (pos fd) buf (pos 1024) ≡ some (k', v)
  unfolding ece391_read kernel_system syscall_handler call_table came_back
  read_call k k' fd buf v h e = rw (small_back fd h, e) refl

  write_call :
      (k k' : Kernel) (buf n : ℕ) (v : ℤ)
      → n < 2 ^ 31
      → write f k (pos 1) buf (pos n) ≡ some (k', v)
      → ece391_write (kernel_system f g place) k (pos 1) buf (pos n) ≡ some (k', v)
  unfolding ece391_write kernel_system syscall_handler call_table came_back
  write_call k k' buf n v h e =
      let same : int32 (n % 2 ^ 32) ≡ pos n = ground (arith, h) in rw (same, e) refl

module _ (fs : Fs) (m : Memory) (screen fd i buf : ℕ) (f g : Frame) (place : ℕ → ℕ)
    (literal : String → ℕ) (l : IsLaidOut fs m screen fd i buf)
    (plain : (q : ℕ) → q < inode_length fs m i → file_byte fs m i q ≢ 8) where
  -- A round of the loop inside the file.
  one_round :
      (r : ℕ) (k : Kernel) (p : ℕ) (q : IsReading f fs m screen fd i p k)
      → p < inode_length fs m i
      → cat_loop (kernel_system f g place) literal (suc r) k (pos fd) buf
        ≡ cat_loop
            (kernel_system f g place)
            literal
            r
            (after fs m screen fd i buf f l k p q)
            (pos fd)
            buf
  one_round r k p q inside =
      let c = left fs m i 1024 p in
      let k1 = with_chunk k fd buf 1024 in
      cat_step (kernel_system f g place) literal r k k1 _ (pos fd) _ c buf
        (read_call f g place k k1 fd buf (pos c) l.descriptor
          (read_chunk fs m screen fd i buf f l k p q inside))
        (λ e. absurd (omega arith))
        (write_call f g place k1 _ buf c _ (omega arith) (
          write_out f k1 buf c (after-IsReading fs m screen fd i buf f l k p q plain).output l.real
            (omega arith)))
        (is_fail-terminal_write k1.devices buf c l.real)

  -- The last round, at the end of the file.
  last_round :
      (r : ℕ) (k : Kernel) (p : ℕ)
      → IsReading f fs m screen fd i p k
      → p ≡ inode_length fs m i
      → p % block_size ≢ 0
      → (k' : Kernel) × (cat_loop (kernel_system f g place) literal (suc r) k (pos fd) buf
          ≡ some (k', pos 0))
        × (k'.devices ≡ k.devices)
  last_round r k p q ended part =
      let d = fd_of k (current_pid k) fd in
      let k' = with_fd k (current_pid k) fd (record d { file_pos = add32 d.file_pos 0 }) in
      let file = IsFile-here fs m screen fd i buf f l k p q in
      let over : d.file_pos ≡ inode_length k.fs (memory_of k) d.inode =
        rw (q.files, q.inode, q.position)
          (ended ∙ sym (inode_length-SameImage fs m (memory_of k) q.image i l.file.inode_in)) in
      let result =
        read-read_fd f k fd buf 1024 l.descriptor l.real (omega arith) q.used
        ∙ read_fd-fs_read f k d.operations fd buf 1024 q.operations
        ∙ ap some (
            fs_read-end f k fd buf 1024 q.process q.low q.high file over (rw q.position part)
              (omega arith) (omega arith) l.real) in
      (
        k',
        cat_end (kernel_system f g place) literal r k k' (pos fd) buf
            (read_call f g place k k' fd buf (pos 0) l.descriptor result),
        refl,
      )

  after-copied :
      (r : ℕ) (k : Kernel) (p : ℕ) (q : IsReading f fs m screen fd i p k)
      → p < inode_length fs m i
      → copied r fs m i (p + left fs m i 1024 p) buf (after fs m screen fd i buf f l k p q).devices
        ≡ copied (suc r) fs m i p buf k.devices
  unfolding copied
  after-copied r k p q inside =
      let c = left fs m i 1024 p in
      let more : ltb p (inode_length fs m i) ≡ true = ground (arith, inside) in
      ap
        (λ (bs : List ℕ).
          copied r fs m i (p + c) buf
            (terminal_write (record k.devices { memory = write_bytes (memory_of k) buf bs }) buf
              (pos c)).0)
        (chunk_same fs m screen fd i buf f l k p q)
      ∙ rw more refl

  copied_end : (r p : ℕ) (d : Devices) → inode_length fs m i ≤ p → copied r fs m i p buf d ≡ d
  unfolding copied
  copied_end zero p d h = refl
  copied_end (suc r) p d h =
      let done : ltb p (inode_length fs m i) ≡ false = ground (arith, h) in rw done refl

  at_end :
      (r r' : ℕ) (k : Kernel) (p : ℕ)
      → IsReading f fs m screen fd i p k
      → p % block_size ≢ 0
      → inode_length fs m i ≤ p
      → (k' : Kernel) × (cat_loop (kernel_system f g place) literal (suc r) k (pos fd) buf
          ≡ some (k', pos 0))
        × (k'.devices ≡ copied r' fs m i p buf k.devices)
  at_end r r' k p q part over =
      let (k', e, same) = last_round r k p q (omega (arith, q.within)) part in
      (k', e, same ∙ sym (copied_end r' p k.devices over))

  -- On the kernel, for a process whose descriptor `fd` is open on a file of the image at position `p`
  -- and whose descriptor 1 is the output, with the cursor on the screen, where the buffer, the screen
  -- and the image have no byte in common, the file has no backspace, and its last block is not full:
  -- the loop of `cat` comes to its end with the result 0, in one round more than the rest of the file
  -- has chunks of 1024 bytes, and leaves the devices as after the bytes of that rest, as they stood at
  -- the start, have been written to the terminal.
  pub cat_loop-copied :
      (r : ℕ) (k : Kernel) (p : ℕ)
      → IsReading f fs m screen fd i p k
      → inode_length fs m i % block_size ≢ 0
      → inode_length fs m i ≤ p + 1024 * r
      → (k' : Kernel) × (cat_loop (kernel_system f g place) literal (suc r) k (pos fd) buf
          ≡ some (k', pos 0))
        × (k'.devices ≡ copied r fs m i p buf k.devices)
  cat_loop-copied zero k p q part enough =
      let ended : p ≡ inode_length fs m i = omega (arith, q.within) in
      at_end 0 0 k p q (rw ended part) (omega arith)
  cat_loop-copied (suc r) k p q part enough = elim (Bool-cases (ltb p (inode_length fs m i))) [
    | inl more ↦
        let inside : p < inode_length fs m i = ground (arith, more) in
        let next = after fs m screen fd i buf f l k p q in
        let (k', e, same) =
          cat_loop-copied r next (p + left fs m i 1024 p)
            (after-IsReading fs m screen fd i buf f l k p q plain) part (omega arith) in
        (k', one_round (suc r) k p q inside ∙ e, same ∙ after-copied r k p q inside)
    | inr done ↦
        let ended : p ≡ inode_length fs m i = ground (arith, done, q.within) in
        at_end (suc r) (suc r) k p q (rw ended part) (omega arith)
  ]
