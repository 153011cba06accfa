-- ===== src/Run/Load.antt =====
-- The tests of a program's file in `execute` of student-distrib/systemCalls/systemCalls.c.
use linux_kernel_os.Prelude.{
  length, get_or, ℕ, zero, suc, ◌+◌, ◌≤◌, ◌<◌, ◌≡◌, refl, sym, ap, ◌∙◌, List, [], ◌∷◌, arith,
}
use linux_kernel_os.Prelude.Int.{pos}
use linux_kernel_os.Memory.{Memory, load32}
use linux_kernel_os.Memory.Write.{Apart}
use linux_kernel_os.Strings.{strncmp}
use linux_kernel_os.Strings.Compare.{strncmp-same}
use linux_kernel_os.Fs.{inode_length, inode_num}
use linux_kernel_os.Fs.Image.{file_byte, inode_length-SameImage}
use linux_kernel_os.Fs.Read.{file_bytes-SameImage}
use linux_kernel_os.Kernel.{Kernel, Frame, memory_of, with_memory}
use linux_kernel_os.Run.{create_process, load_program}
use linux_kernel_os.Run.Start.{CanStart, file_bytes_at}
use linux_kernel_os.Run.Buffer.{
  KeepsStart, CanStart-KeepsStart, elf_magic, IsBytesAt, file_word, IsBuffer, four, read-four,
  four_outside, four_inside, four-KeepsStart,
}

-- A byte of a run that is known.
IsBytesAt-same :
    (m m' : Memory) (p q i : ℕ) (bs : List ℕ)
    → IsBytesAt m p bs
    → IsBytesAt m' q bs
    → i < length bs
    → m (p + i) ≡ m' (q + i)
IsBytesAt-same m m' p q i [] is is' h = absurd (omega arith)
IsBytesAt-same m m' p q zero (b ∷ bs) is is' h =
    let here : p + 0 ≡ p = omega arith in
    let there : q + 0 ≡ q = omega arith in rw (here, there) (is.0 ∙ sym is'.0)
IsBytesAt-same m m' p q (suc i) (b ∷ bs) is is' h =
    let here : p + suc i ≡ p + 1 + i = omega arith in
    let there : q + suc i ≡ q + 1 + i = omega arith in
    rw (here, there) (IsBytesAt-same m m' (p + 1) (q + 1) i bs is.1 is'.1 (omega arith))

module _ (f : Frame) (k : Kernel) (inode : ℕ) where
  -- The memory with the magic number of the file, and with its entry point.
  abbrev pub tested : Memory
  tested = four k inode f.elf_buffer 0

  abbrev pub entered_at : Memory
  entered_at = four (with_memory k tested) inode f.entry_buffer 24

  -- What the program is started in.
  abbrev pub loaded_state : Kernel
  loaded_state = record (with_memory k entered_at) { entry_pt = file_word k inode 24 }

-- What `load_program` needs of the file and of its buffers.
pub record IsProgram (f : Frame) (k : Kernel) (inode arguments : ℕ) (bs : List ℕ) : Type 0 where
  pub long : 28 ≤ inode_length k.fs (memory_of k) inode
  pub starts : IsBytesAt (file_byte k.fs (memory_of k) inode) 0 elf_magic
  pub elf : IsBuffer f k arguments bs f.elf_buffer
  pub entry : IsBuffer f k arguments bs f.entry_buffer
  pub magic_out : Apart f.elf_buffer 4 f.magic 4

module _ (f : Frame) (k : Kernel) (pid inode arguments : ℕ) (bs : List ℕ)
    (can : CanStart f k pid inode arguments bs) (is : IsProgram f k inode arguments bs) where
  tested-magic :
      IsBytesAt (memory_of k) f.magic elf_magic
      → strncmp (tested f k inode) f.magic f.elf_buffer 4 ≡ pos 0
  tested-magic magic = strncmp-same (tested f k inode) f.magic f.elf_buffer 4 (λ j h.
      four_outside f k pid inode arguments bs can f.elf_buffer is.elf 0 (f.magic + j)
        (ground (arith, is.magic_out))
      ∙ IsBytesAt-same (memory_of k) (file_byte k.fs (memory_of k) inode) f.magic 0 j elf_magic
          magic is.starts h
      ∙ sym (four_inside f k pid inode arguments bs can f.elf_buffer is.elf 0 j h))

  tested-KeepsStart : KeepsStart f k arguments bs (tested f k inode)
  tested-KeepsStart = four-KeepsStart f k pid inode arguments bs can f.elf_buffer is.elf 0

  tested-CanStart : CanStart f (with_memory k (tested f k inode)) pid inode arguments bs
  tested-CanStart =
      CanStart-KeepsStart f k pid inode arguments k.entry_pt bs (tested f k inode) can
        tested-KeepsStart

  entry-IsBuffer : IsBuffer f (with_memory k (tested f k inode)) arguments bs f.entry_buffer
  entry-IsBuffer = record {
    given = is.entry.given;
    image_out = is.entry.image_out;
    arguments_out = is.entry.arguments_out;
    message_out = is.entry.message_out;
  }

  entry_byte :
      (i : ℕ)
      → i < 4
      → (entered_at f k inode) (f.entry_buffer + i) ≡ file_byte k.fs (memory_of k) inode (24 + i)
  entry_byte i h =
      let m = memory_of k in
      let long = is.long in
      let len =
        inode_length-SameImage k.fs m (tested f k inode) tested-KeepsStart.image inode
          can.file.inode_in in
      let bytes =
        file_bytes-SameImage k.fs m (tested f k inode) inode 24 4 can.file tested-KeepsStart.image
          (omega arith) in
      four_inside f (with_memory k (tested f k inode)) pid inode arguments bs tested-CanStart
        f.entry_buffer entry-IsBuffer 24 i h
      ∙ sym (file_bytes_at k.fs (tested f k inode) inode 24 4 i h)
      ∙ ap (λ (l : List ℕ). get_or l i 0) bytes
      ∙ file_bytes_at k.fs m inode 24 4 i h

  entry_word : load32 (entered_at f k inode) f.entry_buffer ≡ file_word k inode 24
  entry_word =
      let b0 = entry_byte 0 (omega arith) in
      let b1 = entry_byte 1 (omega arith) in
      let b2 = entry_byte 2 (omega arith) in
      let b3 = entry_byte 3 (omega arith) in
      let start : f.entry_buffer + 0 ≡ f.entry_buffer = omega arith in
      let first = rw start at b0 in rw (first, b1, b2, b3) refl

  pub loaded-CanStart : CanStart f (loaded_state f k inode) pid inode arguments bs
  loaded-CanStart =
      let more =
        four-KeepsStart f (with_memory k (tested f k inode)) pid inode arguments bs tested-CanStart
          f.entry_buffer entry-IsBuffer 24 in
      CanStart-KeepsStart f (with_memory k (tested f k inode)) pid inode arguments
        (file_word k inode 24) bs (entered_at f k inode) tested-CanStart more

  pub loaded_outside :
      (a : ℕ)
      → Apart f.elf_buffer 4 a 1
      → Apart f.entry_buffer 4 a 1
      → memory_of (loaded_state f k inode) a ≡ memory_of k a
  loaded_outside a out out' =
      four_outside f (with_memory k (tested f k inode)) pid inode arguments bs tested-CanStart
        f.entry_buffer entry-IsBuffer 24 a out'
      ∙ four_outside f k pid inode arguments bs can f.elf_buffer is.elf 0 a out

  -- A file with the magic number goes on to the search of a process id.
  pub load_program-loaded :
      inode_num (memory_of k) f.dentry ≡ inode
      → IsBytesAt (memory_of k) f.magic elf_magic
      → load_program f k arguments ≡ create_process f (loaded_state f k inode) inode arguments
  unfolding load_program
  load_program-loaded entry magic =
      let long = is.long in
      let first = read-four f k pid inode arguments bs can f.elf_buffer is.elf 0 (omega arith) in
      let len =
        inode_length-SameImage k.fs (memory_of k) (tested f k inode) tested-KeepsStart.image inode
          can.file.inode_in in
      let second =
        read-four f (with_memory k (tested f k inode)) pid inode arguments bs tested-CanStart
          f.entry_buffer entry-IsBuffer 24 (omega arith) in
      rw (entry, first, second, entry_word, tested-magic magic) refl
