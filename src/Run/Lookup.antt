-- ===== src/Run/Lookup.antt =====
-- The directory entry that `execute` of student-distrib/systemCalls/systemCalls.c finds, and what is as
-- before once it is copied.
use linux_kernel_os.Prelude.{length, ℕ, ◌+◌, ◌-◌, ◌≤◌, ◌<◌, ◌≡◌, ap, ◌∙◌, List, [], ◌∷◌, arith}
use linux_kernel_os.Memory.{Memory}
use linux_kernel_os.Memory.Copy.{memcpy-write, memcpy_byte, bytes_at, length-bytes_at}
use linux_kernel_os.Memory.Write.{Apart, write_bytes_outside}
use linux_kernel_os.Fs.{dentry_max, dentry_size, Fs, dentry_at, inode_num}
use linux_kernel_os.Fs.Dentry.{copy_dentry}
use linux_kernel_os.Fs.Image.{
  image_end, SameImage, file_byte, load32-SameImage, inode_length-SameImage,
}
use linux_kernel_os.Fs.Read.{file_byte-SameImage}
use linux_kernel_os.Kernel.{Kernel, Frame, running, memory_of, with_memory}
use linux_kernel_os.Run.{write_magic}
use linux_kernel_os.Run.Buffer.{KeepsStart, CanStart-KeepsStart, elf_magic, IsBytesAt}
use linux_kernel_os.Run.Command.{IsCommand, asked, asked-marked, asked_outside}
use linux_kernel_os.Run.Load.{IsProgram}
use linux_kernel_os.Run.Speak.{running_text}
use linux_kernel_os.Run.Start.{CanStart}

-- A copied directory entry: its bytes, and the memory beside it.
copy_dentry_outside :
    (fs : Fs) (m : Memory) (d j a : ℕ)
    → Apart d dentry_size (dentry_at fs j) dentry_size
    → Apart d dentry_size a 1
    → copy_dentry fs m d j a ≡ m a
unfolding copy_dentry
copy_dentry_outside fs m d j a out away =
    let count = length-bytes_at m (dentry_at fs j) dentry_size in
    let written =
      write_bytes_outside m d a (bytes_at m (dentry_at fs j) dentry_size) (rw count away) in
    let copied = ap (λ (m' : Memory). m' a) (memcpy-write m d (dentry_at fs j) dentry_size out) in
    ground (arith, copied, written)

copy_dentry_byte :
    (fs : Fs) (m : Memory) (d j i : ℕ)
    → Apart d dentry_size (dentry_at fs j) dentry_size
    → i < dentry_size
    → copy_dentry fs m d j (d + i) ≡ m (dentry_at fs j + i)
unfolding copy_dentry
copy_dentry_byte fs m d j i out h =
    let copied = memcpy_byte m d (dentry_at fs j) dentry_size i out h in ground (arith, copied)

copy_dentry-inode_num :
    (fs : Fs) (m : Memory) (d j : ℕ)
    → Apart d dentry_size (dentry_at fs j) dentry_size
    → inode_num (copy_dentry fs m d j) d ≡ inode_num m (dentry_at fs j)
copy_dentry-inode_num fs m d j out =
    let b0 = copy_dentry_byte fs m d j 36 out (omega arith) in
    let b1 = copy_dentry_byte fs m d j 37 out (omega arith) in
    let b2 = copy_dentry_byte fs m d j 38 out (omega arith) in
    let b3 = copy_dentry_byte fs m d j 39 out (omega arith) in ground (arith, b0, b1, b2, b3)

write_magic-IsBytesAt : (m : Memory) (p : ℕ) → IsBytesAt (write_magic m p) p elf_magic
unfolding write_magic
write_magic-IsBytesAt m p = ground arith

IsBytesAt-outside :
    (m m' : Memory) (p : ℕ) (bs : List ℕ)
    → ((a : ℕ) → p ≤ a → a < p + length bs → m' a ≡ m a)
    → IsBytesAt m p bs
    → IsBytesAt m' p bs
IsBytesAt-outside m m' p [] same is = record {}
IsBytesAt-outside m m' p (b ∷ bs) same is = (
  same p (omega arith) (omega arith) ∙ is.0,
  IsBytesAt-outside m m' (p + 1) bs (λ a lo hi. same a (omega arith) (omega arith)) is.1,
)

-- The `n` bytes from `b` on overlap neither the image, the arguments nor the message.
pub record IsSeparate (f : Frame) (k : Kernel) (arguments : ℕ) (bs : List ℕ) (b n : ℕ)
    : Type 0 where
  pub image_out : Apart b n k.fs.boot_block_ptr (image_end k.fs - k.fs.boot_block_ptr)
  pub arguments_out : Apart b n arguments (length bs + 1)
  pub message_out : Apart b n (f.messages running) (length running_text + 1)

-- A command, and the file of a program, that `execute` can start as the process `pid`: its arrays
-- overlap neither what it reads nor the array of the magic number.
pub record CanExecute (f : Frame) (k : Kernel) (command : ℕ) (whole : List ℕ) (names : ℕ → List ℕ)
    (pid inode arguments : ℕ) (bs : List ℕ) : Type 0 where
  pub is_command : IsCommand f k command whole names
  pub can_start : CanStart f k pid inode arguments bs
  pub is_program : IsProgram f k inode arguments bs
  pub magic_apart : IsSeparate f k arguments bs f.magic 4
  pub filename_apart : IsSeparate f k arguments bs f.filename 128
  pub dentry_apart : IsSeparate f k arguments bs f.dentry dentry_size
  pub filename_magic : Apart f.filename 128 f.magic 4
  pub dentry_magic : Apart f.dentry dentry_size f.magic 4

module _ (f : Frame) (k : Kernel) (command : ℕ) (whole : List ℕ) (names : ℕ → List ℕ)
    (pid arguments j : ℕ) (bs : List ℕ) (below : j < dentry_max)
    (can : CanExecute f k command whole names pid
      (inode_num (memory_of k) (dentry_at k.fs j))
      arguments
      bs) where
  abbrev pub inode : ℕ
  inode = inode_num (memory_of k) (dentry_at k.fs j)

  inside : dentry_at k.fs j + dentry_size ≤ image_end k.fs
  inside = omega (arith, below)

  -- The state with the directory entry.
  abbrev pub looked_up : Memory
  looked_up = copy_dentry k.fs (asked f k command whole names can.is_command) f.dentry j

  dentry_out : Apart f.dentry dentry_size (dentry_at k.fs j) dentry_size
  dentry_out = ground (arith, can.dentry_apart.image_out, inside)

  pub looked_up_outside :
      (a : ℕ)
      → Apart f.magic 4 a 1
      → Apart f.filename 128 a 1
      → Apart f.dentry dentry_size a 1
      → looked_up a ≡ memory_of k a
  looked_up_outside a magic filename dentry =
      copy_dentry_outside k.fs (asked f k command whole names can.is_command) f.dentry j a
        dentry_out dentry
      ∙ asked_outside f k command whole names can.is_command a magic filename

  looked_up-KeepsStart : KeepsStart f k arguments bs looked_up
  looked_up-KeepsStart =
      let m = can.magic_apart in
      let n = can.filename_apart in
      let d = can.dentry_apart in
      record {
        image = λ a lo hi.
            looked_up_outside a (ground (arith, m.image_out)) (ground (arith, n.image_out))
              (ground (arith, d.image_out));
        arguments_same = λ a lo hi.
            looked_up_outside a (ground (arith, m.arguments_out)) (ground (arith, n.arguments_out))
              (ground (arith, d.arguments_out));
        message_same = λ a lo hi.
            looked_up_outside a (ground (arith, m.message_out)) (ground (arith, n.message_out))
              (ground (arith, d.message_out));
      }

  pub looked_up-CanStart : CanStart f (with_memory k looked_up) pid inode arguments bs
  looked_up-CanStart =
      CanStart-KeepsStart f k pid inode arguments k.entry_pt bs looked_up can.can_start
        looked_up-KeepsStart

  pub looked_up-file_byte :
      (p : ℕ) → p < 28 → file_byte k.fs looked_up inode p ≡ file_byte k.fs (memory_of k) inode p
  looked_up-file_byte p h =
      let long = can.is_program.long in
      file_byte-SameImage k.fs (memory_of k) looked_up inode p can.can_start.file
        looked_up-KeepsStart.image (omega arith)

  pub looked_up-IsProgram : IsProgram f (with_memory k looked_up) inode arguments bs
  looked_up-IsProgram =
      let p = can.is_program in
      let len =
        inode_length-SameImage k.fs (memory_of k) looked_up looked_up-KeepsStart.image inode
          can.can_start.file.inode_in in
      record {
        long = rw len p.long;
        starts =
            IsBytesAt-outside (file_byte k.fs (memory_of k) inode) (file_byte k.fs looked_up inode)
              0 elf_magic (λ a lo hi. looked_up-file_byte a (omega arith)) p.starts;
        elf = record {
          given = p.elf.given;
          image_out = p.elf.image_out;
          arguments_out = p.elf.arguments_out;
          message_out = p.elf.message_out;
        };
        entry = record {
          given = p.entry.given;
          image_out = p.entry.image_out;
          arguments_out = p.entry.arguments_out;
          message_out = p.entry.message_out;
        };
        magic_out = p.magic_out;
      }

  pub looked_up-inode_num : inode_num looked_up f.dentry ≡ inode
  looked_up-inode_num =
      let out = inside in
      let image = asked-SameImage in
      copy_dentry-inode_num k.fs (asked f k command whole names can.is_command) f.dentry j
        dentry_out
      ∙ load32-SameImage k.fs (memory_of k) (asked f k command whole names can.is_command) image
          (dentry_at k.fs j + 36) (omega arith) (omega arith)
    where
      asked-SameImage : SameImage k.fs (memory_of k) (asked f k command whole names can.is_command)
      asked-SameImage a lo hi =
          asked_outside f k command whole names can.is_command a
            (ground (arith, can.magic_apart.image_out))
            (ground (arith, can.filename_apart.image_out))

  pub looked_up-magic : IsBytesAt looked_up f.magic elf_magic
  looked_up-magic =
      IsBytesAt-outside (write_magic (memory_of k) f.magic) looked_up f.magic elf_magic
        (λ a lo hi.
          copy_dentry_outside k.fs (asked f k command whole names can.is_command) f.dentry j a
            dentry_out (ground (arith, can.dentry_magic))
          ∙ asked-marked f k command whole names can.is_command a
              (ground (arith, can.filename_magic)))
        (write_magic-IsBytesAt (memory_of k) f.magic)
