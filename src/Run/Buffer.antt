-- ===== src/Run/Buffer.antt =====
-- What `execute` reads of a program's file of student-distrib/systemCalls/systemCalls.c.
use linux_kernel_os.Prelude.{length, ℕ, ◌+◌, ◌-◌, ◌≤◌, ◌<◌, ◌≡◌, ap, ◌∙◌, ◌≢◌, List, [], ◌∷◌, arith}
use linux_kernel_os.Prelude.Int.{ℤ}
use linux_kernel_os.Memory.{Memory, null, load32}
use linux_kernel_os.Memory.Write.{Apart, write_bytes, write_bytes_outside, write_bytes_inside}
use linux_kernel_os.Fs.{inode_length, read_data}
use linux_kernel_os.Fs.Image.{
  image_end, SameImage, file_byte, file_bytes, length-file_bytes, inode_length-SameImage,
}
use linux_kernel_os.Fs.Read.{left, read_data-file_bytes, IsFile-SameImage}
use linux_kernel_os.Print.Shown.{IsString-same}
use linux_kernel_os.Kernel.{Kernel, Frame, running, memory_of, with_memory}
use linux_kernel_os.Run.Speak.{running_text}
use linux_kernel_os.Run.Start.{CanStart, file_bytes_at}

-- A memory that has what a new program needs as before: the image, the arguments and the message.
pub record KeepsStart (f : Frame) (k : Kernel) (arguments : ℕ) (bs : List ℕ) (m : Memory)
    : Type 0 where
  pub image : SameImage k.fs (memory_of k) m
  pub arguments_same : (a : ℕ) → arguments ≤ a → a ≤ arguments + length bs → m a ≡ memory_of k a
  pub message_same :
      (a : ℕ)
      → f.messages running ≤ a
      → a ≤ f.messages running + length running_text
      → m a ≡ memory_of k a

pub CanStart-KeepsStart :
    (f : Frame) (k : Kernel) (pid inode arguments entry : ℕ) (bs : List ℕ) (m : Memory)
    → CanStart f k pid inode arguments bs
    → KeepsStart f k arguments bs m
    → CanStart f (record (with_memory k m) { entry_pt = entry }) pid inode arguments bs
CanStart-KeepsStart f k pid inode arguments entry bs m can same =
    let len = inode_length-SameImage k.fs (memory_of k) m same.image inode can.file.inode_in in
    record {
      pid_in = can.pid_in;
      file = IsFile-SameImage k.fs (memory_of k) m inode can.file same.image;
      full = rw len can.full;
      fits = rw len can.fits;
      image_low = can.image_low;
      is_arguments =
          IsString-same (memory_of k) m arguments bs same.arguments_same can.is_arguments;
      short = can.short;
      arguments_out = can.arguments_out;
      ready = can.ready;
      screen_low = can.screen_low;
      buffer_low = can.buffer_low;
      on_start = record {
        is =
            IsString-same (memory_of k) m (f.messages running) running_text same.message_same
              can.on_start.is;
        out = can.on_start.out;
      };
      message_low = can.message_low;
      message_out = can.message_out;
    }

-- The magic number of an executable.
abbrev pub elf_magic : List ℕ
elf_magic = 0x7f ∷ 0x45 ∷ 0x4c ∷ 0x46 ∷ []

abbrev pub IsBytesAt : Memory → ℕ → List ℕ → Type 0
IsBytesAt m p [] = Unit
IsBytesAt m p (b ∷ bs) = (m p ≡ b) × IsBytesAt m (p + 1) bs

-- The word that the file of an inode has at the position `p`.
abbrev pub file_word : Kernel → ℕ → ℕ → ℕ
file_word k inode p = load32 (file_byte k.fs (memory_of k) inode) p

-- A buffer of four bytes in `execute` that overlaps neither the image, the arguments nor the message.
pub record IsBuffer (f : Frame) (k : Kernel) (arguments : ℕ) (bs : List ℕ) (buffer : ℕ)
    : Type 0 where
  pub given : buffer ≢ null
  pub image_out : Apart buffer 4 k.fs.boot_block_ptr (image_end k.fs - k.fs.boot_block_ptr)
  pub arguments_out : Apart buffer 4 arguments (length bs + 1)
  pub message_out : Apart buffer 4 (f.messages running) (length running_text + 1)

-- Four bytes of the file, read into a buffer.
abbrev pub four : Kernel → ℕ → ℕ → ℕ → Memory
four k inode buffer p = write_bytes (memory_of k) buffer (file_bytes k.fs (memory_of k) inode p 4)

module _ (f : Frame) (k : Kernel) (pid inode arguments : ℕ) (bs : List ℕ)
    (can : CanStart f k pid inode arguments bs) (buffer : ℕ)
    (is : IsBuffer f k arguments bs buffer) where
  pub read-four :
      (p : ℕ)
      → p + 4 ≤ inode_length k.fs (memory_of k) inode
      → (read_data k.fs (memory_of k) inode p buffer 4).0 ≡ four k inode buffer p
  read-four p inside =
      let m = memory_of k in
      let count : left k.fs m inode 4 p ≡ 4 = omega arith in
      ap (λ (r : Memory × ℤ). r.0)
        (read_data-file_bytes k.fs m inode p buffer 4 can.file (omega arith) (omega arith)
          (omega arith) is.given is.image_out)
      ∙ ap (λ (n : ℕ). write_bytes m buffer (file_bytes k.fs m inode p n)) count

  pub four_outside : (p a : ℕ) → Apart buffer 4 a 1 → four k inode buffer p a ≡ memory_of k a
  four_outside p a out =
      let count = length-file_bytes k.fs (memory_of k) inode p 4 in
      write_bytes_outside (memory_of k) buffer a (file_bytes k.fs (memory_of k) inode p 4)
        (rw count out)

  pub four_inside :
      (p i : ℕ)
      → i < 4
      → four k inode buffer p (buffer + i) ≡ file_byte k.fs (memory_of k) inode (p + i)
  four_inside p i h =
      let m = memory_of k in
      let count = length-file_bytes k.fs m inode p 4 in
      write_bytes_inside m buffer i (file_bytes k.fs m inode p 4) (rw count h)
      ∙ file_bytes_at k.fs m inode p 4 i h

  pub four-KeepsStart : (p : ℕ) → KeepsStart f k arguments bs (four k inode buffer p)
  four-KeepsStart p = record {
    image = λ a lo hi. four_outside p a (ground (arith, is.image_out));
    arguments_same = λ a lo hi. four_outside p a (ground (arith, is.arguments_out));
    message_same = λ a lo hi. four_outside p a (ground (arith, is.message_out));
  }
