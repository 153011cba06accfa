-- ===== src/User/Cat.antt =====
-- syscalls/ece391cat.c on the kernel: the loop that copies a file to the terminal.
use linux_kernel_os.Prelude.Int.{pos}
use linux_kernel_os.Memory.{Memory, null}
use linux_kernel_os.Terminal.Write.{Calm, terminal_write-Calm}
use linux_kernel_os.Prelude.{
  ltb, ◌==◌, get_or, ℕ, zero, suc, ◌+◌, ◌-◌, ◌≤◌, ◌<◌, min, ◌≡◌, refl, sym, ap, ◌∙◌, ◌≢◌, true,
  false, Option, some, List, arith,
}
use linux_kernel_os.Memory.Write.{Apart, write_bytes, write_bytes_outside, write_bytes_inside}
use linux_kernel_os.Fs.Image.{
  image_end, SameImage, IsFile, file_byte, file_bytes, length-file_bytes, inode_length-SameImage,
}
use linux_kernel_os.Fs.Read.{left, file_bytes-SameImage, IsFile-SameImage}
use linux_kernel_os.Fs.{Fs, inode_length}
use linux_kernel_os.Files.Position.{fs_read-file_bytes}
use linux_kernel_os.Files.{fs_read, read_fd, refuses, read}
use linux_kernel_os.Console.Cursor.{OnScreen}
use linux_kernel_os.Console.Bounds.{screen_bytes}
use linux_kernel_os.Process.{max_pcb, pcb_8kb, Ops, file_ops, FileDesc, Pcb, update, get_pcb_by_id}
use linux_kernel_os.Kernel.{
  Kernel, Frame, memory_of, with_memory, pcb_of, current_pid, fd_of, with_fd,
}
use linux_kernel_os.User.Refused.{HasOutput, shown}
pub mod Copied

-- A call of `read` on the descriptor of a file goes to `fs_read`.
pub read-read_fd :
    (f : Frame) (k : Kernel) (fd buf n : ℕ)
    → let d = fd_of k (current_pid k) fd in
      fd < 8
      → buf ≢ 0
      → 0 < n
      → d.in_use ≡ true
      → read f k (pos fd) buf (pos n) ≡ read_fd f k d.operations fd buf (pos n)
unfolding read refuses
read-read_fd f k fd buf n small real some_bytes used =
    let valid : ltb 7 fd ≡ false = ground (arith, small) in
    let there : (buf == null) ≡ false = ground (arith, real) in
    let more : ltb 0 n ≡ true = ground (arith, some_bytes) in rw (valid, there, more, used) refl

pub read_fd-fs_read :
    (f : Frame) (k : Kernel) (o : Option Ops) (fd buf n : ℕ)
    → o ≡ some file_ops
    → read_fd f k o fd buf (pos n) ≡ some (fs_read f k fd buf (pos n))
unfolding read_fd
read_fd-fs_read f k o fd buf n ops = rw ops refl

-- The kernel when a chunk has been read through the descriptor, and when it has been shown.
abbrev pub chunk_of : Kernel → ℕ → ℕ → List ℕ
chunk_of k fd n =
    let d = fd_of k (current_pid k) fd in
    file_bytes k.fs (memory_of k) d.inode d.file_pos (left k.fs (memory_of k) d.inode n d.file_pos)

abbrev pub with_chunk : Kernel → ℕ → ℕ → ℕ → Kernel
with_chunk k fd buf n =
    let d = fd_of k (current_pid k) fd in
    with_fd (with_memory k (write_bytes (memory_of k) buf (chunk_of k fd n))) (current_pid k) fd
      (record d { file_pos = d.file_pos + left k.fs (memory_of k) d.inode n d.file_pos })

update_here {ℓ} : {A : Type ℓ} (f : ℕ → A) (i : ℕ) (v : A) → update f i v i ≡ v
update_here f i v = ground arith

update_other {ℓ} : {A : Type ℓ} (f : ℕ → A) (i j : ℕ) (v : A) → i ≢ j → update f i v j ≡ f j
update_other f i j v apart = ground (arith, apart)

pub same_fd : (k : Kernel) (pid fd : ℕ) (d : FileDesc) → fd_of (with_fd k pid fd d) pid fd ≡ d
same_fd k pid fd d =
    ap (λ (b : Pcb). b.fds fd) (update_here k.processes.pcbs pid _)
    ∙ update_here (pcb_of k pid).fds fd d

pub other_fd :
    (k : Kernel) (pid fd x : ℕ) (d : FileDesc)
    → fd ≢ x
    → fd_of (with_fd k pid fd d) pid x ≡ fd_of k pid x
other_fd k pid fd x d apart =
    ap (λ (b : Pcb). b.fds x) (update_here k.processes.pcbs pid _)
    ∙ update_other (pcb_of k pid).fds fd x d apart

byte_at :
    (fs : Fs) (m : Memory) (i p n j : ℕ)
    → j < n
    → get_or (file_bytes fs m i p n) j 0 ≡ file_byte fs m i (p + j)
unfolding file_bytes
byte_at fs m i p zero j h = absurd (omega arith)
byte_at fs m i p (suc n) zero h = ap (λ (q : ℕ). file_byte fs m i q) (omega arith)
byte_at fs m i p (suc n) (suc j) h =
    byte_at fs m i (p + 1) n j (omega arith) ∙ ap (λ (q : ℕ). file_byte fs m i q) (omega arith)

-- A file of the image in `m`, from position `p` on: the descriptor `fd` of the current process, on
-- whose stack the call is, is open on it, descriptor 1 is the output, and the cursor is on the screen
-- at `screen`.
pub record IsReading (f : Frame) (fs : Fs) (m : Memory) (screen fd i p : ℕ) (k : Kernel)
    : Type 0 where
  pub process : current_pid k < max_pcb
  pub low : get_pcb_by_id (current_pid k) ≤ f.esp
  pub high : f.esp < get_pcb_by_id (current_pid k) + pcb_8kb
  pub files : k.fs ≡ fs
  pub used : (fd_of k (current_pid k) fd).in_use ≡ true
  pub operations : (fd_of k (current_pid k) fd).operations ≡ some file_ops
  pub inode : (fd_of k (current_pid k) fd).inode ≡ i
  pub position : (fd_of k (current_pid k) fd).file_pos ≡ p
  pub within : p ≤ inode_length fs m i
  pub output : HasOutput k
  pub image : SameImage fs m (memory_of k)
  pub on : OnScreen k.devices.console
  pub place : k.devices.console.video_mem ≡ screen

-- Where things lie: the buffer, the screen and the image have no byte in common.
pub record IsLaidOut (fs : Fs) (m : Memory) (screen fd i buf : ℕ) : Type 0 where
  pub descriptor : fd < 8
  pub opened : 2 ≤ fd
  pub file : IsFile fs m i
  pub real : buf ≢ 0
  pub buffer_image : Apart buf 1024 fs.boot_block_ptr (image_end fs - fs.boot_block_ptr)
  pub screen_image : Apart screen screen_bytes fs.boot_block_ptr (image_end fs - fs.boot_block_ptr)
  pub screen_buffer : Apart screen screen_bytes buf 1024

module _ (fs : Fs) (m : Memory) (screen fd i buf : ℕ) (f : Frame)
    (l : IsLaidOut fs m screen fd i buf) (k : Kernel) (p : ℕ)
    (r : IsReading f fs m screen fd i p k) where
  pub left_same :
      left k.fs
        (memory_of k)
        (fd_of k (current_pid k) fd).inode
        1024
        (fd_of k (current_pid k) fd).file_pos
      ≡ left fs m i 1024 p
  left_same =
      rw (r.files, r.inode, r.position)
        (ap (λ (n : ℕ). min 1024 (n - p))
          (inode_length-SameImage fs m (memory_of k) r.image i l.file.inode_in))

  pub chunk_same : chunk_of k fd 1024 ≡ file_bytes fs m i p (left fs m i 1024 p)
  chunk_same =
      ap
        (λ (n : ℕ).
          file_bytes k.fs (memory_of k) (fd_of k (current_pid k) fd).inode
            (fd_of k (current_pid k) fd).file_pos n)
        left_same
      ∙ rw (r.files, r.inode, r.position)
          (file_bytes-SameImage fs m (memory_of k) i p (left fs m i 1024 p) l.file r.image
            (omega (arith, r.within)))

  pub IsFile-here : IsFile k.fs (memory_of k) (fd_of k (current_pid k) fd).inode
  IsFile-here = rw (r.files, r.inode) (IsFile-SameImage fs m (memory_of k) i l.file r.image)

  pub read_chunk :
      p < inode_length fs m i
      → read f k (pos fd) buf (pos 1024) ≡ some (with_chunk k fd buf 1024, pos (left fs m i 1024 p))
  read_chunk inside =
      let d = fd_of k (current_pid k) fd in
      let here : d.file_pos < inode_length k.fs (memory_of k) d.inode =
        rw (r.files, r.inode, r.position)
          (rw (inode_length-SameImage fs m (memory_of k) r.image i l.file.inode_in) inside) in
      let apart : Apart buf 1024 k.fs.boot_block_ptr (image_end k.fs - k.fs.boot_block_ptr) =
        rw r.files l.buffer_image in
      read-read_fd f k fd buf 1024 l.descriptor l.real (omega arith) r.used
      ∙ read_fd-fs_read f k d.operations fd buf 1024 r.operations
      ∙ ap some (
          fs_read-file_bytes f k fd buf 1024 r.process r.low r.high IsFile-here here (omega arith)
            (omega arith) l.real apart)
      ∙ ap (λ (n : ℕ). some (with_chunk k fd buf 1024, pos n)) left_same

  -- The kernel when a chunk has been read and shown.
  abbrev pub after : Kernel
  after = shown (with_chunk k fd buf 1024) buf (left fs m i 1024 p)

  chunk_byte :
      (j : ℕ)
      → j < left fs m i 1024 p
      → write_bytes (memory_of k) buf (chunk_of k fd 1024) (buf + j) ≡ file_byte fs m i (p + j)
  chunk_byte j h =
      let size = length-file_bytes fs m i p (left fs m i 1024 p) in
      rw chunk_same (
        write_bytes_inside (memory_of k) buf j _ (rw size h)
        ∙ byte_at fs m i p (left fs m i 1024 p) j h)

  after-Calm :
      ((q : ℕ) → q < inode_length fs m i → file_byte fs m i q ≢ 8)
      → Calm (with_chunk k fd buf 1024).devices after.devices
  after-Calm plain =
      terminal_write-Calm (with_chunk k fd buf 1024).devices buf (left fs m i 1024 p) l.real r.on
        (rw r.place (ground (arith, l.screen_buffer)))
        (λ j h e. plain (p + j) (omega (arith, r.within)) (sym (chunk_byte j h) ∙ e))

  after_image :
      ((q : ℕ) → q < inode_length fs m i → file_byte fs m i q ≢ 8)
      → SameImage fs m (memory_of after)
  after_image plain a lo hi =
      let size = length-file_bytes fs m i p (left fs m i 1024 p) in
      (after-Calm plain).outside a (rw r.place (ground (arith, l.screen_image)))
      ∙ rw chunk_same (
          write_bytes_outside (memory_of k) buf a (file_bytes fs m i p (left fs m i 1024 p))
            (rw size (ground (arith, l.buffer_image))))
      ∙ r.image a lo hi

  pub after-IsReading :
      ((q : ℕ) → q < inode_length fs m i → file_byte fs m i q ≢ 8)
      → IsReading f fs m screen fd i (p + left fs m i 1024 p) after
  after-IsReading plain =
      let pid = current_pid k in
      let d = fd_of k pid fd in
      let m' = write_bytes (memory_of k) buf (chunk_of k fd 1024) in
      let d' : FileDesc = record d {
        file_pos = d.file_pos + left k.fs (memory_of k) d.inode 1024 d.file_pos;
      } in
      let mine : fd_of after pid fd ≡ d' = same_fd (with_memory k m') pid fd d' in
      let out : fd_of after pid 1 ≡ fd_of k pid 1 =
        other_fd (with_memory k m') pid fd 1 d' (λ e. absurd (omega (arith, l.opened))) in
      record {
        process = r.process;
        low = r.low;
        high = r.high;
        files = r.files;
        used = rw mine r.used;
        operations = rw mine r.operations;
        inode = rw mine r.inode;
        position = rw (mine, left_same, r.position) refl;
        within = omega (arith, r.within);
        output = rw out r.output;
        image = after_image plain;
        on = (after-Calm plain).on;
        place = (after-Calm plain).place ∙ r.place;
      }
