-- ===== src/Files/Position.antt =====
-- Reading a file through its descriptor.
use linux_kernel_os.Process.{max_pcb, pcb_8kb, get_pcb_by_id, get_current_pcb, pid_of_pcb}
use linux_kernel_os.Fs.{block_size, inode_length}
use linux_kernel_os.Prelude.Int.{pos, add32, uint32}
use linux_kernel_os.Files.{fs_read}
use linux_kernel_os.Kernel.{Kernel, Frame, memory_of, with_memory, current_pid, fd_of, with_fd}
use linux_kernel_os.Prelude.{
  ℕ, ◌+◌, ◌-◌, ◌*◌, ◌/◌, ◌%◌, ◌^◌, ◌≤◌, ◌<◌, ◌≡◌, sym, ap, ◌∙◌, ◌≢◌, arith,
}
use linux_kernel_os.Process.Stack.{get_current_pcb_lem, get_pcb_by_id_real, pid_of_pcb_back}
use linux_kernel_os.Fs.Image.{image_end, IsFile, file_bytes}
use linux_kernel_os.Fs.Read.{left, read_data-file_bytes, read_data-end}
use linux_kernel_os.Memory.{null}
use linux_kernel_os.Memory.Write.{Apart, write_bytes}

-- On the kernel stack of the current process, one of six, a read of a positive number of bytes below
-- 2 ^ 31, to a buffer that is not null and does not overlap the file system image, through a
-- descriptor of a file with its position inside the file, puts the bytes from that position on at the
-- buffer and writes nothing else. It returns their number, which is the smaller of the number asked for
-- and of what is left of the file, and moves the position on by it.
pub fs_read-file_bytes :
    (f : Frame) (k : Kernel) (fd buf n : ℕ)
    → let pid = current_pid k in
      let d = fd_of k pid fd in
      let m = memory_of k in
      let count = left k.fs m d.inode n d.file_pos in
      pid < max_pcb
      → get_pcb_by_id pid ≤ f.esp
      → f.esp < get_pcb_by_id pid + pcb_8kb
      → IsFile k.fs m d.inode
      → d.file_pos < inode_length k.fs m d.inode
      → 0 < n
      → n < 2 ^ 31
      → buf ≢ null
      → Apart buf n k.fs.boot_block_ptr (image_end k.fs - k.fs.boot_block_ptr)
      → fs_read f k fd buf (pos n) ≡ (
        with_fd
            (with_memory k (write_bytes m buf (file_bytes k.fs m d.inode d.file_pos count)))
            pid
            fd
            (record d { file_pos = d.file_pos + count }),
        pos count,
      )
unfolding fs_read
fs_read-file_bytes f k fd buf n process lo hi file inside some_bytes small real out =
    let d = fd_of k (current_pid k) fd in
    let block = get_current_pcb_lem (current_pid k) f.esp process lo hi in
    let bytes =
      read_data-file_bytes k.fs (memory_of k) d.inode d.file_pos buf n file inside some_bytes small
        real out in
    let back : pid_of_pcb (get_current_pcb f.esp) ≡ current_pid k =
      ap pid_of_pcb block ∙ pid_of_pcb_back (current_pid k) process in
    let there : get_current_pcb f.esp ≢ null =
      λ e. get_pcb_by_id_real (current_pid k) process (sym block ∙ e) in
    let asked : uint32 (pos n) ≡ n = omega arith in
    let count = left k.fs (memory_of k) d.inode n d.file_pos in
    let moved : add32 d.file_pos (uint32 (pos count)) ≡ d.file_pos + count =
      omega (arith, file.size) in
    rw (fs_read, back, asked, bytes, moved) (ground (arith, there, real))

-- At the end of a file whose last block is not full, a read writes nothing and returns 0.
pub fs_read-end :
    (f : Frame) (k : Kernel) (fd buf n : ℕ)
    → let pid = current_pid k in
      let d = fd_of k pid fd in
      pid < max_pcb
      → get_pcb_by_id pid ≤ f.esp
      → f.esp < get_pcb_by_id pid + pcb_8kb
      → IsFile k.fs (memory_of k) d.inode
      → d.file_pos ≡ inode_length k.fs (memory_of k) d.inode
      → d.file_pos % block_size ≢ 0
      → 0 < n
      → n < 2 ^ 31
      → buf ≢ null
      → fs_read f k fd buf (pos n)
        ≡ (with_fd k pid fd (record d { file_pos = add32 d.file_pos 0 }), pos 0)
unfolding fs_read
fs_read-end f k fd buf n process lo hi file ended part some_bytes small real =
    let d = fd_of k (current_pid k) fd in
    let block = get_current_pcb_lem (current_pid k) f.esp process lo hi in
    let reach : d.file_pos / block_size * block_size < inode_length k.fs (memory_of k) d.inode =
      omega arith in
    let none_left =
      read_data-end k.fs (memory_of k) d.inode d.file_pos buf n file.inode_in
        (file.blocks_in (d.file_pos / block_size) reach) (omega arith) real in
    let back : pid_of_pcb (get_current_pcb f.esp) ≡ current_pid k =
      ap pid_of_pcb block ∙ pid_of_pcb_back (current_pid k) process in
    let there : get_current_pcb f.esp ≢ null =
      λ e. get_pcb_by_id_real (current_pid k) process (sym block ∙ e) in
    let asked : uint32 (pos n) ≡ n = omega arith in
    rw (fs_read, back, asked, none_left) (ground (arith, there, real))
