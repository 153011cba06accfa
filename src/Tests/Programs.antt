-- ===== src/Tests/Programs.antt =====
-- The programs of the users on a small kernel.
use linux_kernel_os.Prelude.Int.{pos}
use linux_kernel_os.Fs.Image.{file_byte}
use linux_kernel_os.Fs.{block_size, inode_length}
use linux_kernel_os.User.Cat.{IsReading, IsLaidOut}
use linux_kernel_os.User.Cat.Copied.{copied, cat_loop-copied}
use linux_kernel_os.Tests.Images.{disk, image, image-IsFile}
use linux_kernel_os.Tests.Devices.{console-OnScreen}
use linux_kernel_os.User.Programs.{cat_loop}
use linux_kernel_os.User.{kernel_system}
use linux_kernel_os.Memory.{Memory}
use linux_kernel_os.Memory.Write.{write_bytes}
use linux_kernel_os.Kernel.{Kernel, with_memory, current_pid, fd_of}
use linux_kernel_os.Process.{std_in, std_out, file_ops, FileDesc, get_pcb_by_id}
use linux_kernel_os.Prelude.{
  ltb, ◌==◌, if◌then◌else◌, ℕ, ◌+◌, ◌*◌, ◌/◌, ◌%◌, ◌≤◌, ◌<◌, ◌≡◌, refl, ◌≢◌, inl, inr, true, false,
  none, some, List, [], ◌∷◌, arith,
}
use Prim.Native.String.{String}
use linux_kernel_os.Tests.Processes.{kernel, frame}
use linux_kernel_os.User.Passes.{wrong_calls_pass}
use linux_kernel_os.User.Syserr.{err_neg_fd, err_big_fd, err_vidmap, err_stdin_out, err_syscall_num}
use linux_kernel_os.User.Refused.{IsPlaced, shown}
use linux_kernel_os.Prelude.{codes}

-- Every literal has 128 bytes of its own, by the sum of its characters.
abbrev total : List ℕ → ℕ
total [] = 0
total (c ∷ cs) = c + total cs

abbrev literal : String → ℕ
literal s = 0x9000000 + 128 * total (codes s)

abbrev place_literal : Memory → String → Memory
place_literal m s = write_bytes m (literal s) (codes s)

abbrev ram : Memory
ram =
    place_literal
      (place_literal
        (place_literal
          (place_literal
            (place_literal (place_literal (λ a. 0) "err_neg_fd: PASS\n") "err_big_fd: PASS\n")
            "err_vidmap: PASS\n")
          "err_stdin_out: PASS\n")
        "err_syscall_num: PASS\n")
      "err_unopened: PASS\n"

-- The descriptors of a process that has just started.
abbrev fds : ℕ → FileDesc
fds i = record {
  operations = if i == 0 then some std_in else if i == 1 then some std_out else none;
  inode = 0;
  file_pos = 0;
  in_use = ltb i 2;
}

abbrev started : Kernel
started =
    with_memory
      (record kernel {
        processes = record kernel.processes {
          pcbs = λ p. record (kernel.processes.pcbs p) { fds = fds };
        };
      })
      ram

neg_text : IsPlaced literal started "err_neg_fd: PASS\n"
neg_text = ground arith

big_text : IsPlaced literal started "err_big_fd: PASS\n"
big_text = ground arith

vidmap_text : IsPlaced literal started "err_vidmap: PASS\n"
vidmap_text = ground arith

stdin_text : IsPlaced literal started "err_stdin_out: PASS\n"
stdin_text = ground arith

number_text : IsPlaced literal started "err_syscall_num: PASS\n"
number_text = ground arith

unopened_text : IsPlaced literal started "err_unopened: PASS\n"
unopened_text = ground arith

none_open : (fd : ℕ) → 2 ≤ fd → fd < 8 → (fd_of started (current_pid started) fd).in_use ≡ false
none_open fd lo hi = ground arith

wrong_calls_pass_example :
    let sys = kernel_system frame frame (λ a. a) in
    (err_neg_fd sys literal started 0x8400000
      ≡ some (shown started (literal "err_neg_fd: PASS\n") 17, 0))
    × (err_big_fd sys literal started 0x8400000
        ≡ some (shown started (literal "err_big_fd: PASS\n") 17, 0))
    × (err_vidmap sys literal started ≡ some (shown started (literal "err_vidmap: PASS\n") 17, 0))
    × (err_stdin_out sys literal started 0x8400000
        ≡ some (shown started (literal "err_stdin_out: PASS\n") 20, 0))
    × (err_syscall_num sys literal started 0x8400000
        ≡ some (shown started (literal "err_syscall_num: PASS\n") 22, 0))
wrong_calls_pass_example =
    wrong_calls_pass frame frame (λ a. a) literal started 0x8400000 refl (refl, refl) neg_text
      big_text vidmap_text stdin_text number_text

-- Descriptor 2 is the file of 5 bytes in the image, at position 2.
abbrev file_fds : ℕ → FileDesc
file_fds i =
    if i == 2
    then record { operations = some file_ops; inode = 1; file_pos = 2; in_use = true }
    else fds i

abbrev opened_file : Kernel
opened_file = record kernel {
  processes = record kernel.processes {
    pcbs = λ p. record (kernel.processes.pcbs p) { fds = file_fds };
  };
}

reading : IsReading frame disk image 0xb8000 2 1 2 opened_file
unfolding get_pcb_by_id
reading = record {
  process = omega arith;
  low = omega arith;
  high = omega arith;
  files = refl;
  used = refl;
  operations = refl;
  inode = refl;
  position = refl;
  within = omega arith;
  output = (refl, refl);
  image = λ a lo hi. refl;
  on = console-OnScreen;
  place = refl;
}

laid_out : IsLaidOut disk image 0xb8000 2 1 400
laid_out = record {
  descriptor = omega arith;
  opened = omega arith;
  file = image-IsFile;
  real = λ e. absurd (omega arith);
  buffer_image = inl (omega arith);
  screen_image = inr (omega arith);
  screen_buffer = inr (omega arith);
}

no_backspace : (q : ℕ) → q < inode_length disk image 1 → file_byte disk image 1 q ≢ 8
no_backspace q h =
    let block : q / block_size ≡ 0 = omega arith in
    let within : q % block_size ≡ q = omega arith in rw (block, within) (ground arith)

cat_loop-copied_example :
    (k : Kernel) × (cat_loop (kernel_system frame frame (λ a. a)) literal 2 opened_file (pos 2) 400
      ≡ some (k, pos 0))
    × (k.devices ≡ copied 1 disk image 1 2 400 opened_file.devices)
cat_loop-copied_example =
    cat_loop-copied disk image 0xb8000 2 1 400 frame frame (λ a. a) literal laid_out no_backspace 1
      opened_file 2 reading (λ e. absurd (omega arith)) (omega arith)
