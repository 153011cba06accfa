-- ===== src/User/Passes.antt =====
-- The tests of syscalls/ece391syserr.c on the kernel.
use Prim.Native.String.{String}
use linux_kernel_os.Args.{vidmap}
use linux_kernel_os.User.Syserr.{
  neg_fd, big_fd, big_num, neg_num, call_sys, expect, verdict, err_neg_fd, err_big_fd, expect_loop,
  err_unopened, err_vidmap, err_stdin_out, err_syscall_num,
}
use linux_kernel_os.User.Support.{ece391_strlen, ece391_fdputs}
use linux_kernel_os.Syscalls.{call_table, syscall_handler}
use linux_kernel_os.Files.{refuses, read, write, close}
use linux_kernel_os.Prelude.{
  length, ℕ, zero, suc, ◌+◌, ◌^◌, ◌≤◌, ◌<◌, ◌≡◌, refl, true, false, ◌||◌, Option, some, arith,
}
use linux_kernel_os.Prelude.Int.{ℤ, pos, fail, lt_int, int32, uint32}
use linux_kernel_os.Kernel.{Kernel, Frame, memory_of, current_pid, fd_of}
use linux_kernel_os.Process.{std_in, std_out}
use linux_kernel_os.User.{
  ece391_read, ece391_write, ece391_close, ece391_vidmap, came_back, kernel_system,
}
use linux_kernel_os.User.Programs.{tell}
use linux_kernel_os.User.Refused.{
  HasOutput, IsPlaced, shown, ece391_strlen-IsString, write_out, words_back, small_back,
  close_refused, read_refused, write_refused, write_in, read_out,
}
use linux_kernel_os.Prelude.{codes}

module _ (f g : Frame) (place : ℕ → ℕ) (literal : String → ℕ) where
  tell-shown :
      (k : Kernel) (message : String)
      → HasOutput k
      → IsPlaced literal k message
      → 0 < length (codes message)
      → length (codes message) < 2 ^ 31
      → tell (kernel_system f g place) literal k message
        ≡ some (shown k (literal message) (length (codes message)))
  unfolding tell ece391_fdputs ece391_write kernel_system syscall_handler call_table came_back
  tell-shown k message out placed low high =
      let n = length (codes message) in
      let size : ece391_strlen (memory_of k) (literal message) ≡ some n =
        ece391_strlen-IsString (memory_of k) (literal message) (codes message) placed.0
          (omega arith) in
      rw (size, words_back n high, write_out f k (literal message) n out placed.1 low) refl

  -- A call that fails and changes nothing passes its check.
  expect_refused :
      (k : Kernel) (call : Kernel → Option (Kernel × ℤ)) (message : String) (n : ℕ)
      → call k ≡ some (k, fail)
      → expect (kernel_system f g place) literal call message (k, n) ≡ some (k, n)
  unfolding expect
  expect_refused k call message n h = rw h refl

  verdict-shown :
      (k : Kernel) (failed passed : String)
      → HasOutput k
      → IsPlaced literal k passed
      → 0 < length (codes passed)
      → length (codes passed) < 2 ^ 31
      → verdict (kernel_system f g place) literal failed passed (k, 0)
        ≡ some (shown k (literal passed) (length (codes passed)), 0)
  unfolding verdict
  verdict-shown k failed passed out placed low high =
      rw (tell-shown k passed out placed low high) refl

  -- What the kernel answers to the calls of the tests.
  module _ (k : Kernel) (buf : ℕ) where
    read_neg : ece391_read (kernel_system f g place) k neg_fd buf (pos 31) ≡ some (k, fail)
    unfolding ece391_read kernel_system syscall_handler call_table came_back read
    read_neg = refl

    write_neg : ece391_write (kernel_system f g place) k neg_fd buf (pos 31) ≡ some (k, fail)
    unfolding ece391_write kernel_system syscall_handler call_table came_back write
    write_neg = refl

    close_neg : ece391_close (kernel_system f g place) k neg_fd ≡ some (k, fail)
    unfolding ece391_close kernel_system syscall_handler call_table came_back close
    close_neg = refl

    read_big : ece391_read (kernel_system f g place) k big_fd buf (pos 31) ≡ some (k, fail)
    unfolding ece391_read kernel_system syscall_handler call_table came_back read refuses
    read_big = refl

    write_big : ece391_write (kernel_system f g place) k big_fd buf (pos 31) ≡ some (k, fail)
    unfolding ece391_write kernel_system syscall_handler call_table came_back write refuses
    write_big = refl

    close_big : ece391_close (kernel_system f g place) k big_fd ≡ some (k, fail)
    unfolding ece391_close kernel_system syscall_handler call_table came_back close
    close_big = refl

    -- A descriptor that is not in use.
    close_unused :
        (fd : ℕ)
        → fd < 8
        → (2 ≤ fd → (fd_of k (current_pid k) fd).in_use ≡ false)
        → ece391_close (kernel_system f g place) k (pos fd) ≡ some (k, fail)
    unfolding ece391_close kernel_system syscall_handler call_table came_back
    close_unused fd h free = rw (small_back fd h, close_refused k fd free) refl

    read_unused :
        (fd : ℕ)
        → fd < 8
        → (fd_of k (current_pid k) fd).in_use ≡ false
        → ece391_read (kernel_system f g place) k (pos fd) buf (pos 31) ≡ some (k, fail)
    unfolding ece391_read kernel_system syscall_handler call_table came_back
    read_unused fd h free = rw (small_back fd h, read_refused f k fd buf free) refl

    write_unused :
        (fd : ℕ)
        → fd < 8
        → (fd_of k (current_pid k) fd).in_use ≡ false
        → ece391_write (kernel_system f g place) k (pos fd) buf (pos 31) ≡ some (k, fail)
    unfolding ece391_write kernel_system syscall_handler call_table came_back
    write_unused fd h free = rw (small_back fd h, write_refused f k fd buf free) refl

    -- Loops of calls that fail.
    expect_loop_refused :
        (r i : ℕ) (call : ℤ → Kernel → Option (Kernel × ℤ)) (message : String)
        → ((fd : ℕ) → i ≤ fd → fd < i + r → call (pos fd) k ≡ some (k, fail))
        → expect_loop (kernel_system f g place) literal r call message i (k, 0) ≡ some (k, 0)
    unfolding expect_loop
    expect_loop_refused zero i call message h = refl
    expect_loop_refused (suc r) i call message h =
        rw (expect_refused k (call (pos i)) message 0 (h i (omega arith) (omega arith))) (
          expect_loop_refused r (i + 1) call message (λ fd lo hi. h fd (omega arith) (omega arith)))

    neg_passes :
        HasOutput k
        → IsPlaced literal k "err_neg_fd: PASS\n"
        → err_neg_fd (kernel_system f g place) literal k buf
          ≡ some (shown k (literal "err_neg_fd: PASS\n") 17, 0)
    unfolding err_neg_fd
    neg_passes out placed =
        rw
          (
            expect_refused k (λ s. ece391_read (kernel_system f g place) s neg_fd buf (pos 31))
                "read fail\n" 0 read_neg,
            expect_refused k (λ s. ece391_write (kernel_system f g place) s neg_fd buf (pos 31))
                "write fail\n" 0 write_neg,
            expect_refused k (λ s. ece391_close (kernel_system f g place) s neg_fd) "close fail\n" 0
                close_neg,
          )
          (verdict-shown k "err_neg_fd: FAIL\n" "err_neg_fd: PASS\n" out placed (omega arith)
            (omega arith))

    big_passes :
        HasOutput k
        → IsPlaced literal k "err_big_fd: PASS\n"
        → err_big_fd (kernel_system f g place) literal k buf
          ≡ some (shown k (literal "err_big_fd: PASS\n") 17, 0)
    unfolding err_big_fd
    big_passes out placed =
        rw
          (
            expect_refused k (λ s. ece391_read (kernel_system f g place) s big_fd buf (pos 31))
                "read fail\n" 0 read_big,
            expect_refused k (λ s. ece391_write (kernel_system f g place) s big_fd buf (pos 31))
                "write fail\n" 0 write_big,
            expect_refused k (λ s. ece391_close (kernel_system f g place) s big_fd) "close fail\n" 0
                close_big,
          )
          (verdict-shown k "err_big_fd: FAIL\n" "err_big_fd: PASS\n" out placed (omega arith)
            (omega arith))

    -- On a kernel whose current process has output at descriptor 1 and nothing open at the descriptors
    -- 2 to 7, with the message in the memory: `err_unopened` comes to its end with the result 0, and
    -- all it does is to write its message that the test is passed.
    err_unopened-shown :
        HasOutput k
        → ((fd : ℕ) → 2 ≤ fd → fd < 8 → (fd_of k (current_pid k) fd).in_use ≡ false)
        → IsPlaced literal k "err_unopened: PASS\n"
        → err_unopened (kernel_system f g place) literal k buf
          ≡ some (shown k (literal "err_unopened: PASS\n") 19, 0)
    unfolding err_unopened
    err_unopened-shown out free placed =
        rw
          (
            expect_loop_refused 8 0 (λ fd s. ece391_close (kernel_system f g place) s fd)
                "close unopened or invalid fd fail\n"
                (λ fd lo hi. close_unused fd (omega arith) (λ two. free fd two (omega arith))),
            expect_loop_refused 6 2
                (λ fd s. ece391_read (kernel_system f g place) s fd buf (pos 31))
                "read from unopened fd fail\n"
                (λ fd lo hi. read_unused fd (omega arith) (free fd lo (omega arith))),
            expect_loop_refused 6 2
                (λ fd s. ece391_write (kernel_system f g place) s fd buf (pos 31))
                "write to unopened fd fail\n"
                (λ fd lo hi. write_unused fd (omega arith) (free fd lo (omega arith))),
          )
          (verdict-shown k "err_unopened: FAIL\n" "err_unopened: PASS\n" out placed (omega arith)
            (omega arith))

    vidmap_null : ece391_vidmap (kernel_system f g place) k 0 ≡ some (k, fail)
    unfolding ece391_vidmap kernel_system syscall_handler call_table came_back vidmap
    vidmap_null = refl

    vidmap_kernel : ece391_vidmap (kernel_system f g place) k 0x400000 ≡ some (k, fail)
    unfolding ece391_vidmap kernel_system syscall_handler call_table came_back vidmap
    vidmap_kernel = refl

    vidmap_passes :
        HasOutput k
        → IsPlaced literal k "err_vidmap: PASS\n"
        → err_vidmap (kernel_system f g place) literal k
          ≡ some (shown k (literal "err_vidmap: PASS\n") 17, 0)
    unfolding err_vidmap
    vidmap_passes out placed =
        rw
          (
            expect_refused k (λ s. ece391_vidmap (kernel_system f g place) s 0)
                "Null pointer fail\n" 0 vidmap_null,
            expect_refused k (λ s. ece391_vidmap (kernel_system f g place) s 0x400000)
                "Kernel pointer fail fail\n" 0 vidmap_kernel,
          )
          (verdict-shown k "err_vidmap: FAIL\n" "err_vidmap: PASS\n" out placed (omega arith)
            (omega arith))

    stdin_refused :
        (fd_of k (current_pid k) 0).operations ≡ some std_in
        → ece391_write (kernel_system f g place) k (pos 0) buf (pos 31) ≡ some (k, fail)
    unfolding ece391_write kernel_system syscall_handler call_table came_back
    stdin_refused ops = rw (write_in f k buf ops) refl

    stdout_refused :
        (fd_of k (current_pid k) 1).operations ≡ some std_out
        → ece391_read (kernel_system f g place) k (pos 1) buf (pos 31) ≡ some (k, fail)
    unfolding ece391_read kernel_system syscall_handler call_table came_back
    stdout_refused ops = rw (read_out f k buf ops) refl

    stdin_out_passes :
        (fd_of k (current_pid k) 0).operations ≡ some std_in
        → HasOutput k
        → IsPlaced literal k "err_stdin_out: PASS\n"
        → err_stdin_out (kernel_system f g place) literal k buf
          ≡ some (shown k (literal "err_stdin_out: PASS\n") 20, 0)
    unfolding err_stdin_out
    stdin_out_passes ops out placed =
        rw
          (
            expect_refused k (λ s. ece391_write (kernel_system f g place) s (pos 0) buf (pos 31))
                "write to stdin fail\n" 0 (stdin_refused ops),
            expect_refused k (λ s. ece391_read (kernel_system f g place) s (pos 1) buf (pos 31))
                "read from stdout fail\n" 0 (stdout_refused out.1),
          )
          (verdict-shown k "err_stdin_out: FAIL\n" "err_stdin_out: PASS\n" out placed (omega arith)
            (omega arith))

    -- A number that is no system call's.
    number_refused :
        (num : ℤ)
        → lt_int (int32 (uint32 num)) (pos 1) || lt_int (pos 10) (int32 (uint32 num)) ≡ true
        → call_sys (kernel_system f g place) literal k num buf ≡ some (k, fail)
    unfolding call_sys kernel_system syscall_handler came_back
    number_refused num h = rw h refl

    syscall_num_passes :
        HasOutput k
        → IsPlaced literal k "err_syscall_num: PASS\n"
        → err_syscall_num (kernel_system f g place) literal k buf
          ≡ some (shown k (literal "err_syscall_num: PASS\n") 22, 0)
    unfolding err_syscall_num
    syscall_num_passes out placed =
        rw
          (
            expect_refused k (λ s. call_sys (kernel_system f g place) literal s big_num buf)
                "syscall 0 fail\n" 0 (number_refused big_num refl),
            expect_refused k (λ s. call_sys (kernel_system f g place) literal s neg_num buf)
                "big num syscall fail\n" 0 (number_refused neg_num refl),
            expect_refused k (λ s. call_sys (kernel_system f g place) literal s (pos 0) buf)
                "neg num syscall fail\n" 0 (number_refused (pos 0) refl),
          )
          (verdict-shown k "err_syscall_num: FAIL\n" "err_syscall_num: PASS\n" out placed
            (omega arith) (omega arith))

    -- On a kernel whose current process has input at descriptor 0 and output at descriptor 1, with the
    -- messages in the memory: `err_neg_fd`, `err_big_fd`, `err_vidmap`, `err_stdin_out` and
    -- `err_syscall_num` each come to their end with the result 0, and all they do is to write their
    -- message that the test is passed.
    pub wrong_calls_pass :
        (fd_of k (current_pid k) 0).operations ≡ some std_in
        → HasOutput k
        → IsPlaced literal k "err_neg_fd: PASS\n"
        → IsPlaced literal k "err_big_fd: PASS\n"
        → IsPlaced literal k "err_vidmap: PASS\n"
        → IsPlaced literal k "err_stdin_out: PASS\n"
        → IsPlaced literal k "err_syscall_num: PASS\n"
        → let sys = kernel_system f g place in
          (err_neg_fd sys literal k buf ≡ some (shown k (literal "err_neg_fd: PASS\n") 17, 0))
          × (err_big_fd sys literal k buf ≡ some (shown k (literal "err_big_fd: PASS\n") 17, 0))
          × (err_vidmap sys literal k ≡ some (shown k (literal "err_vidmap: PASS\n") 17, 0))
          × (err_stdin_out sys literal k buf
              ≡ some (shown k (literal "err_stdin_out: PASS\n") 20, 0))
          × (err_syscall_num sys literal k buf
              ≡ some (shown k (literal "err_syscall_num: PASS\n") 22, 0))
    wrong_calls_pass ops out p1 p2 p3 p4 p5 = (
      neg_passes out p1,
      big_passes out p2,
      vidmap_passes out p3,
      stdin_out_passes ops out p4,
      syscall_num_passes out p5,
    )
