-- ===== src/User/Syserr.antt =====
-- syscalls/ece391syserr.c: the program that makes wrong system calls and checks that they fail. A test
-- returns 0 where they all do, and 2 otherwise.
use Prim.Native.String.{String}
use linux_kernel_os.Strings.Laws.{line}
use linux_kernel_os.Prelude.{◌==◌, if◌then◌else◌, ◌>>=◌, ℕ, zero, suc, ◌+◌, Option, some}
use linux_kernel_os.Prelude.Int.{ℤ, pos, negsuc, is_fail, uint32, minus}
use linux_kernel_os.User.{
  System, ece391_read, ece391_write, ece391_open, ece391_close, ece391_vidmap,
}
use linux_kernel_os.User.Programs.{tell}

-- NEG_FD, BIG_FD, BIG_NUM and NEG_NUM
abbrev pub neg_fd : ℤ
neg_fd = negsuc 1073741822

abbrev pub big_fd : ℤ
big_fd = pos 1073741823

abbrev pub big_num : ℤ
big_num = pos 1073741823

abbrev pub neg_num : ℤ
neg_num = negsuc 1073741822

module _ {S : Type 0} (sys : System S) (literal : String → ℕ) where
  -- `call_sys`. The other registers hold what the caller left there, `rest`.
  unfoldable pub call_sys : S → ℤ → ℕ → Option (S × ℤ)
  call_sys s num rest = sys.call s (uint32 num) rest rest rest

  -- `if (-1 != call) { fail = 2; ece391_fdputs(1, message); }`
  unfoldable pub expect : (S → Option (S × ℤ)) → String → S × ℕ → Option (S × ℕ)
  unfolding tell
  expect call message (s, fails) = do
    (s', r) ← call s
    let wrong : Option (S × ℕ) = (do s'' ← tell sys literal s' message; some (s'', 2))
    if is_fail r then some (s', fails) else wrong

  -- The message at the end of a test, and its result.
  unfoldable pub verdict : String → String → S × ℕ → Option (S × ℕ)
  unfolding tell
  verdict failed passed (s, fails) = do
    s' ← tell sys literal s (if fails == 0 then passed else failed)
    some (s', fails)

  -- `err_neg_fd` and `err_big_fd`, which differ in the descriptor and in the message.
  unfoldable pub err_fd : ℤ → String → String → S → ℕ → Option (S × ℕ)
  unfolding expect verdict
  err_fd fd failed passed s buf = do
    a ← expect (λ s'. ece391_read sys s' fd buf (pos 31)) "read fail\n" (s, 0)
    b ← expect (λ s'. ece391_write sys s' fd buf (pos 31)) "write fail\n" a
    c ← expect (λ s'. ece391_close sys s' fd) "close fail\n" b
    verdict failed passed c

  unfoldable pub err_neg_fd : S → ℕ → Option (S × ℕ)
  unfolding err_fd
  err_neg_fd = err_fd neg_fd "err_neg_fd: FAIL\n" "err_neg_fd: PASS\n"

  unfoldable pub err_big_fd : S → ℕ → Option (S × ℕ)
  unfolding err_fd
  err_big_fd = err_fd big_fd "err_big_fd: FAIL\n" "err_big_fd: PASS\n"

  -- The loops of `err_open_lots`, with the rounds left: the number of calls of `open` that fail, and
  -- `close` from the descriptor `i` on.
  unfoldable pub open_loop : ℕ → S → ℕ → Option (S × ℕ)
  open_loop zero s cnt = some (s, cnt)
  open_loop (suc k) s cnt = do
    (s', fd) ← ece391_open sys s (literal ".")
    open_loop k s' (if is_fail fd then cnt + 1 else cnt)

  unfoldable pub close_all : ℕ → S → ℕ → Option S
  close_all zero s i = some s
  close_all (suc k) s i = do (s', r) ← ece391_close sys s (pos i); close_all k s' (i + 1)

  unfoldable pub err_open_lots : S → Option (S × ℕ)
  unfolding open_loop close_all tell
  err_open_lots s = do
    (s1, cnt) ← open_loop 7 s 0
    s2 ← close_all 6 s1 2
    s3 ← tell sys literal s2 (if cnt == 1 then "err_open_lots: PASS\n" else "err_open_lots: FAIL\n")
    some (s3, if cnt == 1 then 0 else 2)

  unfoldable pub err_open : S → Option (S × ℕ)
  unfolding expect verdict
  err_open s = do
    a ← expect (λ s'. ece391_open sys s' (literal "helloo")) "'helloo' fail\n" (s, 0)
    b ← expect (λ s'. ece391_open sys s' (literal "shel")) "'shel' fail\n" a
    c ← expect (λ s'. ece391_open sys s' (literal "")) "empty string fail\n" b
    verdict "err_open: FAIL\n" "err_open: PASS\n" c

  -- A loop of `err_unopened`: a call for each descriptor from `i` on, with the rounds left.
  unfoldable pub expect_loop : ℕ → (ℤ → S → Option (S × ℤ)) → String → ℕ → S × ℕ → Option (S × ℕ)
  unfolding expect
  expect_loop zero call message i a = some a
  expect_loop (suc k) call message i a = do
    b ← expect (call (pos i)) message a
    expect_loop k call message (i + 1) b

  unfoldable pub err_unopened : S → ℕ → Option (S × ℕ)
  unfolding expect_loop verdict
  err_unopened s buf = do
    a ←
        expect_loop 8 (λ fd s'. ece391_close sys s' fd) "close unopened or invalid fd fail\n" 0
          (s, 0)
    b ←
        expect_loop 6 (λ fd s'. ece391_read sys s' fd buf (pos 31)) "read from unopened fd fail\n" 2
          a
    c ←
        expect_loop 6 (λ fd s'. ece391_write sys s' fd buf (pos 31)) "write to unopened fd fail\n" 2
          b
    verdict "err_unopened: FAIL\n" "err_unopened: PASS\n" c

  unfoldable pub err_vidmap : S → Option (S × ℕ)
  unfolding expect verdict
  err_vidmap s = do
    a ← expect (λ s'. ece391_vidmap sys s' 0) "Null pointer fail\n" (s, 0)
    b ← expect (λ s'. ece391_vidmap sys s' 0x400000) "Kernel pointer fail fail\n" a
    verdict "err_vidmap: FAIL\n" "err_vidmap: PASS\n" b

  unfoldable pub err_stdin_out : S → ℕ → Option (S × ℕ)
  unfolding expect verdict
  err_stdin_out s buf = do
    a ← expect (λ s'. ece391_write sys s' (pos 0) buf (pos 31)) "write to stdin fail\n" (s, 0)
    b ← expect (λ s'. ece391_read sys s' (pos 1) buf (pos 31)) "read from stdout fail\n" a
    verdict "err_stdin_out: FAIL\n" "err_stdin_out: PASS\n" b

  unfoldable pub err_syscall_num : S → ℕ → Option (S × ℕ)
  unfolding call_sys expect verdict
  err_syscall_num s rest = do
    a ← expect (λ s'. call_sys s' big_num rest) "syscall 0 fail\n" (s, 0)
    b ← expect (λ s'. call_sys s' neg_num rest) "big num syscall fail\n" a
    c ← expect (λ s'. call_sys s' (pos 0) rest) "neg num syscall fail\n" b
    verdict "err_syscall_num: FAIL\n" "err_syscall_num: PASS\n" c

  -- The test of a number, 0 for all of them. `buf` is the buffer of a test.
  unfoldable pub run_all : S → ℕ → ℕ → Option (S × ℕ)
  unfolding err_neg_fd err_big_fd err_open_lots err_open err_unopened err_vidmap err_stdin_out
      err_syscall_num
  run_all s buf rest = do
    (s1, f1) ← err_neg_fd s buf
    (s2, f2) ← err_big_fd s1 buf
    (s3, f3) ← err_open_lots s2
    (s4, f4) ← err_open s3
    (s5, f5) ← err_unopened s4 buf
    (s6, f6) ← err_vidmap s5
    (s7, f7) ← err_stdin_out s6 buf
    (s8, f8) ← err_syscall_num s7 rest
    verdict "\nOverall Tests: FAIL\n" "\nOverall Tests: PASS\n"
        (s8, f1 + f2 + f3 + f4 + f5 + f6 + f7 + f8)

  unfoldable pub invalid_number : S → Option (S × ℕ)
  unfolding tell
  invalid_number s = do
    s' ← tell sys literal s "Invalid test number. Choose from tests 1-8 or 0"
    some (s', 0)

  -- The `switch` of `main`.
  unfoldable pub run_test : S → ℕ → ℕ → ℤ → Option (S × ℕ)
  unfolding run_all invalid_number
  run_test s buf rest (negsuc n) = invalid_number s
  run_test s buf rest (pos n) =
      if n == 0
      then run_all s buf rest
      else if n == 1
      then err_neg_fd s buf
      else if n == 2
      then err_big_fd s buf
      else if n == 3
      then err_open_lots s
      else if n == 4
      then err_open s
      else if n == 5
      then err_unopened s buf
      else if n == 6
      then err_vidmap s
      else if n == 7
      then err_stdin_out s buf
      else if n == 8
      then err_syscall_num s rest
      else invalid_number s

  -- `line` is the buffer of `main`.
  unfoldable pub syserr_main : S → (line buf rest : ℕ) → Option (S × ℕ)
  unfolding run_test
  syserr_main s line buf rest = do
    s1 ← tell sys literal s "Choose from tests 1-8. 0 to run all: "
    (s2, cnt) ← ece391_read sys s1 (pos 0) line (pos 127)
    let sorry : Option (S × ℕ) = (do s3 ← tell sys literal s2 "Can't read test #\n"; some (s3, 2))
    if is_fail cnt then sorry else run_test s2 buf rest (minus (pos (sys.memory s2 line)) b'0')
