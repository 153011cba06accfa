-- ===== src/User/Programs.antt =====
-- The smaller programs of syscalls/: cat, hello, ls, shell, counter and testprint. `literal` is where
-- the compiler has put a string literal, and `buf` where the program's buffer stands.
use linux_kernel_os.Strings.{newline}
use linux_kernel_os.Prelude.Int.{ℤ, pos, negsuc, is_fail, is_zero, plus, minus}
use Prim.Native.String.{String}
use linux_kernel_os.Prelude.{
  ltb, ◌==◌, if◌then◌else◌, ◌>>=◌, ℕ, zero, suc, ◌+◌, ◌-◌, ◌&&◌, ◌||◌, Option, none, some,
}
use linux_kernel_os.Memory.{store}
use linux_kernel_os.User.{
  System, ece391_execute, ece391_read, ece391_write, ece391_open, ece391_getargs,
}
use linux_kernel_os.User.Support.{ece391_strlen, ece391_strcmp, ece391_itoa, ece391_fdputs}

module _ {S : Type 0} (sys : System S) (literal : String → ℕ) where
  -- `ece391_fdputs` of a literal to descriptor 1.
  unfoldable pub tell : S → String → Option S
  unfolding ece391_fdputs
  tell s message = ece391_fdputs sys s (pos 1) (literal message)

  -- A message, and the status with which `main` returns.
  unfoldable pub give_up : S → String → ℤ → Option (S × ℤ)
  unfolding tell
  give_up s message status = do s' ← tell s message; some (s', status)

  -- `buf[i] = c;`, for an index that may be negative.
  unfoldable pub put_byte : S → ℕ → ℤ → ℕ → S
  put_byte s buf (pos i) c = sys.put_memory s (store (sys.memory s) (buf + i) c)
  put_byte s buf (negsuc i) c = sys.put_memory s (store (sys.memory s) (buf - (i + 1)) c)

  -- The loop of `cat`, with the rounds left.
  unfoldable pub cat_loop : ℕ → S → ℤ → ℕ → Option (S × ℤ)
  unfolding give_up
  cat_loop zero s fd buf = none
  cat_loop (suc k) s fd buf = do
    (s1, cnt) ← ece391_read sys s fd buf (pos 1024)
    let copy : Option (S × ℤ) = (do
      (s2, written) ← ece391_write sys s1 (pos 1) buf cnt
      if is_fail written then some (s2, pos 3) else cat_loop k s2 fd buf)
    if is_zero cnt
        then some (s1, pos 0)
        else if is_fail cnt
        then give_up s1 "file read failed\n" (pos 3)
        else copy

  unfoldable pub cat_main : ℕ → S → ℕ → Option (S × ℤ)
  unfolding cat_loop
  cat_main fuel s buf = do
    (s1, got) ← ece391_getargs sys s buf (pos 1024)
    let opening : Option (S × ℤ) = (do
      (s2, fd) ← ece391_open sys s1 buf
      if is_fail fd then give_up s2 "file not found\n" (pos 2) else cat_loop fuel s2 fd buf)
    if is_zero got then opening else give_up s1 "could not read arguments\n" (pos 3)

  unfoldable pub hello_main : S → ℕ → Option (S × ℤ)
  unfolding give_up put_byte
  hello_main s buf = do
    s1 ← tell s "Hi, what's your name? "
    (s2, cnt) ← ece391_read sys s1 (pos 0) buf (pos 1023)
    let greet : Option (S × ℤ) = (do
      s3 ← tell (put_byte s2 buf cnt 0) "Hello, "
      s4 ← ece391_fdputs sys s3 (pos 1) buf
      some (s4, pos 0))
    if is_fail cnt then give_up s2 "Can't read name from keyboard.\n" (pos 3) else greet

  -- The loop of `ls`, with the rounds left.
  unfoldable pub ls_loop : ℕ → S → ℤ → ℕ → Option (S × ℤ)
  unfolding give_up put_byte
  ls_loop zero s fd buf = none
  ls_loop (suc k) s fd buf = do
    (s1, cnt) ← ece391_read sys s fd buf (pos 32)
    let line : Option (S × ℤ) = (do
      (s2, written) ← ece391_write sys (put_byte s1 buf cnt newline) (pos 1) buf (plus cnt 1)
      if is_fail written then some (s2, pos 3) else ls_loop k s2 fd buf)
    if is_zero cnt
        then some (s1, pos 0)
        else if is_fail cnt
        then give_up s1 "directory entry read failed\n" (pos 3)
        else line

  unfoldable pub ls_main : ℕ → S → ℕ → Option (S × ℤ)
  unfolding ls_loop
  ls_main fuel s buf = do
    (s1, fd) ← ece391_open sys s (literal ".")
    if is_fail fd then give_up s1 "directory open failed\n" (pos 2) else ls_loop fuel s1 fd buf

  unfoldable pub testprint_main : S → Option (S × ℤ)
  unfolding tell
  testprint_main s = give_up s "Hello, if this ran, the program was correct. Yay!\n" (pos 0)

  -- What the shell says about the result of `ece391_execute`.
  unfoldable pub report : S → ℤ → Option S
  unfolding tell
  report s rval =
      if is_fail rval
      then tell s "no such command\n"
      else if is_zero (minus rval 256)
      then tell s "program terminated by exception\n"
      else if is_zero rval
      then some s
      else tell s "program terminated abnormally\n"

  -- `if (cnt > 0 && '\n' == buf[cnt - 1]) cnt--;`
  unfoldable pub line_count : S → ℕ → ℤ → ℤ
  line_count s buf (pos zero) = pos zero
  line_count s buf (pos (suc n)) = if sys.memory s (buf + n) == newline then pos n else pos (suc n)
  line_count s buf (negsuc n) = negsuc n

  -- The loop of the shell, with the rounds left.
  unfoldable pub shell_loop : ℕ → S → ℕ → Option (S × ℤ)
  unfolding give_up put_byte report line_count
  shell_loop zero s buf = none
  shell_loop (suc k) s buf = do
    s1 ← tell s "391OS> "
    (s2, cnt) ← ece391_read sys s1 (pos 0) buf (pos 1023)
    let s3 = put_byte s2 buf (line_count s2 buf cnt) 0
    let run : Option (S × ℤ) = (do
      (s4, rval) ← ece391_execute sys s3 buf
      s5 ← report s4 rval
      shell_loop k s5 buf)
    let again = shell_loop k s3 buf
    let command : Option (S × ℤ) = (do
      order ← ece391_strcmp (sys.memory s3) buf (literal "exit")
      if is_zero order then some (s3, pos 0) else if sys.memory s3 buf == 0 then again else run)
    if is_fail cnt then give_up s2 "read from keyboard failed\n" (pos 3) else command

  unfoldable pub shell_main : ℕ → S → ℕ → Option (S × ℤ)
  unfolding shell_loop
  shell_main fuel s buf = do s' ← tell s "Starting 391 Shell\n"; shell_loop fuel s' buf

  -- The numbers of `counter`, from `i + 1` on, with the rounds left.
  unfoldable pub count_loop : ℕ → S → ℕ → ℕ → Option (S × ℤ)
  unfolding tell
  count_loop zero s buf i = some (s, pos 0)
  count_loop (suc k) s buf i = do
    m ← ece391_itoa (sys.memory s) (i + 1) buf 10
    s1 ← ece391_fdputs sys (sys.put_memory s m) (pos 1) buf
    s2 ← tell s1 "\n"
    count_loop k s2 buf (i + 1)

  -- The `switch` of `counter` over the first character.
  abbrev pub rounds : ℕ → ℕ
  rounds c = if c == b'0' then 100 else if c == b'1' then 10000 else if c == b'2' then 100000 else 0

  unfoldable pub counter_main : S → ℕ → Option (S × ℤ)
  unfolding count_loop put_byte give_up
  counter_main s buf = do
    s1 ← tell s "Enter the Test Number: (0): 100, (1): 10000, (2): 100000\n"
    (s2, cnt) ← ece391_read sys s1 (pos 0) buf (pos 1023)
    let s3 = put_byte s2 buf cnt 0
    let choose : Option (S × ℤ) = (do
      len ← ece391_strlen (sys.memory s3) buf
      let first = sys.memory s3 buf
      if ltb 2 len || ((len == 2) && (ltb first b'0' || ltb b'2' first))
          then give_up s3 "Wrong Choice!\n" (pos 0)
          else count_loop (rounds first) s3 buf 0)
    if is_fail cnt then give_up s2 "Can't read the number from keyboard.\n" (pos 3) else choose
