-- ===== src/User/Grep.antt =====
-- syscalls/ece391grep.c: the lines of the files of the directory that hold a text. `bytes` is the buffer
-- `data` of a file's bytes; loops take the rounds that are left, and `none` is a loop that goes on.
use Prim.Native.String.{String}
use linux_kernel_os.Prelude.{
  ◌==◌, if◌then◌else◌, ◌>>=◌, ℕ, zero, suc, ◌+◌, ◌-◌, ◌^◌, Bool, true, false, not, ◌&&◌, Option,
  none, some,
}
use linux_kernel_os.Prelude.Int.{
  ℤ, pos, negsuc, fail, is_fail, lt_int, is_zero, sub_nat, minus, add_int,
}
use linux_kernel_os.Strings.{newline}
use linux_kernel_os.Memory.{Memory, store}
use linux_kernel_os.User.{System, ece391_read, ece391_open, ece391_close, ece391_getargs}
use linux_kernel_os.User.Support.{ece391_strlen, ece391_strcpy, ece391_strncmp, ece391_fdputs}
use linux_kernel_os.User.Programs.{tell, give_up}

-- data + i
abbrev pub at_index : ℕ → ℤ → ℕ
at_index bytes (pos i) = bytes + i
at_index bytes (negsuc i) = bytes - (i + 1)

-- `while (line_end < last && '\n' != data[line_end]) line_end++;`
unfoldable pub find_end : ℕ → Memory → ℕ → ℤ → ℕ → ℕ
find_end zero m bytes last line_end = line_end
find_end (suc k) m bytes last line_end =
    let rest = find_end k m bytes last (line_end + 1) in
    if lt_int (pos line_end) last && not (m (bytes + line_end) == newline) then rest else line_end

-- BUFSIZE - last
abbrev pub room : ℤ → ℤ
room (pos n) = sub_nat 1024 n
room (negsuc n) = pos (1024 + (n + 1))

module _ {S : Type 0} (sys : System S) (literal : String → ℕ) where
  unfoldable pub poke : S → ℕ → ℕ → S
  poke s p c = sys.put_memory s (store (sys.memory s) p c)

  -- The search of a line from the index `check` on, for the text of `size` characters at `text_at`: the
  -- file's name and the line are printed at the first place where it stands.
  unfoldable pub search_line : ℕ → S → (text_at size fname bytes line_start check : ℕ) → Option S
  search_line zero s text_at size fname bytes line_start check = some s
  search_line (suc k) s text_at size fname bytes line_start check =
      let m = sys.memory s in
      let rest = search_line k s text_at size fname bytes line_start (check + 1) in
      let found : Option S = (do
        s1 ← ece391_fdputs sys s (pos 1) fname
        s2 ← tell sys literal s1 ":"
        s3 ← ece391_fdputs sys s2 (pos 1) (bytes + line_start)
        tell sys literal s3 "\n") in
      if (m text_at == m (bytes + check)) && is_zero (ece391_strncmp m (bytes + check) text_at size)
      then found
      else rest

  -- The loop over the lines of the buffer, with the result `last`. An unfinished line is moved to the
  -- front of the buffer.
  unfoldable pub line_loop :
      ℕ → S → (text_at size fname bytes : ℕ) → (cnt last : ℤ) → ℕ → Option (S × ℤ)
  unfolding find_end poke search_line
  line_loop zero s text_at size fname bytes cnt last line_start = none
  line_loop (suc k) s text_at size fname bytes cnt last line_start =
      let line_end = find_end (2 ^ 31) (sys.memory s) bytes last line_start in
      let ended = poke s (bytes + line_end) 0 in
      let unfinished : Option (S × ℤ) = (do
        m ← ece391_strcpy (sys.memory ended) bytes (bytes + line_start)
        some (sys.put_memory ended m, minus last line_start)) in
      let whole : Option (S × ℤ) = (do
        s' ←
            search_line (line_end - line_start) ended text_at size fname bytes line_start line_start
        if lt_int (pos (line_end + 1)) last
            then line_loop k s' text_at size fname bytes cnt last (line_end + 1)
            else some (s', pos 0)) in
      if not (sys.memory s (bytes + line_end) == newline)
        && not (is_zero cnt)
        && not (line_start == 0)
      then unfinished
      else whole

  -- The loop of `do_one_file`: `none` in the result is the -1 after a read that fails.
  unfoldable pub read_lines : ℕ → S → ℤ → (text_at size fname bytes : ℕ) → ℤ → Option (S × Bool)
  unfolding line_loop tell
  read_lines zero s fd text_at size fname bytes last = none
  read_lines (suc k) s fd text_at size fname bytes last = do
    (s1, cnt) ← ece391_read sys s fd (at_index bytes last) (room last)
    let failed : Option (S × Bool) = (do
      s2 ← tell sys literal s1 "file read failed\n"
      some (s2, false))
    let lines : Option (S × Bool) = (do
      (s2, last') ← line_loop (2 ^ 31) s1 text_at size fname bytes cnt (add_int last cnt) 0
      if is_zero cnt then some (s2, true) else read_lines k s2 fd text_at size fname bytes last')
    if is_fail cnt then failed else lines

  -- `do_one_file`
  unfoldable pub do_one_file : ℕ → S → (text_at fname bytes : ℕ) → Option (S × ℤ)
  unfolding read_lines
  do_one_file fuel s text_at fname bytes = do
    size ← ece391_strlen (sys.memory s) text_at
    (s1, fd) ← ece391_open sys s fname
    let closing : S → Option (S × ℤ) = λ s2. (do
      (s3, r) ← ece391_close sys s2 fd
      if is_fail r then give_up sys literal s3 "file close failed\n" fail else some (s3, pos 0))
    let copy : Option (S × ℤ) = (do
      (s2, fine) ← read_lines fuel s1 fd text_at size fname bytes (pos 0)
      if fine then closing s2 else some (s2, fail))
    if is_fail fd then give_up sys literal s1 "file open failed\n" fail else copy

  -- The loop of `main` over the names of the directory.
  unfoldable pub names_loop : ℕ → ℕ → S → ℤ → (buf text_at bytes : ℕ) → Option (S × ℤ)
  unfolding do_one_file
  names_loop zero fuel s fd buf text_at bytes = none
  names_loop (suc k) fuel s fd buf text_at bytes = do
    (s1, cnt) ← ece391_read sys s fd buf (pos 32)
    let again = names_loop k fuel s1 fd buf text_at bytes
    let one_file : Option (S × ℤ) = (do
      (s2, r) ← do_one_file fuel (poke s1 (at_index buf cnt) 0) text_at buf bytes
      if is_zero r then names_loop k fuel s2 fd buf text_at bytes else some (s2, pos 3))
    if is_zero cnt
        then some (s1, pos 0)
        else if is_fail cnt
        then give_up sys literal s1 "directory entry read failed\n" (pos 3)
        else if sys.memory s1 buf == b'.'
        then again
        else one_file

  unfoldable pub grep_main : ℕ → S → (buf text_at bytes : ℕ) → Option (S × ℤ)
  unfolding names_loop
  grep_main fuel s buf text_at bytes = do
    (s1, got) ← ece391_getargs sys s text_at (pos 1024)
    let opening : Option (S × ℤ) = (do
      (s2, fd) ← ece391_open sys s1 (literal ".")
      if is_fail fd
          then give_up sys literal s2 "directory open failed\n" (pos 2)
          else names_loop fuel fuel s2 fd buf text_at bytes)
    if is_zero got then opening else give_up sys literal s1 "could not read argument\n" (pos 3)
