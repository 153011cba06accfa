-- ===== src/User/Pingpong.antt =====
-- The program of syscalls/ece391pingpong.c. Its `main` does not return: the model gives the state after
-- the first rounds of `while(1)`.
use Prim.Native.String.{String}
use linux_kernel_os.Prelude.{
  ◌==◌, if◌then◌else◌, ◌>>=◌, ℕ, zero, suc, ◌+◌, ◌%◌, ◌≤◌, ◌<◌, ◌≡◌, refl, Option, some, arith,
}
use linux_kernel_os.Prelude.Int.{ℤ, pos}
use linux_kernel_os.Memory.{Memory, store}
use linux_kernel_os.Args.{store32}
use linux_kernel_os.Memory.Write.{Apart}
use linux_kernel_os.User.{System, ece391_read, ece391_write, ece391_open}
use linux_kernel_os.User.Support.{ece391_fdputs}

abbrev pub buf_max : ℕ
buf_max = 81

-- The first column that is cleared, and how many are.
abbrev pub start_loop : ℕ
start_loop = 2

abbrev pub columns : ℕ
columns = 76

-- `buf[i]=' ';` in a loop, with the rounds that are left.
unfoldable pub spaces : ℕ → Memory → ℕ → Memory
spaces zero m p = m
spaces (suc k) m p = spaces k (store m p b' ') (p + 1)

unfoldable pub init_buffer : Memory → ℕ → Memory
init_buffer m buf =
    store
      (store (store (store (spaces buf_max m buf) (buf + 80) 0) (buf + 79) b'\n') (buf + 78) b'|')
      (buf + 1) b'|'

-- The buffer with the character in the column `j`.
unfoldable pub draw : Memory → ℕ → ℕ → ℕ → Memory
draw m buf j curchar = store (spaces columns m (buf + start_loop)) (buf + j) curchar

unfoldable pub next_char : ℕ → ℕ
next_char c = if c == b'Z' then b'A' else (c + 1) % 256

module _ {S : Type 0} (sys : System S) (literal : String → ℕ) (buf garbage : ℕ) where
  -- The body of both inner loops.
  unfoldable pub show_frame : S → ℤ → ℕ → ℕ → Option S
  show_frame s rtc_fd j curchar = do
    s1 ← ece391_fdputs sys (sys.put_memory s (draw (sys.memory s) buf j curchar)) (pos 1) buf
    (s2, ticked) ← ece391_read sys s1 rtc_fd garbage (pos 4)
    some s2

  -- The loop from the column `j` to the right, with the rounds that are left.
  unfoldable pub move_out : ℕ → S → ℤ → ℕ → ℕ → Option S
  move_out zero s rtc_fd j curchar = some s
  move_out (suc k) s rtc_fd j curchar = do
    s' ← show_frame s rtc_fd j curchar
    move_out k s' rtc_fd (j + 1) curchar

  -- The loop back to the left, whose column is that of the last of the rounds that are left.
  unfoldable pub bounce_back : ℕ → S → ℤ → ℕ → Option S
  bounce_back zero s rtc_fd curchar = some s
  bounce_back (suc k) s rtc_fd curchar = do
    s' ← show_frame s rtc_fd (k + start_loop) curchar
    bounce_back k s' rtc_fd curchar

  -- The first rounds of `while(1)`.
  unfoldable pub pingpong_rounds : ℕ → S → ℤ → ℕ → Option S
  pingpong_rounds zero s rtc_fd curchar = some s
  pingpong_rounds (suc k) s rtc_fd curchar = do
    s1 ← move_out columns s rtc_fd start_loop curchar
    s2 ← bounce_back columns s1 rtc_fd curchar
    pingpong_rounds k s2 rtc_fd (next_char curchar)

  -- `ret_val` is the address of the variable.
  unfoldable pub pingpong_main : ℕ → S → ℕ → Option S
  pingpong_main rounds s ret_val = do
    let s1 = sys.put_memory s (init_buffer (sys.memory s) buf)
    (s2, rtc_fd) ← ece391_open sys s1 (literal "rtc")
    (s3, written) ←
        ece391_write sys (sys.put_memory s2 (store32 (sys.memory s2) ret_val 32)) rtc_fd ret_val
          (pos 4)
    pingpong_rounds rounds s3 rtc_fd b'A'

-- The walls, the newline and the terminator of the buffer.
abbrev HasWalls : Memory → ℕ → Type 0
HasWalls m buf =
    (m buf ≡ b' ')
    × (m (buf + 1) ≡ b'|')
    × (m (buf + 78) ≡ b'|')
    × (m (buf + 79) ≡ b'\n')
    × (m (buf + 80) ≡ 0)

spaces_outside : (k : ℕ) (m : Memory) (p a : ℕ) → Apart p k a 1 → spaces k m p a ≡ m a
unfolding spaces
spaces_outside zero m p a out = refl
spaces_outside (suc k) m p a out = ground (arith, spaces_outside k (store m p b' ') (p + 1) a)

spaces_inside : (k : ℕ) (m : Memory) (p i : ℕ) → i < k → spaces k m p (p + i) ≡ b' '
unfolding spaces
spaces_inside zero m p i h = absurd (omega arith)
spaces_inside (suc k) m p zero h = ground (arith, spaces_outside k (store m p b' ') (p + 1) (p + 0))
spaces_inside (suc k) m p (suc i) h =
    let there : p + suc i ≡ p + 1 + i = omega arith in
    rw there (spaces_inside k (store m p b' ') (p + 1) i (omega arith))

-- The buffer is set up with its walls.
init_buffer-HasWalls : (m : Memory) (buf : ℕ) → HasWalls (init_buffer m buf) buf
unfolding init_buffer
init_buffer-HasWalls m buf =
    let start : buf + 0 ≡ buf = omega arith in
    let first : spaces buf_max m buf (buf + 0) ≡ b' ' =
      spaces_inside buf_max m buf 0 (omega arith) in
    let first' = rw start at first in ground (arith, first')

-- A picture keeps the walls, for a character between them.
draw-HasWalls :
    (m : Memory) (buf j c : ℕ)
    → start_loop ≤ j
    → j < start_loop + columns
    → HasWalls m buf
    → HasWalls (draw m buf j c) buf
unfolding draw
draw-HasWalls m buf j c lo hi walls =
    let kept = λ (a : ℕ). spaces_outside columns m (buf + start_loop) a in
    ground
      (arith, kept buf, kept (buf + 1), kept (buf + 78), kept (buf + 79), kept (buf + 80), walls)

-- It is the character in its column, between spaces.
draw_column :
    (m : Memory) (buf j c i : ℕ)
    → i < columns
    → draw m buf j c (buf + start_loop + i) ≡ (if i + start_loop == j then c else b' ')
unfolding draw
draw_column m buf j c i h = ground (arith, spaces_inside columns m (buf + start_loop) i h)
