-- ===== src/Terminal/ReadLine.antt =====
-- What `terminalRead` hands over once a line is ready.
use linux_kernel_os.Prelude.Int.{pos}
use linux_kernel_os.Keyboard.{buffer_size, Devices}
use linux_kernel_os.Prelude.{
  ◌==◌, Bool-cases, replicate, ℕ, zero, suc, ◌+◌, ◌-◌, ◌≤◌, ◌<◌, ◌≡◌, refl, ap, ◌∙◌, ◌≢◌, inl, inr,
  false, arith,
}
use linux_kernel_os.Memory.{Memory, store}
use linux_kernel_os.Memory.Write.{write_bytes}
use linux_kernel_os.Strings.{newline, zero_loop}
use linux_kernel_os.Strings.Laws.{line, zero_loop-write}
use linux_kernel_os.Memory.Copy.{bytes_at}
use linux_kernel_os.Terminal.{clear_keyboard_buffer, clear_passed_buffer, line_loop, read_line}

-- The line in the keyboard buffer is `n` characters long, its newline not counted.
abbrev pub IsLine : (ℕ → ℕ) → ℕ → Type 0
IsLine line n = (line n ≡ newline) × ((j : ℕ) → j < n → line j ≢ newline)

line_loop-newline :
    (r : ℕ) (line : ℕ → ℕ) (m : Memory) (buf i n : ℕ)
    → IsLine line n
    → i ≤ n
    → n < i + r
    → line_loop r line m buf i ≡ (write_bytes m (buf + i) (bytes_at line i (n + 1 - i)), n)
unfolding line_loop
line_loop-newline zero line m buf i n is from fuel = absurd (omega arith)
line_loop-newline (suc r) line m buf i n is from fuel = elim (Bool-cases (i == n)) [
  | inl here ↦
      let at : i ≡ n = ground arith in
      let one : n + 1 - n ≡ 1 = omega arith in rw (at, one) (ground (arith, is.0))
  | inr before ↦
      let more : n + 1 - i ≡ suc (n + 1 - (i + 1)) = ground arith in
      let to : buf + (i + 1) ≡ buf + i + 1 = omega arith in
      let m' : Memory = store m (buf + i) (line i) in
      let rest = line_loop-newline r line m' buf (i + 1) n is (ground arith) (omega arith) in
      rw more (
        ground (
          arith,
          is.1 i,
          rest,
          ap (λ (q : ℕ). write_bytes m' q (bytes_at line (i + 1) (n + 1 - (i + 1)))) to,
        ))
]

line_loop_full :
    (r : ℕ) (line : ℕ → ℕ) (m : Memory) (buf i : ℕ)
    → ((j : ℕ) → j < i + r → line j ≢ newline)
    → line_loop r line m buf i ≡ (write_bytes m (buf + i) (bytes_at line i r), i + r)
unfolding line_loop
line_loop_full zero line m buf i none_ends = ground arith
line_loop_full (suc r) line m buf i none_ends =
    let to : buf + (i + 1) ≡ buf + i + 1 = omega arith in
    let m' : Memory = store m (buf + i) (line i) in
    let rest = line_loop_full r line m' buf (i + 1) (λ j h. none_ends j (omega arith)) in
    ground (arith, none_ends i, rest, ap (λ (q : ℕ). write_bytes m' q (bytes_at line (i + 1) r)) to)

-- The user's buffer after a read of `n` bytes of the line: 128 bytes are cleared first.
abbrev pub delivered : Devices → ℕ → ℕ → Memory
delivered d buf n =
    write_bytes (write_bytes d.memory buf (replicate buffer_size 0)) buf
      (bytes_at d.keyboard.buffer 0 n)

cleared :
    (d : Devices) (buf : ℕ)
    → zero_loop buffer_size d.memory buf 0 ≡ write_bytes d.memory buf (replicate buffer_size 0)
cleared d buf =
    zero_loop-write buffer_size d.memory buf 0
    ∙ ap (λ (q : ℕ). write_bytes d.memory q (replicate buffer_size 0)) (omega arith)

-- With a line of `n` characters in the line buffer, fewer than 127, the read delivers them and the
-- newline, returns `n + 1`, and leaves the index of the line buffer at 0 and no line ready.
pub read_line-newline :
    (d : Devices) (buf n : ℕ)
    → IsLine d.keyboard.buffer n
    → n < 127
    → let (d', count) = read_line d buf in
      (count ≡ pos (n + 1))
      × (d'.memory ≡ delivered d buf (n + 1))
      × (d'.keyboard.idx ≡ 0)
      × (d'.keyboard.line_ready ≡ false)
unfolding read_line clear_passed_buffer clear_keyboard_buffer
read_line-newline d buf n is short =
    let to : buf + 0 ≡ buf = omega arith in
    let m = zero_loop buffer_size d.memory buf 0 in
    let loop = line_loop-newline 127 d.keyboard.buffer m buf 0 n is (omega arith) (omega arith) in
    let other : (n == 128) ≡ false = ground arith in
    let all : n + 1 - 0 ≡ n + 1 = omega arith in
    rw (loop, other, to, all)
      (
        refl,
        ap (λ (m : Memory). write_bytes m buf (bytes_at d.keyboard.buffer 0 (n + 1)))
            (cleared d buf),
        refl,
        refl,
      )

-- With no newline among the first 127 characters the read delivers those, but returns 128.
pub read_line_full :
    (d : Devices) (buf : ℕ)
    → ((j : ℕ) → j < 127 → d.keyboard.buffer j ≢ newline)
    → let (d', count) = read_line d buf in (count ≡ pos 128) × (d'.memory ≡ delivered d buf 127)
unfolding read_line clear_passed_buffer
read_line_full d buf none_ends =
    let to : buf + 0 ≡ buf = omega arith in
    let m = zero_loop buffer_size d.memory buf 0 in
    let loop = line_loop_full 127 d.keyboard.buffer m buf 0 none_ends in
    rw (loop, to)
      (
        refl,
        ap (λ (m : Memory). write_bytes m buf (bytes_at d.keyboard.buffer 0 127)) (cleared d buf),
      )
