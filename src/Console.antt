-- ===== src/Console.antt =====
-- The console of student-distrib/lib.c: the text screen in the video memory, and the cursor.
use linux_kernel_os.Prelude.{
  leb, ◌==◌, if◌then◌else◌, ℕ, zero, suc, ◌+◌, ◌-◌, ◌*◌, ◌/◌, ◌%◌, ◌^◌, ◌&&◌, ◌||◌, List, ◌∷◌,
}
use linux_kernel_os.Prelude.Int.{
  ℤ, pos, negsuc, lt_int, uint32, is_zero, plus, minus, add_int, div_int, mod_int, times,
}
use linux_kernel_os.Memory.{Memory, store}
use linux_kernel_os.Ports.{Out, outb}
pub mod Bounds
pub mod Cursor
pub mod Frame

-- VIDEO, NUM_COLS, NUM_ROWS and ATTRIB
abbrev pub video : ℕ
video = 0xb8000

abbrev pub num_cols : ℕ
num_cols = 80

abbrev pub num_rows : ℕ
num_rows = 25

abbrev pub attrib : ℕ
attrib = 0x7

-- `video_mem`, `screen_x`, `screen_y`, and the writes to the cursor's ports, the latest first.
pub record Console : Type 0 where
  pub video_mem : ℕ
  pub screen_x : ℤ
  pub screen_y : ℤ
  pub sent : List Out

-- set_video_memory_lib
unfoldable pub set_video_memory : Console → (terminal current : ℕ) → Console
set_video_memory c terminal current =
    if terminal == current
    then record c { video_mem = video }
    else record c { video_mem = video + 0x1000 * (terminal + 1) }

-- `setCursor`: the position is cut to 16 bits and sent a byte at a time.
unfoldable pub set_cursor : Console → Console
set_cursor c =
    let position = uint32 (add_int (times c.screen_y num_cols) c.screen_x) % 2 ^ 16 in
    record c {
      sent =
          outb (position / 2 ^ 8) 0x3d5
          ∷ outb 0xe 0x3d4
          ∷ outb position 0x3d5
          ∷ outb 0xf 0x3d4
          ∷ c.sent;
    }

-- `video_mem + (offset << 1)`; an offset before the start of the screen gives an address before the
-- video memory.
abbrev pub cell : Console → ℤ → ℕ
cell c (pos n) = c.video_mem + n * 2
cell c (negsuc n) = c.video_mem - (n + 1) * 2

-- NUM_COLS * screen_y + screen_x
abbrev pub position : Console → ℤ
position c = add_int (times c.screen_y num_cols) c.screen_x

-- The loop of `clear`, over the cells from `i` on.
unfoldable pub clear_loop : ℕ → Memory → ℕ → ℕ → Memory
clear_loop zero m base i = m
clear_loop (suc k) m base i =
    clear_loop k (store (store m (base + i * 2) b' ') (base + i * 2 + 1) attrib) base (i + 1)

unfoldable pub clear : Memory → Console → Memory × Console
unfolding set_cursor
clear m c = (
  clear_loop (num_rows * num_cols) m c.video_mem 0,
  set_cursor (record c { screen_x = pos 0; screen_y = pos 0 }),
)

-- The loop of `scrollDown`, over the cells from `i` on. The last row gets spaces, and keeps its
-- attributes.
unfoldable pub scroll_loop : ℕ → Memory → ℕ → ℕ → Memory
scroll_loop zero m base i = m
scroll_loop (suc k) m base i =
    let moved = store m (base + i * 2) (m (base + (i + num_cols) * 2)) in
    let m' =
      if leb ((num_rows - 1) * num_cols) i
      then store m (base + i * 2) b' '
      else store moved (base + i * 2 + 1) (moved (base + (i + num_cols) * 2 + 1)) in
    scroll_loop k m' base (i + 1)

unfoldable pub scroll_down : Memory → Console → Memory × Console
scroll_down m c = (
  scroll_loop (num_rows * num_cols) m c.video_mem 0,
  record c { screen_x = pos 0; screen_y = pos (num_rows - 1) },
)

-- The `switch` of `putc`.
unfoldable pub put_char : Memory → Console → ℕ → Memory × Console
put_char m c ch =
    if (ch == b'\n') || (ch == b'\r')
    then (m, record c { screen_y = plus c.screen_y 1; screen_x = pos 0 })
    else if ch == 8
    then (if is_zero c.screen_x && is_zero c.screen_y
        then (m, c)
        else (let x = minus c.screen_x 1 in
            let c' = record c {
              screen_y = add_int c.screen_y (div_int x num_cols);
              screen_x = mod_int x num_cols;
            } in
            (store m (cell c' (position c')) b' ', c')))
    else (let x = plus c.screen_x 1 in
        (
          store (store m (cell c (position c)) ch) (cell c (position c) + 1) (ch % 15 + 1),
          record c {
            screen_y = add_int c.screen_y (div_int x num_cols);
            screen_x = mod_int x num_cols;
          },
        ))

unfoldable pub putc : Memory → Console → ℕ → Memory × Console
unfolding set_cursor scroll_down
putc m c ch =
    let (m', c') = put_char m c ch in
    let (m'', c'') = if lt_int c'.screen_y (pos num_rows) then (m', c') else scroll_down m' c' in
    (m'', set_cursor c'')
