-- ===== src/Console/Cursor.antt =====
-- Where the cursor can be.
use linux_kernel_os.Prelude.{
  ℕ, zero, suc, ◌+◌, ◌*◌, ◌/◌, ◌%◌, ◌<◌, ◌≡◌, refl, ◌≢◌, true, false, arith,
}
use linux_kernel_os.Prelude.Int.{ℤ, pos, negsuc, lt_int, minus}
use linux_kernel_os.Memory.{Memory, store}
use linux_kernel_os.Console.{num_cols, num_rows, Console, put_char, putc}

-- The cursor is on the screen.
pub record OnScreen (c : Console) : Type 0 where
  pub x_ge : lt_int c.screen_x (pos 0) ≡ false
  pub x_lt : lt_int c.screen_x (pos num_cols) ≡ true
  pub y_ge : lt_int c.screen_y (pos 0) ≡ false
  pub y_lt : lt_int c.screen_y (pos num_rows) ≡ true

-- The address of a cell on the screen.
abbrev pub cell_at : Console → ℕ → ℕ → ℕ
cell_at c column row = c.video_mem + (row * num_cols + column) * 2

-- A character that is not a line break or a backspace is stored at the cursor with its colour, and
-- the cursor goes to the next cell, in the next row behind the last column.
pub put_char-next :
    (m : Memory) (c : Console) (column row ch : ℕ)
    → c.screen_x ≡ pos column
    → c.screen_y ≡ pos row
    → column < num_cols
    → ch ≢ b'\n'
    → ch ≢ b'\r'
    → ch ≢ 8
    → put_char m c ch ≡ (
      store (store m (cell_at c column row) ch) (cell_at c column row + 1) (ch % 15 + 1),
      record c {
        screen_y = pos (row + (column + 1) / num_cols);
        screen_x = pos ((column + 1) % num_cols);
      },
    )
unfolding put_char
put_char-next m c column row ch x y h n1 n2 n3 = rw (x, y) (ground arith)

-- After a character the cursor is in a column of the screen, and in a row of it or just below.
put_char-columns :
    (m : Memory) (c : Console) (ch : ℕ)
    → OnScreen c
    → (ch ≡ 8 → c.screen_x ≡ pos 0 → c.screen_y ≡ pos 0)
    → let c' = (put_char m c ch).1 in
      (lt_int c'.screen_x (pos 0) ≡ false)
      × (lt_int c'.screen_x (pos num_cols) ≡ true)
      × (lt_int c'.screen_y (pos 0) ≡ false)
unfolding put_char
put_char-columns m c ch s safe = go c.screen_x c.screen_y refl refl
  where
    go :
        (x y : ℤ)
        → c.screen_x ≡ x
        → c.screen_y ≡ y
        → (lt_int (put_char m c ch).1.screen_x (pos 0) ≡ false)
          × (lt_int (put_char m c ch).1.screen_x (pos num_cols) ≡ true)
          × (lt_int (put_char m c ch).1.screen_y (pos 0) ≡ false)
    go (negsuc x) y ex ey = ground (arith, s.x_ge)
    go (pos x) (negsuc y) ex ey = ground (arith, s.y_ge)
    go (pos zero) (pos y) ex ey = rw (ex, ey) (ground (arith, safe, s.x_lt, ex, ey))
    go (pos (suc x)) (pos y) ex ey =
        let back : minus (pos (suc x)) 1 ≡ pos x = ground arith in
        rw (ex, ey, back) (ground (arith, s.x_lt, ex, ey))

-- With the cursor on the screen, every character but a backspace in the first column leaves it
-- there, the screen scrolling where it would leave it at the bottom. (At the top left a backspace
-- does nothing.)
pub putc-OnScreen :
    (m : Memory) (c : Console) (ch : ℕ)
    → OnScreen c
    → (ch ≡ 8 → c.screen_x ≡ pos 0 → c.screen_y ≡ pos 0)
    → OnScreen (putc m c ch).1
unfolding putc
putc-OnScreen m c ch s safe = ground (arith, put_char-columns m c ch s safe)
