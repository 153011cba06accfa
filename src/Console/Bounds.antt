-- ===== src/Console/Bounds.antt =====
-- Which bytes the console writes.
use linux_kernel_os.Prelude.{
  Bool-cases, ℕ, zero, suc, ◌+◌, ◌*◌, ◌≤◌, ◌≡◌, refl, ◌∙◌, inl, inr, arith,
}
use linux_kernel_os.Prelude.Int.{ℤ, pos, negsuc, lt_int, minus}
use linux_kernel_os.Memory.{Memory}
use linux_kernel_os.Memory.Write.{Apart}
use linux_kernel_os.Console.{
  num_cols, num_rows, Console, clear_loop, clear, scroll_loop, scroll_down, put_char, putc,
}
use linux_kernel_os.Console.Cursor.{OnScreen}

abbrev pub screen_bytes : ℕ
screen_bytes = 4000

scroll_loop_outside :
    (k : ℕ) (m : Memory) (base i a : ℕ)
    → i + k ≤ num_rows * num_cols
    → Apart base screen_bytes a 1
    → scroll_loop k m base i a ≡ m a
unfolding scroll_loop
scroll_loop_outside zero m base i a h out = refl
scroll_loop_outside (suc k) m base i a h out =
    scroll_loop_outside k _ base (i + 1) a (omega arith) out ∙ ground arith

clear_loop_outside :
    (k : ℕ) (m : Memory) (base i a : ℕ)
    → i + k ≤ num_rows * num_cols
    → Apart base screen_bytes a 1
    → clear_loop k m base i a ≡ m a
unfolding clear_loop
clear_loop_outside zero m base i a h out = refl
clear_loop_outside (suc k) m base i a h out =
    clear_loop_outside k _ base (i + 1) a (omega arith) out ∙ ground arith

put_char_outside :
    (m : Memory) (c : Console) (ch a : ℕ)
    → OnScreen c
    → (ch ≡ 8 → c.screen_x ≡ pos 0 → c.screen_y ≡ pos 0)
    → Apart c.video_mem screen_bytes a 1
    → (put_char m c ch).0 a ≡ m a
unfolding put_char
put_char_outside m c ch a s safe out = go c.screen_x c.screen_y refl refl
  where
    go : (x y : ℤ) → c.screen_x ≡ x → c.screen_y ≡ y → (put_char m c ch).0 a ≡ m a
    go (negsuc x) y ex ey = ground (arith, s.x_ge)
    go (pos x) (negsuc y) ex ey = ground (arith, s.y_ge)
    go (pos zero) (pos y) ex ey = rw (ex, ey) (ground (arith, safe, s.y_lt, ex, ey))
    go (pos (suc x)) (pos y) ex ey =
        let back : minus (pos (suc x)) 1 ≡ pos x = ground arith in
        rw (ex, ey, back) (ground (arith, s.x_lt, s.y_lt, ex, ey))

pub video_mem-put_char :
    (m : Memory) (c : Console) (ch : ℕ) → (put_char m c ch).1.video_mem ≡ c.video_mem
unfolding put_char
video_mem-put_char m c ch = ground arith

-- The screen stays where it is.
pub video_mem-putc : (m : Memory) (c : Console) (ch : ℕ) → (putc m c ch).1.video_mem ≡ c.video_mem
unfolding putc put_char scroll_down
video_mem-putc m c ch = ground arith

-- With the cursor on the screen, and no backspace in the first column, `putc` changes no byte outside
-- the 4000 bytes of the screen.
pub putc_outside :
    (m : Memory) (c : Console) (ch a : ℕ)
    → OnScreen c
    → (ch ≡ 8 → c.screen_x ≡ pos 0 → c.screen_y ≡ pos 0)
    → Apart c.video_mem screen_bytes a 1
    → (putc m c ch).0 a ≡ m a
unfolding putc
putc_outside m c ch a s safe out =
    let kept = put_char_outside m c ch a s safe out in
    let c' = (put_char m c ch).1 in
    let scrolled =
      scroll_loop_outside 2000 (put_char m c ch).0 c'.video_mem 0 a (omega arith)
        (rw (video_mem-put_char m c ch) out) in
    elim (Bool-cases (lt_int c'.screen_y (pos num_rows))) [
      | inl on ↦ rw on kept
      | inr off ↦ rw off (scrolled ∙ kept)
    ]

-- `clear` changes no byte outside the 4000 bytes of the screen, and leaves the cursor on the
-- screen.
pub clear_outside :
    (m : Memory) (c : Console) (a : ℕ)
    → Apart c.video_mem screen_bytes a 1
    → ((clear m c).0 a ≡ m a) × OnScreen (clear m c).1
unfolding clear
clear_outside m c a out =
    (clear_loop_outside 2000 m c.video_mem 0 a (omega arith) out, ground arith)
