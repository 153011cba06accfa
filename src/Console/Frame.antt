-- ===== src/Console/Frame.antt =====
-- The console on two memories that differ in a buffer outside of the screen.
use linux_kernel_os.Prelude.{Bool-cases, ℕ, zero, suc, ◌+◌, ◌*◌, ◌≤◌, ◌≡◌, inl, inr, arith}
use linux_kernel_os.Prelude.Int.{pos, lt_int}
use linux_kernel_os.Memory.{Memory}
use linux_kernel_os.Memory.Write.{Apart}
use linux_kernel_os.Console.{num_cols, num_rows, Console, scroll_loop, scroll_down, put_char, putc}
use linux_kernel_os.Console.Bounds.{screen_bytes, video_mem-put_char}

-- Two memories that agree outside of the `n` bytes from `p` on.
abbrev pub SameBut : ℕ → ℕ → Memory → Memory → Type 0
SameBut p n m m' = (a : ℕ) → Apart p n a 1 → m a ≡ m' a

scroll_loop-SameBut :
    (k : ℕ) (m m' : Memory) (p n base i : ℕ)
    → i + k ≤ num_rows * num_cols
    → Apart base screen_bytes p n
    → SameBut p n m m'
    → SameBut p n (scroll_loop k m base i) (scroll_loop k m' base i)
unfolding scroll_loop
scroll_loop-SameBut zero m m' p n base i h out same = same
scroll_loop-SameBut (suc k) m m' p n base i h out same =
    scroll_loop-SameBut k _ _ p n base (i + 1) (omega arith) out (λ a off.
      ground
        (arith, same a off, same (base + (i + num_cols) * 2), same (base + (i + num_cols) * 2 + 1)))

put_char-SameBut :
    (m m' : Memory) (c : Console) (ch p n : ℕ)
    → SameBut p n m m'
    → SameBut p n (put_char m c ch).0 (put_char m' c ch).0
unfolding put_char
put_char-SameBut m m' c ch p n same a off = ground (arith, same a off)

put_char_cursor :
    (m m' : Memory) (c : Console) (ch : ℕ) → (put_char m c ch).1 ≡ (put_char m' c ch).1
unfolding put_char
put_char_cursor m m' c ch = ground arith

-- The cursor does not depend on the memory.
pub putc_cursor : (m m' : Memory) (c : Console) (ch : ℕ) → (putc m c ch).1 ≡ (putc m' c ch).1
unfolding putc scroll_down
putc_cursor m m' c ch = ground (arith, put_char_cursor m m' c ch)

pub putc-SameBut :
    (m m' : Memory) (c : Console) (ch p n : ℕ)
    → Apart c.video_mem screen_bytes p n
    → SameBut p n m m'
    → SameBut p n (putc m c ch).0 (putc m' c ch).0
unfolding putc scroll_down
putc-SameBut m m' c ch p n out same =
    let cursor = put_char_cursor m m' c ch in
    let kept = put_char-SameBut m m' c ch p n same in
    elim (Bool-cases (lt_int (put_char m c ch).1.screen_y (pos num_rows))) [
      | inl on ↦ rw (← cursor, on) kept
      | inr off ↦
          rw (← cursor, off)
            (scroll_loop-SameBut 2000 (put_char m c ch).0 (put_char m' c ch).0 p n
              (put_char m c ch).1.video_mem 0 (omega arith) (rw (video_mem-put_char m c ch) out)
              kept)
    ]
