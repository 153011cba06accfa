-- ===== src/Terminal/Switch.antt =====
-- Switching the screen to another terminal and back.
use linux_kernel_os.Prelude.{ℕ, ◌+◌, ◌<◌, ◌≡◌, ◌∙◌, ◌≢◌, arith}
use linux_kernel_os.Memory.{Memory}
use linux_kernel_os.Memory.Write.{Apart, write_bytes_outside}
use linux_kernel_os.Memory.Copy.{memcpy, bytes_at, length-bytes_at, memcpy-write, memcpy_byte}
use linux_kernel_os.Console.{video}
use linux_kernel_os.Terminal.{backup_page, swap_pages}

-- A copied page leaves every other page.
memcpy_other :
    (m : Memory) (dest src a : ℕ)
    → Apart dest 0x1000 src 0x1000
    → Apart dest 0x1000 a 1
    → memcpy m dest src 0x1000 a ≡ m a
memcpy_other m dest src a apart out =
    rw (memcpy-write m dest src 0x1000 apart)
      (write_bytes_outside m dest a (bytes_at m src 0x1000) (rw length-bytes_at out))

-- The copies of a switch from the terminal `a` to another terminal `b` and back leave each byte of the
-- 4 KB of the screen as it was before.
pub swap_pages_back :
    (m : Memory) (a b o : ℕ)
    → a ≢ b
    → o < 0x1000
    → swap_pages (swap_pages m a b) b a (video + o) ≡ m (video + o)
swap_pages_back m a b o ne h =
    let m1 = memcpy m (backup_page a) video 0x1000 in
    let m2 = memcpy m1 video (backup_page b) 0x1000 in
    let m3 = memcpy m2 (backup_page b) video 0x1000 in
    memcpy_byte m3 video (backup_page a) 0x1000 o (omega arith) h
    ∙ memcpy_other m2 (backup_page b) video (backup_page a + o) (omega arith) (omega arith)
    ∙ memcpy_other m1 video (backup_page b) (backup_page a + o) (omega arith) (omega arith)
    ∙ memcpy_byte m (backup_page a) video 0x1000 o (omega arith) h
