-- ===== src/Terminal/Write.antt =====
-- What `terminalWrite` of student-distrib/devices/terminal.c leaves alone.
use linux_kernel_os.Prelude.Int.{pos, is_fail}
use linux_kernel_os.Memory.{null}
use linux_kernel_os.Prelude.{
  ◌==◌, if◌then◌else◌, Bool-cases, ℕ, zero, suc, ◌+◌, ◌≤◌, ◌<◌, ◌≡◌, refl, sym, ◌∙◌, ◌≢◌, inl, inr,
  false, arith,
}
use linux_kernel_os.Memory.Write.{Apart}
use linux_kernel_os.Console.Cursor.{OnScreen, putc-OnScreen}
use linux_kernel_os.Console.Bounds.{screen_bytes, video_mem-putc, putc_outside}
use linux_kernel_os.Keyboard.{Devices, echo}
use linux_kernel_os.Terminal.{write_loop, terminal_write}

-- The cursor is on the screen, the screen is where it was, and so is the memory outside of it.
pub record Calm (d d' : Devices) : Type 0 where
  pub on : OnScreen d'.console
  pub place : d'.console.video_mem ≡ d.console.video_mem
  pub outside : (a : ℕ) → Apart d.console.video_mem screen_bytes a 1 → d'.memory a ≡ d.memory a

Calm-refl : (d : Devices) → OnScreen d.console → Calm d d
Calm-refl d on = record { on = on; place = refl; outside = λ a out. refl }

pub Calm-trans : (a b c : Devices) → Calm a b → Calm b c → Calm a c
Calm-trans a b c p q = record {
  on = q.on;
  place = q.place ∙ p.place;
  outside = λ x out. q.outside x (rw p.place out) ∙ p.outside x out;
}

echo-Calm : (d : Devices) (ch : ℕ) → OnScreen d.console → ch ≢ 8 → Calm d (echo d ch)
unfolding echo
echo-Calm d ch on plain = record {
  on = putc-OnScreen d.memory d.console ch on (λ e. absurd (plain e));
  place = video_mem-putc d.memory d.console ch;
  outside = λ a out. putc_outside d.memory d.console ch a on (λ e. absurd (plain e)) out;
}

write_loop-Calm :
    (r : ℕ) (d : Devices) (buf i written : ℕ)
    → OnScreen d.console
    → Apart d.console.video_mem screen_bytes (buf + i) r
    → ((j : ℕ) → i ≤ j → j < i + r → d.memory (buf + j) ≢ 8)
    → Calm d (write_loop r d buf i written).0
unfolding write_loop
write_loop-Calm zero d buf i written on out plain = Calm-refl d on
write_loop-Calm (suc r) d buf i written on out plain =
    let ch = d.memory (buf + i) in
    let w = if ch == 0 then written else written + 1 in
    let d' = if ch == 0 then d else echo d ch in
    let first : Calm d d' = elim (Bool-cases (ch == 0)) [
      | inl skipped ↦ rw skipped (Calm-refl d on)
      | inr shown ↦ rw shown (echo-Calm d ch on (plain i (omega arith) (omega arith)))
    ] in
    Calm-trans d d' _ first (
      write_loop-Calm r d' buf (i + 1) w first.on (rw first.place (ground (arith, out)))
        (λ j lo hi e.
          plain j (omega arith) (omega arith)
            (sym (first.outside (buf + j) (ground (arith, out))) ∙ e)))

-- Writing bytes without a backspace that lie outside of the screen.
pub terminal_write-Calm :
    (d : Devices) (buf n : ℕ)
    → buf ≢ 0
    → OnScreen d.console
    → Apart d.console.video_mem screen_bytes buf n
    → ((j : ℕ) → j < n → d.memory (buf + j) ≢ 8)
    → Calm d (terminal_write d buf (pos n)).0
unfolding terminal_write
terminal_write-Calm d buf n real on out plain =
    let there : (buf == null) ≡ false = ground (arith, real) in
    let start : buf + 0 ≡ buf = omega arith in
    rw there (write_loop-Calm n d buf 0 0 on (rw start out) (λ j lo hi. plain j (omega arith)))

is_fail-write_loop :
    (r : ℕ) (d : Devices) (buf i written : ℕ) → is_fail (write_loop r d buf i written).1 ≡ false
unfolding write_loop
is_fail-write_loop zero d buf i written = refl
is_fail-write_loop (suc r) d buf i written = is_fail-write_loop r _ buf (i + 1) _

pub is_fail-terminal_write :
    (d : Devices) (buf n : ℕ) → buf ≢ 0 → is_fail (terminal_write d buf (pos n)).1 ≡ false
unfolding terminal_write
is_fail-terminal_write d buf n real =
    let there : (buf == null) ≡ false = ground (arith, real) in
    rw there (is_fail-write_loop n d buf 0 0)
