-- ===== src/Tests/Devices.antt =====
-- The devices at concrete states.
use linux_kernel_os.Prelude.Int.{pos}
use linux_kernel_os.Prelude.{◌==◌, if◌then◌else◌, ℕ, ◌≡◌, refl, inr, true, false, [], arith}
use linux_kernel_os.Memory.{Memory}
use linux_kernel_os.Console.{Console, putc}
use linux_kernel_os.Console.Cursor.{OnScreen, putc-OnScreen}
use linux_kernel_os.Console.Bounds.{putc_outside}
use linux_kernel_os.Keyboard.{Devices}
use linux_kernel_os.Terminal.{read_line, swap_pages}
use linux_kernel_os.Terminal.Switch.{swap_pages_back}
use linux_kernel_os.Terminal.ReadLine.{IsLine, delivered, read_line-newline, read_line_full}
use linux_kernel_os.Rtc.{Rtc, rtc_write}
use linux_kernel_os.Rtc.Frequency.{Programmed, rtc_write-Programmed}
use linux_kernel_os.Pic.{Pic, disable_irq}
use linux_kernel_os.Pic.Masks.{is_masked, IsPic, is_masked-disable_irq}
use linux_kernel_os.Strings.{newline}

-- The word 1024 at the address 100.
abbrev ram : Memory
ram a = if a == 101 then 4 else 0

-- The cursor in the last cell of the screen.
abbrev console : Console
console = record { video_mem = 0xb8000; screen_x = pos 79; screen_y = pos 24; sent = [] }

pub console-OnScreen : OnScreen console
console-OnScreen = record { x_ge = refl; x_lt = refl; y_ge = refl; y_lt = refl }

putc-OnScreen_example : OnScreen (putc ram console b'a').1
putc-OnScreen_example = putc-OnScreen ram console b'a' console-OnScreen (λ e. absurd (omega arith))

putc_outside_example : (putc ram console b'a').0 101 ≡ 4
putc_outside_example =
    putc_outside ram console b'a' 101 console-OnScreen (λ e. absurd (omega arith))
      (inr (omega arith))

-- A line buffer with a letter and a newline, and the index.
abbrev pub devices : (ℕ → ℕ) → ℕ → Devices
devices buffer idx = record {
  keyboard = record {
    buffer = buffer;
    idx = idx;
    caps_lock = false;
    shift_lock = false;
    ctrl_lock = false;
    alt_lock = false;
    line_ready = true;
    test_key = 0;
  };
  memory = ram;
  console = console;
}

abbrev pub typed : ℕ → ℕ
typed i = if i == 0 then b'a' else newline

typed-IsLine : IsLine typed 1
typed-IsLine = (refl, λ j h. ground arith)

read_line-newline_example :
    let (d, count) = read_line (devices typed 2) 500 in
    (count ≡ pos 2)
    × (d.memory ≡ delivered (devices typed 2) 500 2)
    × (d.keyboard.idx ≡ 0)
    × (d.keyboard.line_ready ≡ false)
read_line-newline_example = read_line-newline (devices typed 2) 500 1 typed-IsLine (omega arith)

read_line_full_example :
    let (d, count) = read_line (devices (λ i. b'a') 128) 500 in
    (count ≡ pos 128) × (d.memory ≡ delivered (devices (λ i. b'a') 128) 500 127)
read_line_full_example =
    read_line_full (devices (λ i. b'a') 128) 500 (λ j h e. absurd (omega arith))

abbrev pub clock : Rtc
clock = record { old_val = 15; interrupt_flag = false; sent = [] }

rtc_write-Programmed_example : rtc_write 0 0x20 ram clock 100 ≡ (Programmed 0x20 9 clock, pos 4)
rtc_write-Programmed_example =
    rtc_write-Programmed 0 0x20 ram clock 100 9 (λ e. absurd (omega arith)) (omega arith) refl

abbrev pub controllers : Pic
controllers = record { master_mask = 0xff; slave_mask = 0xfe; sent = [] }

controllers-IsPic : IsPic controllers
controllers-IsPic = (omega arith, omega arith)

is_masked-disable_irq_example : is_masked (disable_irq controllers 8) 8 ≡ false
is_masked-disable_irq_example =
    is_masked-disable_irq controllers 8 8 controllers-IsPic (omega arith) (omega arith)
      (omega arith)

swap_pages_back_example : swap_pages (swap_pages ram 0 1) 1 0 0xb8005 ≡ 0
swap_pages_back_example = swap_pages_back ram 0 1 5 (λ e. absurd (omega arith)) (omega arith)
