-- ===== src/Switching/Keys.antt =====
-- The keyboard's interrupt handler, `keyboardHandler` of student-distrib/devices/keyboard.c, with the
-- terminals that F1, F2 and F3 switch to.
use linux_kernel_os.Prelude.{get_or, ◌>>=◌, ℕ, Option, none, some, List}
use linux_kernel_os.Keyboard.Codes.{key_codes}
use linux_kernel_os.Keyboard.{release, switch_request, type_key, read_scancode}
use linux_kernel_os.Pic.{send_eoi}
use linux_kernel_os.Kernel.{Kernel, Frame}
use linux_kernel_os.Run.{returned}
use linux_kernel_os.Switching.{Switched, launched, with_pic, switch_terminal}

-- How the handler goes on when `switchTerminal` has come back: with `testKey` and the end of
-- interrupt, unless the processor has gone elsewhere.
unfoldable pub after_switch : ℕ → Kernel → Switched → Kernel
after_switch key k (launched (returned r)) =
    with_pic
      (record k {
        devices = record k.devices { keyboard = record k.devices.keyboard { test_key = key } };
      })
      (send_eoi k.pic 1)
after_switch key k s = k

-- The handler for the scan code that it has read.
unfoldable pub handle_key : Frame → Frame → Kernel → ℕ → Option (Kernel × Option Switched)
unfolding after_switch
handle_key f g k scan = elim (switch_request k.devices.keyboard scan) [
  | none ↦ some (with_pic (record k { devices = type_key k.devices scan }) (send_eoi k.pic 1), none)
  | some index ↦ do
    let released = record k {
      devices = record k.devices { keyboard = release k.devices.keyboard scan };
    }
    (k', s) ← switch_terminal f g released index
    some (after_switch (get_or key_codes scan 0) k' s, some s)
]

-- The handler, by the answers of the keyboard's port. `none` in the result stands for a key that
-- switches to no terminal.
unfoldable pub keyboard_handler :
    Frame → Frame → Kernel → List ℕ → Option (Kernel × Option Switched)
unfolding handle_key
keyboard_handler f g k answers = do scan ← read_scancode answers; handle_key f g k scan
