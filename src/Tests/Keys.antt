-- ===== src/Tests/Keys.antt =====
-- Keys: Tab in a line of 126 characters, and F2, which switches to the terminal 1.
use linux_kernel_os.Prelude.{◌<◌, ◌≡◌, refl, Option, none, some, [], ◌∷◌, arith}
use linux_kernel_os.Kernel.{Kernel}
use linux_kernel_os.Keyboard.{read_scancode}
use linux_kernel_os.Switching.{Switched}
use linux_kernel_os.Switching.Keys.{keyboard_handler}
use linux_kernel_os.Switching.Tab.{keyboard_handler-tab}
use linux_kernel_os.Tests.Devices.{devices, typed}
use linux_kernel_os.Tests.Processes.{kernel, frame}

abbrev typing : Kernel
typing = record kernel { devices = devices typed 126 }

keyboard_handler-tab_example :
    (k' : Kernel) × (keyboard_handler frame frame typing (0 ∷ 0x0f ∷ []) ≡ some (k', none))
    × (128 < k'.devices.keyboard.idx)
    × (k'.devices.keyboard.buffer 128 ≡ b' ')
unfolding read_scancode
keyboard_handler-tab_example =
    keyboard_handler-tab frame frame typing (0 ∷ 0x0f ∷ []) refl (omega arith) (omega arith)

-- What is left of a run.
abbrev state_of : Option (Kernel × Option Switched) → Kernel × Option Switched
state_of none = (typing, none)
state_of (some r) = r

abbrev switched : Kernel × Option Switched
switched = state_of (keyboard_handler frame frame typing (0x3c ∷ []))
