-- ===== src/Switching/Lines.antt =====
-- The line buffers under the keys: `keyboardHandler` of student-distrib/devices/keyboard.c with
-- `switchTerminal` and `switchScreen` of student-distrib/devices/terminal.c.
use linux_kernel_os.Prelude.{ℕ, ◌≤◌, ◌<◌, Option, none, some}
use linux_kernel_os.Keyboard.{Keyboard, Devices}
use linux_kernel_os.Terminal.{Terminals}
use linux_kernel_os.Kernel.{Kernel}
use linux_kernel_os.Switching.{max_terminal}

-- The index of the line buffer and those that are kept for the terminals are at most `bound`.
abbrev pub IsWithin : ℕ → Devices → Terminals → Type 0
IsWithin bound d t =
    (d.keyboard.idx ≤ bound)
    × ((i : ℕ) → i < max_terminal → (t.available i).keyboard_buffer_idx ≤ bound)

abbrev Lines : ℕ → Kernel → Type 0
Lines bound k = IsWithin bound k.devices k.terminals

-- What holds of the result, if there is one.
abbrev Holds {ℓ} : {A : Type ℓ} → (A → Type 0) → Option A → Type 0
Holds P none = Unit
Holds P (some a) = P a

module _ (bound : ℕ) where
  abbrev After {ℓ} : {A : Type ℓ} → Kernel × A → Type 0
  After (k, a) = Lines bound k
