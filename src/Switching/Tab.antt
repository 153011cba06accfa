-- ===== src/Switching/Tab.antt =====
-- Tab in a line buffer that is nearly full: `keyboardHandler` of student-distrib/devices/keyboard.c.
use linux_kernel_os.Prelude.{◌>>=◌, ap, ◌∙◌, ℕ, ◌<◌, ◌≡◌, refl, Option, none, some, List, arith}
use linux_kernel_os.Keyboard.Codes.{key_codes}
use linux_kernel_os.Keyboard.{
  buffer_size, Keyboard, add_char, terminal_of, switch_request, type_key, read_scancode,
}
use linux_kernel_os.Keyboard.Line.{keyboard-type_key_tab}
use linux_kernel_os.Pic.{send_eoi}
use linux_kernel_os.Kernel.{Kernel, Frame}
use linux_kernel_os.Switching.{with_pic}
use linux_kernel_os.Switching.Keys.{handle_key, keyboard_handler}

-- A key that switches to no terminal.
handle_key-type_key :
    (f g : Frame) (k : Kernel) (scan : ℕ)
    → switch_request k.devices.keyboard scan ≡ none
    → handle_key f g k scan
      ≡ some (with_pic (record k { devices = type_key k.devices scan }) (send_eoi k.pic 1), none)
unfolding handle_key
handle_key-type_key f g k scan typed = rw (handle_key, typed) refl

switch_request-tab : (k : Keyboard) → switch_request k 0x0f ≡ none
unfolding switch_request terminal_of key_codes
switch_request-tab k = ground arith

-- With 125 to 127 characters in the line buffer, Tab stores spaces behind it: the handler comes
-- back, the index passes the end of the buffer and the byte at index 128 is written.
pub keyboard_handler-tab :
    (f g : Frame) (k : Kernel) (answers : List ℕ)
    → read_scancode answers ≡ some 0x0f
    → 124 < k.devices.keyboard.idx
    → k.devices.keyboard.idx < buffer_size
    → (k' : Kernel) × (keyboard_handler f g k answers ≡ some (k', none))
      × (buffer_size < k'.devices.keyboard.idx)
      × (k'.devices.keyboard.buffer buffer_size ≡ b' ')
unfolding keyboard_handler add_char
keyboard_handler-tab f g k answers read lo hi =
    let typed = keyboard-type_key_tab k.devices hi in
    let run = handle_key-type_key f g k 0x0f (switch_request-tab k.devices.keyboard) in
    (
      with_pic (record k { devices = type_key k.devices 0x0f }) (send_eoi k.pic 1),
      ap (λ (o : Option ℕ). o >>= handle_key f g k) read ∙ run,
      rw typed (ground arith),
      rw typed (ground arith),
    )
