-- ===== src/Keyboard.antt =====
-- student-distrib/devices/keyboard.c: the keys, their locks and the line buffer.
pub mod Codes
pub mod Line
use linux_kernel_os.Prelude.{
  ltb, ◌==◌, if◌then◌else◌, get_or, ℕ, ◌+◌, ◌-◌, Bool, true, false, not, ◌&&◌, ◌||◌, Option, none,
  some, List, [], ◌∷◌,
}
use linux_kernel_os.Memory.{Memory}
use linux_kernel_os.Strings.{newline}
use linux_kernel_os.Keyboard.Codes.{num_keys, key_codes, shift_codes, caps_codes, shift_caps_codes}
use linux_kernel_os.Console.{Console, clear, putc}

-- KEYBOARD_BUFFER_SIZE
abbrev pub buffer_size : ℕ
buffer_size = 128

-- The codes CAPSLOCK, SHIFT, CTRL, ALT, F1, F2 and F3 of the key tables.
abbrev pub caps_key : ℕ
caps_key = 0x4

abbrev pub shift_key : ℕ
shift_key = 0xf

abbrev pub ctrl_key : ℕ
ctrl_key = 0xe

abbrev pub alt_key : ℕ
alt_key = 0x5

abbrev pub backspace : ℕ
backspace = 8

-- `keyboard_buffer`, `keyboard_buffer_idx`, the four locks, `return_from_sys_write` and `testKey`.
-- An index behind the 128 bytes of the buffer stands for the memory behind it. `capsLock` is 0 or
-- all ones.
pub record Keyboard : Type 0 where
  pub buffer : ℕ → ℕ
  pub idx : ℕ
  pub caps_lock : Bool
  pub shift_lock : Bool
  pub ctrl_lock : Bool
  pub alt_lock : Bool
  pub line_ready : Bool
  pub test_key : ℕ

abbrev pub put : (ℕ → ℕ) → ℕ → ℕ → ℕ → ℕ
put f i v j = if i == j then v else f j

-- An index that would go below 0 is set to 0.
unfoldable pub add_char : Keyboard → ℕ → Keyboard
add_char k ch = if ch == backspace then record k { idx = k.idx - 1 } else record k {
  buffer = put k.buffer k.idx ch;
  idx = k.idx + 1;
  line_ready = if ch == newline then true else k.line_ready;
}

-- What a key press changes: the keyboard, the memory with the screen, and the console.
pub record Devices : Type 0 where
  pub keyboard : Keyboard
  pub memory : Memory
  pub console : Console

unfoldable pub echo : Devices → ℕ → Devices
echo d ch = let (m, c) = putc d.memory d.console ch in record d { memory = m; console = c }

-- `putc(code)` and `add_char_to_keyboard_buffer(code)`.
unfoldable pub type_char : Devices → ℕ → Devices
unfolding add_char
type_char d ch = let d' = echo d ch in record d' { keyboard = add_char d'.keyboard ch }

unfoldable pub clear_screen : Devices → Devices
clear_screen d = let (m, c) = clear d.memory d.console in record d { memory = m; console = c }

-- The key that stands at the scan code in the table that the locks select.
unfoldable pub code_of : Keyboard → ℕ → ℕ
code_of k scan =
    if k.shift_lock && k.caps_lock
    then get_or shift_caps_codes scan 0
    else if k.shift_lock
    then get_or shift_codes scan 0
    else if k.caps_lock
    then get_or caps_codes scan 0
    else get_or key_codes scan 0

-- The `default` case of the handler.
unfoldable pub default_key : Devices → ℕ → ℕ → Devices
unfolding type_char
default_key d scan key =
    if (key == backspace) && (d.keyboard.idx == 0)
    then d
    else if (scan == 0x26) && d.keyboard.ctrl_lock
    then clear_screen d
    else type_char d (code_of d.keyboard scan)

-- A tab is printed as four spaces, and four spaces are added to the buffer.
unfoldable pub tab_key : Devices → Devices
unfolding add_char
tab_key d =
    let d' = echo (echo (echo (echo d b' ') b' ') b' ') b' ' in
    record d' {
      keyboard = add_char (add_char (add_char (add_char d'.keyboard b' ') b' ') b' ') b' ';
    }

-- The `switch` over a key that is pressed, in the cases other than F1, F2 and F3.
unfoldable pub press : Devices → ℕ → ℕ → Devices
unfolding default_key tab_key
press d scan key =
    let k = d.keyboard in
    if key == b'\t'
    then tab_key d
    else if key == caps_key
    then record d { keyboard = record k { caps_lock = not k.caps_lock } }
    else if key == shift_key
    then record d { keyboard = record k { shift_lock = true } }
    else if key == ctrl_key
    then record d { keyboard = record k { ctrl_lock = true } }
    else if key == alt_key
    then record d { keyboard = record k { alt_lock = true } }
    else default_key d scan key

-- The terminal that F1, F2 and F3 switch to.
unfoldable pub terminal_of : ℕ → Option ℕ
terminal_of key = if (key == 1) || (key == 2) || (key == 3) then some (key - 1) else none

-- The test of the handler for a key that is pressed.
unfoldable pub is_pressed : Keyboard → ℕ → Bool
is_pressed k scan = ltb scan num_keys && not (get_or key_codes scan 0 == 0) && ltb k.idx buffer_size

-- The terminal that a scan code switches to, if it is that of F1, F2 or F3.
unfoldable pub switch_request : Keyboard → ℕ → Option ℕ
unfolding is_pressed terminal_of
switch_request k scan = if is_pressed k scan then terminal_of (get_or key_codes scan 0) else none

-- The first `switch`: the release of Shift, Ctrl and Alt.
unfoldable pub release : Keyboard → ℕ → Keyboard
release k scan =
    if (scan == 0xaa) || (scan == 0xb6)
    then record k { shift_lock = false }
    else if scan == 0x9d
    then record k { ctrl_lock = false }
    else if scan == 0xb8
    then record k { alt_lock = false }
    else k

-- What the handler does to the devices for a scan code that does not switch terminals. (The whole
-- handler, with `switchTerminal`, is `Switching.Keys.keyboard_handler`.)
unfoldable pub type_key : Devices → ℕ → Devices
unfolding release press is_pressed
type_key d scan =
    let d' = record d { keyboard = release d.keyboard scan } in
    let key = get_or key_codes scan 0 in
    if is_pressed d'.keyboard scan
    then (let pressed = press d' scan key in
        record pressed { keyboard = record pressed.keyboard { test_key = key } })
    else if scan == 0x0e
    then (let e = echo d' key in record e { keyboard = add_char e.keyboard backspace })
    else if scan == 0x1c
    then (let e = echo d' key in record e { keyboard = record e.keyboard { line_ready = true } })
    else d'

-- `while (!scancode) { scancode = inb(KEYBOARD_PORT); }`: the first answer of the port that is not 0.
unfoldable pub read_scancode : List ℕ → Option ℕ
read_scancode [] = none
read_scancode (a ∷ answers) = let rest = read_scancode answers in if a == 0 then rest else some a

-- `initKeyboard`. (`enable_irq` is in `Pic`.)
unfoldable pub init_keyboard : Devices → Devices
init_keyboard d =
    let d' = clear_screen d in
    record d' {
      keyboard = record d'.keyboard {
        caps_lock = false;
        shift_lock = false;
        ctrl_lock = false;
        alt_lock = false;
        idx = 0;
        line_ready = false;
      };
    }
