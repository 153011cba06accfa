-- ===== src/Terminal.antt =====
-- student-distrib/devices/terminal.c: reading a line, writing, and the switch of the screen between
-- the three terminals. (`switchTerminal`, which also runs shells, is in Switching.)
pub mod ReadLine
pub mod Switch
pub mod Write
use linux_kernel_os.Prelude.{
  ◌==◌, if◌then◌else◌, ◌>>=◌, ℕ, zero, suc, ◌+◌, ◌-◌, ◌*◌, ◌^◌, Bool, false, ◌||◌, Option, none,
  some, List, [], ◌∷◌,
}
use linux_kernel_os.Prelude.Int.{ℤ, pos, negsuc, fail, lt_int}
use linux_kernel_os.Memory.{Memory, null, store}
use linux_kernel_os.Strings.{newline, zero_loop}
use linux_kernel_os.Memory.Copy.{memcpy}
use linux_kernel_os.Console.{video, set_cursor}
use linux_kernel_os.Keyboard.{
  buffer_size, Keyboard, put, Devices, echo, clear_screen, switch_request, type_key,
}

unfoldable pub terminal_open : ℤ
terminal_open = pos 0

unfoldable pub terminal_close : ℤ
terminal_close = pos 0

-- `clear_buffer(CLR_KEYBOARD_BUFFER)`: the loop over the indices below `n`.
unfoldable pub clear_keyboard_loop : ℕ → (ℕ → ℕ) → (ℕ → ℕ)
clear_keyboard_loop zero f = f
clear_keyboard_loop (suc n) f = put (clear_keyboard_loop n f) n 0

unfoldable pub clear_keyboard_buffer : Keyboard → Keyboard
clear_keyboard_buffer k = record k { buffer = clear_keyboard_loop buffer_size k.buffer; idx = 0 }

-- `clear_buffer(CLR_TERMINAL_BUFFER)`, which clears 128 bytes at `passed_in_buffer`, and the index.
unfoldable pub clear_passed_buffer : Devices → ℕ → Devices
clear_passed_buffer d buf = record d {
  memory = zero_loop buffer_size d.memory buf 0;
  keyboard = record d.keyboard { idx = 0 };
}

-- The copy of the line, with the rounds that are left to 127, and the index at which it stops.
unfoldable pub line_loop : ℕ → (ℕ → ℕ) → Memory → ℕ → ℕ → Memory × ℕ
line_loop zero line m buf i = (m, i)
line_loop (suc r) line m buf i =
    let m' = store m (buf + i) (line i) in
    let rest = line_loop r line m' buf (i + 1) in if line i == newline then (m', i) else rest

-- `terminalRead` from the end of its wait on.
unfoldable pub read_line : Devices → ℕ → Devices × ℤ
read_line d buf =
    let d' = clear_passed_buffer d buf in
    let (m, i) = line_loop (buffer_size - 1) d'.keyboard.buffer d'.memory buf 0 in
    let m' = if i == buffer_size then store m (buf + i) newline else m in
    let k = clear_keyboard_buffer (record d'.keyboard { line_ready = false }) in
    (record d' { memory = m'; keyboard = k }, pos (i + 1))

-- `while (return_from_sys_write == 0) { }`: keys come in, by the scan codes of their interrupts, until
-- a line is ready. The scan codes that are left come after the wait; `none` is a wait that goes on.
-- A key that switches terminals takes the processor to another stack, where this wait does not end:
-- that is `none` too.
unfoldable pub wait_line : Devices → List ℕ → Option (Devices × List ℕ)
wait_line d [] = if d.keyboard.line_ready then some (d, []) else none
wait_line d (s ∷ scans) =
    let rest = wait_line (type_key d s) scans in
    let stays : Option (Devices × List ℕ) = elim (switch_request d.keyboard s) [
      | none ↦ rest
      | some index ↦ none
    ] in
    if d.keyboard.line_ready then some (d, s ∷ scans) else stays

unfoldable pub terminal_read : Devices → List ℕ → ℕ → ℤ → Option (Devices × List ℕ × ℤ)
terminal_read d scans buf nbytes =
    if (buf == null) || lt_int nbytes (pos 0)
    then some (d, scans, fail)
    else do (d', scans') ← wait_line d scans; let (d'', n) = read_line d' buf; some (d'', scans', n)

-- The loop of `terminalWrite` from index `i`, with the rounds that are left, and the bytes written.
unfoldable pub write_loop : ℕ → Devices → ℕ → ℕ → ℕ → Devices × ℤ
write_loop zero d buf i written = (d, pos written)
write_loop (suc r) d buf i written =
    let ch = d.memory (buf + i) in
    write_loop r (if ch == 0 then d else echo d ch) buf (i + 1)
      (if ch == 0 then written else written + 1)

unfoldable pub terminal_write : Devices → ℕ → ℤ → Devices × ℤ
terminal_write d buf (pos nbytes) = if buf == null then (d, fail) else write_loop nbytes d buf 0 0
terminal_write d buf (negsuc n) = if buf == null then (d, fail) else (d, pos 0)

-- terminal_info_t
pub record TerminalInfo : Type 0 where
  pub terminal_buffer : ℕ → ℕ
  pub keyboard_buffer : ℕ → ℕ
  pub keyboard_buffer_idx : ℕ
  pub x : ℤ
  pub y : ℤ
  pub in_use : Bool
  pub terminal_num : ℕ

-- `available_terminals`, `currentTerminal` and `terminal_buffer`.
pub record Terminals : Type 0 where
  pub available : ℕ → TerminalInfo
  pub current : ℕ
  pub terminal_buffer : ℕ → ℕ

-- `strcpy` between buffers that are arrays of their own.
unfoldable pub copy_buffer : ℕ → (ℕ → ℕ) → (ℕ → ℕ) → ℕ → Option (ℕ → ℕ)
copy_buffer zero dest src i = none
copy_buffer (suc r) dest src i =
    let rest = copy_buffer r (put dest i (src i)) src (i + 1) in
    if (src i == 0) || (src i == newline) then some (put dest i 0) else rest

-- VIDEO + _4KB * (terminal_num + 1)
abbrev pub backup_page : ℕ → ℕ
backup_page n = video + 0x1000 * (n + 1)

-- What `switchScreen` copies: the screen to the page of the old terminal, and the page of the new one
-- to the screen.
abbrev pub swap_pages : Memory → ℕ → ℕ → Memory
swap_pages m old new =
    memcpy (memcpy m (backup_page old) video 0x1000) video (backup_page new) 0x1000

abbrev pub put_terminal : (ℕ → TerminalInfo) → ℕ → TerminalInfo → ℕ → TerminalInfo
put_terminal f i v j = if i == j then v else f j

unfoldable pub switch_screen : Devices → Terminals → ℕ → ℕ → Option (Devices × Terminals)
switch_screen d t from to = do
  let k = d.keyboard
  let old = t.available from
  typed ← copy_buffer (2 ^ 31) old.keyboard_buffer k.buffer 0
  shown ← copy_buffer (2 ^ 31) old.terminal_buffer t.terminal_buffer 0
  let saved = record old {
    x = d.console.screen_x;
    y = d.console.screen_y;
    keyboard_buffer_idx = k.idx;
    keyboard_buffer = typed;
    terminal_buffer = shown;
  }
  let t' = record t { available = put_terminal t.available from saved }
  let new = t'.available to
  let m = swap_pages d.memory old.terminal_num new.terminal_num
  let c = set_cursor (record d.console { screen_x = new.x; screen_y = new.y })
  typed' ← copy_buffer (2 ^ 31) k.buffer new.keyboard_buffer 0
  shown' ← copy_buffer (2 ^ 31) t.terminal_buffer new.terminal_buffer 0
  some (
    record d {
      memory = m;
      console = c;
      keyboard = record k { buffer = typed'; idx = new.keyboard_buffer_idx };
    },
    record t' { terminal_buffer = shown' },
  )

-- The loop of `initTerminals`, over the terminals below `n`: each starts out of use, and its backup
-- page is a copy of the cleared screen. The buffers hold what the stack held, `garbage`.
unfoldable pub init_loop : ℕ → Memory → (ℕ → TerminalInfo) → (ℕ → ℕ) → Memory × (ℕ → TerminalInfo)
init_loop zero m f garbage = (m, f)
init_loop (suc n) m f garbage =
    let (m', f') = init_loop n m f garbage in
    let fresh : TerminalInfo = record {
      terminal_buffer = garbage;
      keyboard_buffer = garbage;
      keyboard_buffer_idx = 0;
      x = pos 0;
      y = pos 0;
      in_use = false;
      terminal_num = n;
    } in
    (memcpy m' (video + 0x1000 * (n + 1)) video 0x1000, put_terminal f' n fresh)

unfoldable pub init_terminals : Devices → Terminals → (ℕ → ℕ) → Devices × Terminals
init_terminals d t garbage =
    let d' = clear_screen d in
    let (m, f) = init_loop 3 d'.memory t.available garbage in
    (record d' { memory = m }, record t { current = 0; available = f })
