-- ===== src/Print.antt =====
-- Formatted output in student-distrib/lib.c: `strrev`, `itoa`, `puts` and `printf`. The words on the
-- stack behind the format string are a function of their index, and the local buffer of a conversion
-- is an address.
pub mod Digits
pub mod Formats
pub mod Number
pub mod Pieces
pub mod Rendering
pub mod Reverse
pub mod Shown
use linux_kernel_os.Strings.{strlen}
use linux_kernel_os.Console.{Console, putc}
use linux_kernel_os.Memory.{Memory, store}
use linux_kernel_os.Prelude.{
  ltb, ◌==◌, if◌then◌else◌, ◌>>=◌, ℕ, zero, suc, ◌+◌, ◌-◌, ◌/◌, ◌%◌, ◌^◌, Bool, true, false, ◌&&◌,
  Option, none, some,
}

-- The loop of `strrev`, with the rounds that are left.
unfoldable pub strrev_loop : ℕ → Memory → ℕ → ℕ → ℕ → Memory
strrev_loop zero m s beg end = m
strrev_loop (suc k) m s beg end =
    let rest =
      strrev_loop k (store (store m (s + end) (m (s + beg))) (s + beg) (m (s + end))) s (beg + 1)
        (end - 1) in
    if ltb beg end then rest else m

-- An empty string has no round, here as for the `end` of -1 in the source.
unfoldable pub strrev : Memory → ℕ → Option Memory
strrev m s = do len ← strlen m s; some (strrev_loop len m s 0 (len - 1))

-- lookup[i], for the digits of a radix of at most 36
abbrev pub digit : ℕ → ℕ
digit i = if ltb i 10 then b'0' + i else b'A' + (i - 10)

-- The loop of `itoa`: the digits from the lowest on, and the end of what is written. A radix of at
-- least 2 has at most 32 digits in 32 bits.
unfoldable pub itoa_loop : ℕ → Memory → ℕ → ℕ → ℕ → Memory × ℕ
itoa_loop zero m newbuf newval radix = (m, newbuf)
itoa_loop (suc k) m newbuf newval radix =
    let rest =
      itoa_loop k (store m newbuf (digit (newval % radix))) (newbuf + 1) (newval / radix) radix in
    if newval == 0 then (m, newbuf) else rest

unfoldable pub itoa : Memory → ℕ → ℕ → ℕ → Option Memory
itoa m value buf radix =
    let (m', end) = itoa_loop 32 m buf value radix in
    if value == 0 then some (store (store m buf b'0') (buf + 1) 0) else strrev (store m' end 0) buf

-- The loop of `puts`, with the rounds that the `int32_t` index has left.
unfoldable pub puts_loop : ℕ → Memory → Console → ℕ → ℕ → Option (Memory × Console × ℕ)
puts_loop zero m c s index = none
puts_loop (suc k) m c s index =
    let (m', c') = putc m c (m (s + index)) in
    let rest = puts_loop k m' c' s (index + 1) in
    if m (s + index) == 0 then some (m, c, index) else rest

unfoldable pub puts : Memory → Console → ℕ → Option (Memory × Console × ℕ)
puts m c s = puts_loop (2 ^ 31) m c s 0

-- The loop that fills up to 8 digits for `%#x`, with the rounds left.
unfoldable pub fill_loop : ℕ → Memory → ℕ → ℕ → Memory
fill_loop zero m conv i = m
fill_loop (suc k) m conv i = fill_loop k (store m (conv + i) b'0') conv (i + 1)

-- Where `printf` is: in the text, or behind a `%`, with `alternate`. `next` is the index of the word
-- that `esp` is at.
pub data Place : Type 0 where
  text : Place
  conversion : Bool → Place

pub record Printing : Type 0 where
  pub memory : Memory
  pub console : Console
  pub buf : ℕ
  pub next : ℕ
  pub place : Place

-- `puts` inside of a conversion that takes one word, and `buf++`.
unfoldable pub print_string : Printing → ℕ → Option Printing
print_string p s = do
  (m, c, count) ← puts p.memory p.console s
  some (record p { memory = m; console = c; buf = p.buf + 1; next = p.next + 1; place = text })

-- `putc`, and `buf++`.
unfoldable pub print_char : Printing → ℕ → Printing
print_char p ch =
    let (m, c) = putc p.memory p.console ch in
    record p { memory = m; console = c; buf = p.buf + 1; place = text }

-- `%d`
unfoldable pub print_signed : ℕ → Printing → ℕ → Option Printing
print_signed conv p value =
    if ltb value (2 ^ 31)
    then (do m ← itoa p.memory value conv 10; print_string (record p { memory = m }) conv)
    else do
      m ← itoa (store p.memory conv b'-') (2 ^ 32 - value) (conv + 1) 10
      print_string (record p { memory = m }) conv

-- `%x` and `%#x`
unfoldable pub print_hex : ℕ → Printing → Bool → ℕ → Option Printing
print_hex conv p false value = do
  m ← itoa p.memory value conv 16
  print_string (record p { memory = m }) conv
print_hex conv p true value = do
  m ← itoa p.memory value (conv + 8) 16
  start ← strlen m (conv + 8)
  print_string (record p { memory = fill_loop (8 - start) m conv start }) (conv + start)

-- `%u`
unfoldable pub print_unsigned : ℕ → Printing → ℕ → Option Printing
print_unsigned conv p value = do
  m ← itoa p.memory value conv 10
  print_string (record p { memory = m }) conv

-- One turn of the loop of `printf`, or of the jump to `format_char_switch`. The `buf++` at the end of
-- the loop is taken even where a `%` stands in front of the terminator.
unfoldable pub printf_step : ℕ → (ℕ → ℕ) → Printing → Place → Option Printing
printf_step conv words p text =
    let ch = p.memory p.buf in
    if ch == b'%'
    then some (record p { buf = p.buf + 1; place = conversion false })
    else some (print_char p ch)
printf_step conv words p (conversion alternate) =
    let ch = p.memory p.buf in
    let word = words p.next in
    if ch == b'%'
    then some (print_char p b'%')
    else if ch == b'#'
    then some (record p { buf = p.buf + 1; place = conversion true })
    else if ch == b'x'
    then print_hex conv p alternate word
    else if ch == b'u'
    then print_unsigned conv p word
    else if ch == b'd'
    then print_signed conv p word
    else if ch == b'c'
    then some (record (print_char p (word % 256)) { next = p.next + 1 })
    else if ch == b's'
    then print_string p word
    else some (record p { buf = p.buf + 1; place = text })

abbrev pub is_text : Place → Bool
is_text text = true
is_text (conversion alternate) = false

-- The loop, for as many turns as there are addresses.
unfoldable pub printf_loop : ℕ → ℕ → (ℕ → ℕ) → Printing → Option Printing
printf_loop zero conv words p = none
printf_loop (suc k) conv words p =
    let rest = printf_step conv words p p.place >>= λ p'. printf_loop k conv words p' in
    if is_text p.place && (p.memory p.buf == 0) then some p else rest

-- The result is `buf - format`.
unfoldable pub printf : Memory → Console → ℕ → ℕ → (ℕ → ℕ) → Option (Memory × Console × ℕ)
printf m c conv format words = do
  p ←
      printf_loop (2 ^ 32) conv words
        (record { memory = m; console = c; buf = format; next = 0; place = text })
  some (p.memory, p.console, p.buf - format)
