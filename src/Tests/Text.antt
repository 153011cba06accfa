-- ===== src/Tests/Text.antt =====
-- The string routines on a short text.
use linux_kernel_os.Console.{Console}
use linux_kernel_os.Prelude.Int.{pos}
use linux_kernel_os.Prelude.{
  ltb, leb, ◌==◌, if◌then◌else◌, get_or, ℕ, ◌-◌, ◌^◌, ◌<◌, ◌≡◌, refl, ◌↔◌, inl, inr, ◌&&◌, some,
  List, [], ◌∷◌, codes, arith,
}
use linux_kernel_os.Memory.{Memory}
use linux_kernel_os.Strings.{strncmp, strncpy, IsString}
use linux_kernel_os.Console.Frame.{SameBut}
use linux_kernel_os.Print.Formats.{printf-rendered}
use linux_kernel_os.Print.Rendering.{rendered, IsFormat}
use linux_kernel_os.Print.Shown.{put_all}
use linux_kernel_os.Print.Number.{numeral, digits, itoa-numeral}
use linux_kernel_os.Print.{text, itoa, printf}
use linux_kernel_os.Console.Cursor.{OnScreen}
use linux_kernel_os.Strings.Laws.{strncpy-write}
use linux_kernel_os.Strings.Compare.{IsBytes, strncmp-take}
use linux_kernel_os.Memory.Write.{take, write_bytes}

-- "hi" at the address 100, and "ho" at the address 200.
abbrev texts : Memory
texts a =
    if a == 100
    then b'h'
    else if a == 101
    then b'i'
    else if a == 200
    then b'h'
    else if a == 201
    then b'o'
    else 0

abbrev hi : List ℕ
hi = b'h' ∷ b'i' ∷ []

abbrev ho : List ℕ
ho = b'h' ∷ b'o' ∷ []

hi-IsString : IsString texts 100 hi
hi-IsString = ground arith

ho-IsString : IsString texts 200 ho
ho-IsString = ground arith

texts-IsBytes : IsBytes texts
texts-IsBytes a = ground arith

strncpy-write_example :
    strncpy texts 300 100 3 ≡ some (write_bytes texts 300 (b'h' ∷ b'i' ∷ 0 ∷ 0 ∷ []))
strncpy-write_example =
    strncpy-write texts 300 100 3 hi hi-IsString (inr (omega arith)) (omega arith)

strncmp-take_example : (strncmp texts 100 200 1 ≡ pos 0) ↔ (take 1 hi ≡ take 1 ho)
strncmp-take_example = strncmp-take texts 100 200 texts-IsBytes 1 hi ho hi-IsString ho-IsString

-- The cursor in the third row; the screen is far behind the texts.
abbrev screen : Console
screen = record { video_mem = 0xb8000; screen_x = pos 5; screen_y = pos 2; sent = [] }

screen-OnScreen : OnScreen screen
screen-OnScreen = record { x_ge = refl; x_lt = refl; y_ge = refl; y_lt = refl }

-- A format, and the text "ok" for its `%s`.
abbrev format : List ℕ
format = codes "a%d %#x %u%%%c%s"

abbrev arguments : ℕ → ℕ
arguments i =
    if i == 0
    then 2 ^ 32 - 42
    else if i == 1
    then 255
    else if i == 2
    then 7
    else if i == 3
    then b'!'
    else 300

abbrev argument_texts : ℕ → List ℕ
argument_texts i = if i == 4 then codes "ok" else []

abbrev formats : Memory
formats a =
    if leb 300 a && ltb a 302
    then get_or (codes "ok") (a - 300) 0
    else if leb 500 a && ltb a 520
    then get_or format (a - 500) 0
    else 0

format-IsFormat : IsFormat 0xb8000 400 formats arguments argument_texts text 0 format
unfolding IsFormat
format-IsFormat = ground arith

arguments-lt : (i : ℕ) → arguments i < 2 ^ 32
arguments-lt i = ground arith

format-IsString : IsString formats 500 format
format-IsString = ground arith

format-rendered : rendered arguments argument_texts text 0 format ≡ codes "a-42 000000FF 7%!ok"
unfolding rendered digits
format-rendered = refl

printf-rendered_example :
    let shown = put_all formats screen (rendered arguments argument_texts text 0 format) in
    (m' : Memory) × (printf formats screen 400 500 arguments ≡ some (m', shown.1, 16))
    × SameBut 400 64 shown.0 m'
printf-rendered_example =
    printf-rendered 0xb8000 400 arguments argument_texts formats (inr (omega arith)) arguments-lt
      screen 500 format screen-OnScreen refl format-IsString (inr (omega arith), inl (omega arith))
      format-IsFormat (omega arith)

itoa-numeral_example :
    (m' : Memory) × (itoa texts 255 300 16 ≡ some m')
    × IsString m' 300 (digits 255 16)
    × (numeral 16 0 (digits 255 16) ≡ 255)
itoa-numeral_example = itoa-numeral texts 255 300 16 (omega arith) (inr refl)
