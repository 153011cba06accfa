-- ===== src/Print/Rendering.antt =====
-- What a format of `printf` stands for, by the comment above `printf` in student-distrib/lib.c: an
-- independent description of its output.
use linux_kernel_os.Memory.{Memory}
use linux_kernel_os.Memory.Write.{Apart}
use linux_kernel_os.Console.Bounds.{screen_bytes}
use linux_kernel_os.Strings.{IsString}
use linux_kernel_os.Print.{Place, text, conversion}
use linux_kernel_os.Print.Number.{digits}
use linux_kernel_os.Print.Number.Bounds.{IsPlain}
use linux_kernel_os.Prelude.{
  ltb, ◌==◌, if◌then◌else◌, length, replicate, ℕ, ◌+◌, ◌-◌, ◌%◌, ◌^◌, ◌<◌, ◌≡◌, ◌≢◌, true, false,
  ◌||◌, List, [], ◌∷◌, ◌++◌,
}

-- The characters of a signed and of a padded number.
abbrev pub signed : ℕ → List ℕ
signed w = if ltb w (2 ^ 31) then digits w 10 else b'-' ∷ digits (2 ^ 32 - w) 10

abbrev pub padded : List ℕ → List ℕ
padded ds = replicate (8 - length ds) b'0' ++ ds

-- What a character of the format shows, with the word that stands next and the text that this points
-- to.
unfoldable pub shown_by : Place → ℕ → ℕ → List ℕ → List ℕ
shown_by text b w t = if b == b'%' then [] else b ∷ []
shown_by (conversion alternate) b w t =
    if b == b'%'
    then b'%' ∷ []
    else if b == b'#'
    then []
    else if b == b'x'
    then (if alternate then padded (digits w 16) else digits w 16)
    else if b == b'u'
    then digits w 10
    else if b == b'd'
    then signed w
    else if b == b'c'
    then w % 256 ∷ []
    else if b == b's'
    then t
    else []

-- Where the format goes on, and how many words have been taken.
unfoldable pub place_after : Place → ℕ → Place
place_after text b = if b == b'%' then conversion false else text
place_after (conversion alternate) b = if b == b'#' then conversion true else text

unfoldable pub words_taken : Place → ℕ → ℕ
words_taken text b = 0
words_taken (conversion alternate) b =
    if (b == b'x') || (b == b'u') || (b == b'd') || (b == b'c') || (b == b's') then 1 else 0

-- The characters that a format shows, with the words from the index `n` on.
unfoldable pub rendered : (ℕ → ℕ) → (ℕ → List ℕ) → Place → ℕ → List ℕ → List ℕ
unfolding shown_by place_after words_taken
rendered words texts p n [] = []
rendered words texts p n (b ∷ bs) =
    shown_by p b (words n) (texts n)
    ++ rendered words texts (place_after p b) (n + words_taken p b) bs

-- The `n` bytes from `p` on are outside of the screen at `v` and of the 64 bytes at `conv`.
abbrev pub Outside : ℕ → ℕ → ℕ → ℕ → Type 0
Outside v conv p n = Apart v screen_bytes p n × Apart conv 64 p n

-- The argument of `%c` is no backspace, and that of `%s` is a text without one, outside of the screen
-- and of the buffer for the conversions.
abbrev pub IsArgument : ℕ → ℕ → Memory → Place → ℕ → ℕ → List ℕ → Type 0
IsArgument v conv m text b w t = b ≢ 8
IsArgument v conv m (conversion alternate) b w t =
    (b ≡ b'c' → w % 256 ≢ 8)
    × (b ≡ b's'
        → IsString m w t × IsPlain t × (length t < 2 ^ 31) × Outside v conv w (length t + 1))

abbrev pub IsText : Place → Type 0
IsText text = Unit
IsText (conversion alternate) = ⊥

-- A format that does not end within a conversion, all of whose arguments are so.
unfoldable pub IsFormat : ℕ → ℕ → Memory → (ℕ → ℕ) → (ℕ → List ℕ) → Place → ℕ → List ℕ → Type 0
unfolding place_after words_taken
IsFormat v conv m words texts p n [] = IsText p
IsFormat v conv m words texts p n (b ∷ bs) =
    IsArgument v conv m p b (words n) (texts n)
    × IsFormat v conv m words texts (place_after p b) (n + words_taken p b) bs
