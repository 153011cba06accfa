-- ===== src/Print/Shown.antt =====
-- What `puts` shows of a text, and what characters that are put on the screen leave alone.
use mathlib.Core.Path.{subst}
use linux_kernel_os.Memory.{Memory}
use linux_kernel_os.Prelude.{
  ◌==◌, length, ℕ, zero, suc, ◌+◌, ◌^◌, ◌≤◌, ◌<◌, ◌≡◌, refl, ap, ◌∙◌, ◌≢◌, false, some, List, [],
  ◌∷◌, ◌++◌, arith,
}
use linux_kernel_os.Memory.Write.{Apart}
use linux_kernel_os.Strings.{IsString}
use linux_kernel_os.Console.{Console, putc}
use linux_kernel_os.Console.Cursor.{OnScreen, putc-OnScreen}
use linux_kernel_os.Console.Bounds.{screen_bytes, video_mem-putc, putc_outside}
use linux_kernel_os.Console.Frame.{SameBut, putc_cursor, putc-SameBut}
use linux_kernel_os.Print.Number.Bounds.{IsPlain}
use linux_kernel_os.Print.{puts_loop, puts}

-- The characters given to `putc`, one after the other.
unfoldable pub put_all : Memory → Console → List ℕ → Memory × Console
put_all m c [] = (m, c)
put_all m c (b ∷ bs) = let (m', c') = putc m c b in put_all m' c' bs

-- A string stays where no byte of it changes.
pub IsString-same :
    (m m' : Memory) (s : ℕ) (bs : List ℕ)
    → ((a : ℕ) → s ≤ a → a ≤ s + length bs → m' a ≡ m a)
    → IsString m s bs
    → IsString m' s bs
IsString-same m m' s [] same is = same s (omega arith) (omega arith) ∙ is
IsString-same m m' s (b ∷ bs) same is = (
  same s (omega arith) (omega arith) ∙ is.0,
  is.1,
  IsString-same m m' (s + 1) bs (λ a lo hi. same a (omega arith) (omega arith)) is.2,
)

-- A character that is put on the screen leaves a string outside of the screen.
putc-IsString :
    (m : Memory) (c : Console) (ch s : ℕ) (bs : List ℕ)
    → OnScreen c
    → ch ≢ 8
    → Apart c.video_mem screen_bytes s (length bs + 1)
    → IsString m s bs
    → IsString (putc m c ch).0 s bs
putc-IsString m c ch s bs on plain out is =
    IsString-same m (putc m c ch).0 s bs
      (λ a lo hi. putc_outside m c ch a on (λ e. absurd (plain e)) (ground arith)) is

puts_loop-put_all :
    (k : ℕ) (m : Memory) (c : Console) (s i : ℕ) (bs : List ℕ)
    → IsString m (s + i) bs
    → IsPlain bs
    → OnScreen c
    → Apart c.video_mem screen_bytes (s + i) (length bs + 1)
    → length bs < k
    → puts_loop k m c s i ≡ some ((put_all m c bs).0, (put_all m c bs).1, i + length bs)
unfolding puts_loop put_all
puts_loop-put_all zero m c s i bs is plain on out fuel = absurd (omega arith)
puts_loop-put_all (suc k) m c s i [] is plain on out fuel = ground arith
puts_loop-put_all (suc k) m c s i (b ∷ bs) is plain on out fuel =
    let next : s + i + 1 ≡ s + (i + 1) = omega arith in
    let m' = (putc m c b).0 in
    let c' = (putc m c b).1 in
    let on' : OnScreen c' = putc-OnScreen m c b on (λ e. absurd (plain.0 e)) in
    let is' : IsString m' (s + i + 1) bs =
      putc-IsString m c b (s + i + 1) bs on plain.0 (ground arith) is.2 in
    let rest =
      puts_loop-put_all k m' c' s (i + 1) bs (rw (← next) is') plain.1 on'
        (rw (video_mem-putc m c b) (ground (arith, out))) (omega arith) in
    let total : i + 1 + length bs ≡ i + suc (length bs) = omega arith in
    let more : (b == 0) ≡ false = ground (arith, is.1) in
    rw (is.0, more)
      (rest ∙ ap (λ (n : ℕ). some ((put_all m' c' bs).0, (put_all m' c' bs).1, n)) total)

-- For a string without a backspace that lies outside of the screen, and shorter than 2 ^ 31, with the
-- cursor on the screen, `puts` comes to its end: it gives the characters to `putc`, one after the
-- other, and returns how many there were.
pub puts-put_all :
    (m : Memory) (c : Console) (s : ℕ) (bs : List ℕ)
    → IsString m s bs
    → IsPlain bs
    → OnScreen c
    → Apart c.video_mem screen_bytes s (length bs + 1)
    → length bs < 2 ^ 31
    → puts m c s ≡ some ((put_all m c bs).0, (put_all m c bs).1, length bs)
unfolding puts
puts-put_all m c s bs is plain on out fuel =
    let start : s + 0 ≡ s = omega arith in
    let total : 0 + length bs ≡ length bs = omega arith in
    puts_loop-put_all (2 ^ 31) m c s 0 bs (rw start is) plain on (rw start out) fuel
    ∙ ap (λ (n : ℕ). some ((put_all m c bs).0, (put_all m c bs).1, n)) total

pub put_all-append :
    (m : Memory) (c : Console) (xs ys : List ℕ)
    → put_all m c (xs ++ ys) ≡ put_all (put_all m c xs).0 (put_all m c xs).1 ys
unfolding put_all
put_all-append m c [] ys = refl
put_all-append m c (x ∷ xs) ys = put_all-append (putc m c x).0 (putc m c x).1 xs ys

-- Plain characters keep the cursor on the screen, and the screen where it is, and they change no byte
-- outside of it.
pub put_all-OnScreen :
    (m : Memory) (c : Console) (bs : List ℕ) → OnScreen c → IsPlain bs → OnScreen (put_all m c bs).1
unfolding put_all
put_all-OnScreen m c [] on plain = on
put_all-OnScreen m c (b ∷ bs) on plain =
    put_all-OnScreen (putc m c b).0 (putc m c b).1 bs
      (putc-OnScreen m c b on (λ e. absurd (plain.0 e))) plain.1

pub video_mem-put_all :
    (m : Memory) (c : Console) (bs : List ℕ) → (put_all m c bs).1.video_mem ≡ c.video_mem
unfolding put_all
video_mem-put_all m c [] = refl
video_mem-put_all m c (b ∷ bs) =
    video_mem-put_all (putc m c b).0 (putc m c b).1 bs ∙ video_mem-putc m c b

pub put_all_outside :
    (m : Memory) (c : Console) (bs : List ℕ) (a : ℕ)
    → OnScreen c
    → IsPlain bs
    → Apart c.video_mem screen_bytes a 1
    → (put_all m c bs).0 a ≡ m a
unfolding put_all
put_all_outside m c [] a on plain out = refl
put_all_outside m c (b ∷ bs) a on plain out =
    put_all_outside (putc m c b).0 (putc m c b).1 bs a
      (putc-OnScreen m c b on (λ e. absurd (plain.0 e))) plain.1 (rw (video_mem-putc m c b) out)
    ∙ putc_outside m c b a on (λ e. absurd (plain.0 e)) out

-- On memories that differ in a buffer outside of the screen the characters do the same.
pub put_all-SameBut :
    (m m' : Memory) (c : Console) (bs : List ℕ) (p n : ℕ)
    → Apart c.video_mem screen_bytes p n
    → SameBut p n m m'
    → ((put_all m c bs).1 ≡ (put_all m' c bs).1)
      × SameBut p n (put_all m c bs).0 (put_all m' c bs).0
unfolding put_all
put_all-SameBut m m' c [] p n out same = (refl, same)
put_all-SameBut m m' c (b ∷ bs) p n out same =
    let shown = put_all (putc m c b).0 (putc m c b).1 bs in
    let rest =
      put_all-SameBut (putc m c b).0 (putc m' c b).0 (putc m c b).1 bs p n
        (rw (video_mem-putc m c b) out) (putc-SameBut m m' c b p n out same) in
    subst
      (λ (d : Console).
        let shown' = put_all (putc m' c b).0 d bs in
        (shown.1 ≡ shown'.1) × SameBut p n shown.0 shown'.0)
      (putc_cursor m m' c b) rest
