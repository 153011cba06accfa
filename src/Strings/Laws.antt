-- ===== src/Strings/Laws.antt =====
-- What the string routines compute, for every string and every buffer.
use linux_kernel_os.Prelude.{
  leb, ◌==◌, if◌then◌else◌, length, replicate, ℕ, zero, suc, ◌+◌, ◌-◌, ◌^◌, ◌<◌, min, ◌≡◌, refl,
  false, sym, ap, ◌∙◌, some, List, [], ◌∷◌, ◌++◌, arith,
}
use linux_kernel_os.Prelude.Int.{add32}
use linux_kernel_os.Memory.{Memory, store}
use linux_kernel_os.Memory.Write.{take, length-take, Apart, write_bytes, write_bytes-append}
use linux_kernel_os.Strings.{
  newline, strlen_loop, strlen, strcpy_loop, strcpy, copy_loop, zero_loop, strncpy, IsString,
}

strlen_loop-IsString :
    (k : ℕ) (m : Memory) (s len : ℕ) (bs : List ℕ)
    → IsString m (s + len) bs
    → length bs < k
    → len + length bs < 2 ^ 32
    → strlen_loop k m s len ≡ some (len + length bs)
unfolding strlen_loop
strlen_loop-IsString zero m s len bs is h fits = absurd (omega arith)
strlen_loop-IsString (suc k) m s len [] is h fits = ground arith
strlen_loop-IsString (suc k) m s len (b ∷ bs) is h fits =
    let next : add32 len 1 ≡ len + 1 = omega arith in
    let there : s + len + 1 ≡ s + (len + 1) = omega arith in
    ground (arith, next, strlen_loop-IsString k m s (len + 1) bs (rw (← there) is.2))

-- `strlen` returns the number of characters before the terminator of any string that is shorter
-- than 2 ^ 32.
pub strlen-IsString :
    (m : Memory) (s : ℕ) (bs : List ℕ)
    → IsString m s bs
    → length bs < 2 ^ 32
    → strlen m s ≡ some (length bs)
unfolding strlen
strlen-IsString m s bs is fits =
    let start : s + 0 ≡ s = omega arith in
    let total : 0 + length bs ≡ length bs = omega arith in
    strlen_loop-IsString (2 ^ 32) m s 0 bs (rw start is) fits (rw total fits) ∙ ap some total

-- A store beside a string leaves it.
pub IsString-store :
    (m : Memory) (s p v : ℕ) (bs : List ℕ)
    → IsString m s bs
    → Apart p 1 s (length bs + 1)
    → IsString (store m p v) s bs
IsString-store m s p v [] is out = ground arith
IsString-store m s p v (b ∷ bs) is out =
    (ground arith, is.1, IsString-store m (s + 1) p v bs is.2 (ground arith))

-- What `strcpy` takes of a string: its characters before the first newline.
abbrev pub line : List ℕ → List ℕ
line [] = []
line (b ∷ bs) = if b == newline then [] else b ∷ line bs

strcpy_loop-write :
    (k : ℕ) (m : Memory) (dest src i : ℕ) (bs : List ℕ)
    → IsString m (src + i) bs
    → Apart (dest + i) (length bs + 1) (src + i) (length bs + 1)
    → length bs < k
    → strcpy_loop k m dest src i ≡ some (write_bytes m (dest + i) (line bs ++ 0 ∷ []))
unfolding strcpy_loop
strcpy_loop-write zero m dest src i bs is out h = absurd (omega arith)
strcpy_loop-write (suc k) m dest src i [] is out h = ground arith
strcpy_loop-write (suc k) m dest src i (b ∷ bs) is out h =
    let there : src + i + 1 ≡ src + (i + 1) = omega arith in
    let to : dest + (i + 1) ≡ dest + i + 1 = omega arith in
    let m' : Memory = store m (dest + i) (m (src + i)) in
    let kept = IsString-store m (src + i + 1) (dest + i) (m (src + i)) bs is.2 (omega arith) in
    let rest =
      strcpy_loop-write k m' dest src (i + 1) bs (rw (← there) kept) (omega arith) (omega arith) in
    let moved = ap (λ (q : ℕ). some (write_bytes m' q (line bs ++ 0 ∷ []))) to in
    ground (arith, is.0, rest ∙ moved)

-- `strcpy` writes the characters of the source before its first newline, then a terminator, at the
-- destination, and nothing else, for a source that is shorter than 2 ^ 31 and does not overlap the
-- bytes that it could fill.
pub strcpy-write :
    (m : Memory) (dest src : ℕ) (bs : List ℕ)
    → IsString m src bs
    → Apart dest (length bs + 1) src (length bs + 1)
    → length bs < 2 ^ 31
    → strcpy m dest src ≡ some (write_bytes m dest (line bs ++ 0 ∷ []))
unfolding strcpy
strcpy-write m dest src bs is out fits =
    let from : src + 0 ≡ src = omega arith in
    let to : dest + 0 ≡ dest = omega arith in
    strcpy_loop-write (2 ^ 31) m dest src 0 bs (rw from is) (rw (from, to) out) fits
    ∙ ap (λ (q : ℕ). some (write_bytes m q (line bs ++ 0 ∷ []))) to

copy_loop-write :
    (k : ℕ) (m : Memory) (dest src i : ℕ) (bs : List ℕ)
    → IsString m (src + i) bs
    → Apart (dest + i) k (src + i) (length bs + 1)
    → copy_loop k m dest src i ≡ (write_bytes m (dest + i) (take k bs), i + min k (length bs))
unfolding copy_loop
copy_loop-write zero m dest src i bs is out = ground arith
copy_loop-write (suc k) m dest src i [] is out = ground arith
copy_loop-write (suc k) m dest src i (b ∷ bs) is out =
    let there : src + i + 1 ≡ src + (i + 1) = omega arith in
    let to : dest + (i + 1) ≡ dest + i + 1 = omega arith in
    let m' : Memory = store m (dest + i) (m (src + i)) in
    let kept = IsString-store m (src + i + 1) (dest + i) (m (src + i)) bs is.2 (omega arith) in
    let rest = copy_loop-write k m' dest src (i + 1) bs (rw (← there) kept) (omega arith) in
    let moved = ap (λ (q : ℕ). write_bytes m' q (take k bs)) to in ground (arith, is.0, rest, moved)

pub zero_loop-write :
    (k : ℕ) (m : Memory) (dest i : ℕ)
    → zero_loop k m dest i ≡ write_bytes m (dest + i) (replicate k 0)
unfolding zero_loop
zero_loop-write zero m dest i = refl
zero_loop-write (suc k) m dest i =
    let m' : Memory = store m (dest + i) 0 in
    zero_loop-write k m' dest (i + 1)
    ∙ ap (λ (q : ℕ). write_bytes m' q (replicate k 0)) (omega arith)

-- With a limit `n` below 2 ^ 31, and a source that does not overlap the `n` bytes at the
-- destination, `strncpy` writes `n + 1` bytes, one more than its limit: the first `n` characters of
-- the source, and zeros up to and with the byte at index `n`.
pub strncpy-write :
    (m : Memory) (dest src n : ℕ) (bs : List ℕ)
    → IsString m src bs
    → Apart dest n src (length bs + 1)
    → n < 2 ^ 31
    → strncpy m dest src n
      ≡ some (write_bytes m dest (take n bs ++ replicate (n + 1 - length (take n bs)) 0))
unfolding strncpy
strncpy-write m dest src n bs is out small =
    let from : src + 0 ≡ src = omega arith in
    let to : dest + 0 ≡ dest = omega arith in
    let copied = copy_loop-write n m dest src 0 bs (rw from is) (rw (from, to) out) in
    let count : 0 + min n (length bs) ≡ length (take n bs) = omega (arith, length-take n bs) in
    let rest =
      sym (write_bytes-append m dest (take n bs) (replicate (n + 1 - length (take n bs)) 0)) in
    let in_range : leb (2 ^ 31) n ≡ false = ground arith in
    rw (copied, in_range, count, to, zero_loop-write) (ap some rest)
