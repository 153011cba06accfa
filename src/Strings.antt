-- ===== src/Strings.antt =====
-- The string routines of student-distrib/lib.c, over the bytes of the memory.
pub mod Laws
pub mod Compare
use linux_kernel_os.Prelude.{
  ltb, leb, ◌==◌, if◌then◌else◌, ℕ, zero, suc, ◌+◌, ◌-◌, ◌%◌, ◌^◌, ◌≡◌, ◌≢◌, not, ◌||◌, Option,
  none, some, List, [], ◌∷◌,
}
use linux_kernel_os.Prelude.Int.{ℤ, pos, negsuc, add32}
use linux_kernel_os.Memory.{Memory, store}

abbrev pub newline : ℕ
newline = b'\n'

-- `while (s[len] != '\0') len++;`. `len` is a `uint32_t`, so with no terminator in the whole memory
-- the loop comes round to `len = 0` and does not end: that is `none`, after 2 ^ 32 rounds.
pub strlen_loop : ℕ → Memory → ℕ → ℕ → Option ℕ
strlen_loop zero m s len = none
strlen_loop (suc k) m s len =
    let rest = strlen_loop k m s (add32 len 1) in if m (s + len) == 0 then some len else rest

unfoldable pub strlen : Memory → ℕ → Option ℕ
strlen m s = strlen_loop (2 ^ 32) m s 0

-- a - b, for two signed characters.
unfoldable pub char_sub : ℕ → ℕ → ℤ
char_sub a b =
    if leb ((b + 128) % 256) ((a + 128) % 256)
    then pos ((a + 128) % 256 - (b + 128) % 256)
    else negsuc ((b + 128) % 256 - (a + 128) % 256 - 1)

-- The loop of `strncmp` from index `i`, with the rounds that are left.
pub strncmp_loop : ℕ → Memory → ℕ → ℕ → ℕ → ℤ
strncmp_loop zero m s1 s2 i = pos 0
strncmp_loop (suc k) m s1 s2 i =
    let rest = strncmp_loop k m s1 s2 (i + 1) in
    if not (m (s1 + i) == m (s2 + i)) || (m (s1 + i) == 0)
    then char_sub (m (s1 + i)) (m (s2 + i))
    else rest

unfoldable pub strncmp : Memory → ℕ → ℕ → ℕ → ℤ
strncmp m s1 s2 n = strncmp_loop n m s1 s2 0

-- `while (src[i] != '\0' && src[i] != '\n') { dest[i] = src[i]; i++; }`, then the terminator.
-- A copy that does not meet the end of its source within 2 ^ 31 rounds overflows the `int32_t`
-- index: `none`.
pub strcpy_loop : ℕ → Memory → ℕ → ℕ → ℕ → Option Memory
strcpy_loop zero m dest src i = none
strcpy_loop (suc k) m dest src i =
    let rest = strcpy_loop k (store m (dest + i) (m (src + i))) dest src (i + 1) in
    if (m (src + i) == 0) || (m (src + i) == newline) then some (store m (dest + i) 0) else rest

unfoldable pub strcpy : Memory → ℕ → ℕ → Option Memory
strcpy m dest src = strcpy_loop (2 ^ 31) m dest src 0

-- The first loop of `strncpy`, with the rounds that `i < n` leaves: the index at which it stops.
pub copy_loop : ℕ → Memory → ℕ → ℕ → ℕ → Memory × ℕ
copy_loop zero m dest src i = (m, i)
copy_loop (suc k) m dest src i =
    let rest = copy_loop k (store m (dest + i) (m (src + i))) dest src (i + 1) in
    if m (src + i) == 0 then (m, i) else rest

-- `while (i <= n) { dest[i] = '\0'; i++; }`, with the rounds that are left.
pub zero_loop : ℕ → Memory → ℕ → ℕ → Memory
zero_loop zero m dest i = m
zero_loop (suc k) m dest i = zero_loop k (store m (dest + i) 0) dest (i + 1)

-- The second loop goes up to and with the index `n`, so for a limit of 2 ^ 31 or more the `int32_t`
-- index overflows before it ends: that is `none`.
unfoldable pub strncpy : Memory → ℕ → ℕ → ℕ → Option Memory
strncpy m dest src n =
    let (m', i) = copy_loop n m dest src 0 in
    if leb (2 ^ 31) n then none else some (zero_loop (n + 1 - i) m' dest i)

-- The string of the characters `bs` stands at `s`, with its terminator.
abbrev pub IsString : Memory → ℕ → List ℕ → Type 0
IsString m s [] = m s ≡ 0
IsString m s (b ∷ bs) = (m s ≡ b) × (b ≢ 0) × IsString m (s + 1) bs
