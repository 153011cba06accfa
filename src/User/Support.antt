-- ===== src/User/Support.antt =====
-- syscalls/ece391support.c: the library of the programs.
use linux_kernel_os.Print.{strrev_loop, itoa_loop}
use linux_kernel_os.Prelude.Int.{ℤ, pos, int32, sub_nat}
use linux_kernel_os.Prelude.{
  leb, ◌==◌, if◌then◌else◌, ◌>>=◌, ℕ, zero, suc, ◌+◌, ◌-◌, ◌^◌, ◌||◌, Option, none, some,
}
use linux_kernel_os.Memory.{Memory, store}
use linux_kernel_os.User.{System, ece391_write}

-- The loop of `ece391_strlen`, with the rounds left; `len` is a `uint32_t`, so that 2 ^ 32 rounds
-- without a terminator bring it back to 0: `none`.
unfoldable pub user_strlen_loop : ℕ → Memory → ℕ → ℕ → Option ℕ
user_strlen_loop zero m s len = none
user_strlen_loop (suc k) m s len =
    let rest = user_strlen_loop k m (s + 1) (len + 1) in if m s == 0 then some len else rest

unfoldable pub ece391_strlen : Memory → ℕ → Option ℕ
unfolding user_strlen_loop
ece391_strlen m s = user_strlen_loop (2 ^ 32) m s 0

-- `while ('\0' != (*dst++ = *src++));`, with as many rounds as there are addresses.
unfoldable pub user_strcpy_loop : ℕ → Memory → ℕ → ℕ → Option Memory
user_strcpy_loop zero m dst src = none
user_strcpy_loop (suc k) m dst src =
    let m' = store m dst (m src) in
    let rest = user_strcpy_loop k m' (dst + 1) (src + 1) in if m src == 0 then some m' else rest

unfoldable pub ece391_strcpy : Memory → ℕ → ℕ → Option Memory
unfolding user_strcpy_loop
ece391_strcpy m dst src = user_strcpy_loop (2 ^ 32) m dst src

-- The difference of two characters, which are unsigned.
abbrev pub difference : ℕ → ℕ → ℤ
difference a b = sub_nat a b

unfoldable pub user_strcmp_loop : ℕ → Memory → ℕ → ℕ → Option ℤ
user_strcmp_loop zero m s1 s2 = none
user_strcmp_loop (suc k) m s1 s2 =
    let rest = user_strcmp_loop k m (s1 + 1) (s2 + 1) in
    if m s1 == m s2
    then (if m s1 == 0 then some (pos 0) else rest)
    else some (difference (m s1) (m s2))

unfoldable pub ece391_strcmp : Memory → ℕ → ℕ → Option ℤ
unfolding user_strcmp_loop
ece391_strcmp m s1 s2 = user_strcmp_loop (2 ^ 32) m s1 s2

-- The loop of `ece391_strncmp`, for the `n` characters that are left.
unfoldable pub user_strncmp_loop : ℕ → Memory → ℕ → ℕ → ℤ
user_strncmp_loop zero m s1 s2 = pos 0
user_strncmp_loop (suc n) m s1 s2 =
    let rest = user_strncmp_loop n m (s1 + 1) (s2 + 1) in
    if m s1 == m s2
    then (if (m s1 == 0) || (n == 0) then pos 0 else rest)
    else difference (m s1) (m s2)

unfoldable pub ece391_strncmp : Memory → ℕ → ℕ → ℕ → ℤ
unfolding user_strncmp_loop
ece391_strncmp m s1 s2 n = user_strncmp_loop n m s1 s2

-- `ece391_strrev`: with `end` at 0 or -1 it returns at once, as the loop does.
unfoldable pub ece391_strrev : Memory → ℕ → Option Memory
ece391_strrev m s = do
  len ← ece391_strlen m s
  some (if leb len 1 then m else strrev_loop len m s 0 (len - 1))

-- `ece391_itoa`, with the loop of the kernel's `itoa`, which is the same.
unfoldable pub ece391_itoa : Memory → ℕ → ℕ → ℕ → Option Memory
unfolding ece391_strrev
ece391_itoa m value buf radix =
    let (m', end) = itoa_loop 32 m buf value radix in
    if value == 0
    then some (store (store m buf b'0') (buf + 1) 0)
    else ece391_strrev (store m' end 0) buf

-- `ece391_fdputs`, which ignores the result of the call.
unfoldable pub ece391_fdputs : {S : Type 0} (sys : System S) → S → ℤ → ℕ → Option S
ece391_fdputs sys s fd message = do
  len ← ece391_strlen (sys.memory s) message
  (s', r) ← ece391_write sys s fd message (int32 len)
  some s'
