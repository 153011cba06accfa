-- ===== src/Args/Copy.antt =====
-- What `getargs` gives to the program.
use linux_kernel_os.Prelude.Int.{pos, fail}
use linux_kernel_os.Memory.{null}
use linux_kernel_os.Memory.Write.{take, Apart, write_bytes}
use linux_kernel_os.Args.{getargs}
use linux_kernel_os.Kernel.{Kernel, memory_of, with_memory, current_pid}
use linux_kernel_os.Strings.{IsString}
use linux_kernel_os.Strings.Laws.{strlen-IsString, strncpy-write}
use linux_kernel_os.Prelude.{
  length, replicate, ℕ, zero, suc, ◌+◌, ◌-◌, ◌^◌, ◌≤◌, ◌<◌, ◌≡◌, refl, ap, ◌≢◌, ◌⊎◌, some, List, [],
  ◌∷◌, ◌++◌, arith,
}
use linux_kernel_os.Process.{arguments_at}

take-length : (n : ℕ) (bs : List ℕ) → length bs ≤ n → take n bs ≡ bs
take-length zero [] h = refl
take-length zero (b ∷ bs) h = absurd (omega arith)
take-length (suc n) [] h = refl
take-length (suc n) (b ∷ bs) h = ap (λ (cs : List ℕ). b ∷ cs) (take-length n bs (omega arith))

-- With arguments that are not empty and at most `n` long, below 2 ^ 31, and a buffer that is not null
-- and has its first `n` bytes apart from them, `getargs` returns 0 and writes the arguments and then
-- zeros, `n + 1` bytes in all, and changes nothing else.
pub getargs-write :
    (k : Kernel) (buf n : ℕ) (bs : List ℕ)
    → let from = arguments_at (current_pid k) in
      IsString (memory_of k) from bs
      → 0 < length bs
      → length bs ≤ n
      → n < 2 ^ 31
      → buf ≢ null
      → Apart buf n from (length bs + 1)
      → getargs k buf (pos n)
        ≡ some (
          with_memory k (write_bytes (memory_of k) buf (bs ++ replicate (n + 1 - length bs) 0)),
          pos 0,
        )
unfolding getargs
getargs-write k buf n bs is some_bytes fits small real out =
    let size = strlen-IsString (memory_of k) (arguments_at (current_pid k)) bs is (omega arith) in
    let copied = strncpy-write (memory_of k) buf (arguments_at (current_pid k)) n bs is out small in
    let whole = take-length n bs fits in
    let copied' = rw whole at copied in rw (getargs, size) (ground (arith, copied', real))

-- Without arguments, or with more than `n` bytes of them and fewer than 2 ^ 32, `getargs` fails and
-- changes nothing.
pub getargs_refused :
    (k : Kernel) (buf n : ℕ) (bs : List ℕ)
    → IsString (memory_of k) (arguments_at (current_pid k)) bs
    → (length bs ≡ 0) ⊎ (n < length bs)
    → length bs < 2 ^ 32
    → getargs k buf (pos n) ≡ some (k, fail)
unfolding getargs
getargs_refused k buf n bs is bad fits =
    let size = strlen-IsString (memory_of k) (arguments_at (current_pid k)) bs is fits in
    rw (getargs, size) (ground arith)
