-- ===== src/User/Refused.antt =====
-- How the kernel answers to the calls of syscalls/ece391syserr.c: what is refused, and what is written
-- to the terminal.
use Prim.Native.String.{String}
use linux_kernel_os.User.Support.{user_strlen_loop, ece391_strlen}
use linux_kernel_os.Memory.{Memory, null}
use linux_kernel_os.Files.{read_fd, write_fd, refuses, read, write, close}
use linux_kernel_os.Prelude.{
  ltb, ◌==◌, if◌then◌else◌, Bool-cases, length, ℕ, zero, suc, ◌+◌, ◌%◌, ◌^◌, ◌≤◌, ◌<◌, ◌≡◌, refl,
  ap, ◌∙◌, ◌≢◌, inl, inr, Bool, true, false, ◌||◌, some, List, [], ◌∷◌, codes, arith,
}
use linux_kernel_os.Prelude.Int.{pos, fail, int32, uint32}
use linux_kernel_os.Strings.{IsString}
use linux_kernel_os.Kernel.{Kernel, Frame, memory_of, current_pid, fd_of}
use linux_kernel_os.Process.{std_in, std_out, invalid_op}
use linux_kernel_os.Terminal.{terminal_write}

-- Descriptor 1 of the current process is the terminal's output, as `initPCB` leaves it.
abbrev pub HasOutput : Kernel → Type 0
HasOutput k = let d = fd_of k (current_pid k) 1 in (d.in_use ≡ true) × (d.operations ≡ some std_out)

-- A literal stands in the memory.
abbrev pub IsPlaced : (String → ℕ) → Kernel → String → Type 0
IsPlaced literal k message =
    IsString (memory_of k) (literal message) (codes message) × (literal message ≢ 0)

-- The kernel when the `n` bytes at `p` have been written to the terminal.
abbrev pub shown : Kernel → ℕ → ℕ → Kernel
shown k p n = record k { devices = (terminal_write k.devices p (pos n)).0 }

user_strlen_loop-IsString :
    (k : ℕ) (m : Memory) (s len : ℕ) (bs : List ℕ)
    → IsString m s bs
    → length bs < k
    → user_strlen_loop k m s len ≡ some (len + length bs)
unfolding user_strlen_loop
user_strlen_loop-IsString zero m s len bs is h = absurd (omega arith)
user_strlen_loop-IsString (suc k) m s len [] is h = ground arith
user_strlen_loop-IsString (suc k) m s len (b ∷ bs) is h =
    ground (arith, user_strlen_loop-IsString k m (s + 1) (len + 1) bs is.2)

pub ece391_strlen-IsString :
    (m : Memory) (s : ℕ) (bs : List ℕ)
    → IsString m s bs
    → length bs < 2 ^ 32
    → ece391_strlen m s ≡ some (length bs)
unfolding ece391_strlen
ece391_strlen-IsString m s bs is h =
    user_strlen_loop-IsString (2 ^ 32) m s 0 bs is h ∙ ap some (omega arith)

pub write_out :
    (f : Frame) (k : Kernel) (p n : ℕ)
    → HasOutput k
    → p ≢ 0
    → 0 < n
    → write f k (pos 1) p (pos n) ≡ some (shown k p n, (terminal_write k.devices p (pos n)).1)
unfolding write refuses write_fd
write_out f k p n out placed some_bytes =
    let there : (p == null) ≡ false = ground (arith, placed) in
    let more : ltb 0 n ≡ true = ground (arith, some_bytes) in rw (there, more, out.0, out.1) refl

pub words_back : (n : ℕ) → n < 2 ^ 31 → int32 (uint32 (int32 n)) ≡ pos n
words_back n h = ground arith

pub small_back : (n : ℕ) → n < 8 → int32 (n % 2 ^ 32) ≡ pos n
small_back n h = ground arith

or_true : (a : Bool) → a || true ≡ true
or_true true = refl
or_true false = refl

either_way {ℓ} : {A : Type ℓ} (a : Bool) {x : A} → (if a then x else x) ≡ x
either_way true = refl
either_way false = refl

pub close_refused :
    (k : Kernel) (fd : ℕ)
    → (2 ≤ fd → (fd_of k (current_pid k) fd).in_use ≡ false)
    → close k (pos fd) ≡ some (k, fail)
unfolding close
close_refused k fd free = elim (Bool-cases (ltb fd 2)) [
  | inl low ↦ rw low refl
  | inr high ↦ rw (free (ground (arith, high)), or_true (ltb fd 2 || ltb 7 fd)) refl
]

refuses_unused :
    (k : Kernel) (fd buf : ℕ)
    → (fd_of k (current_pid k) fd).in_use ≡ false
    → refuses k (pos fd) buf (pos 31) ≡ true
unfolding refuses
refuses_unused k fd buf free = rw free (or_true (ltb 7 fd || (buf == null) || false))

pub read_refused :
    (f : Frame) (k : Kernel) (fd buf : ℕ)
    → (fd_of k (current_pid k) fd).in_use ≡ false
    → read f k (pos fd) buf (pos 31) ≡ some (k, fail)
unfolding read
read_refused f k fd buf free = rw (refuses_unused k fd buf free) refl

pub write_refused :
    (f : Frame) (k : Kernel) (fd buf : ℕ)
    → (fd_of k (current_pid k) fd).in_use ≡ false
    → write f k (pos fd) buf (pos 31) ≡ some (k, fail)
unfolding write
write_refused f k fd buf free = rw (refuses_unused k fd buf free) refl

-- The terminal cannot be written through its input, nor read through its output.
pub write_in :
    (f : Frame) (k : Kernel) (buf : ℕ)
    → (fd_of k (current_pid k) 0).operations ≡ some std_in
    → write f k (pos 0) buf (pos 31) ≡ some (k, fail)
unfolding write write_fd invalid_op
write_in f k buf ops = rw ops (either_way (refuses k (pos 0) buf (pos 31)))

pub read_out :
    (f : Frame) (k : Kernel) (buf : ℕ)
    → (fd_of k (current_pid k) 1).operations ≡ some std_out
    → read f k (pos 1) buf (pos 31) ≡ some (k, fail)
unfolding read read_fd invalid_op
read_out f k buf ops = rw ops (either_way (refuses k (pos 1) buf (pos 31)))
