-- ===== src/Run/Speak.antt =====
-- The messages of `execute` and `halt` in student-distrib/systemCalls/systemCalls.c: `printf` of them
-- comes to its end, and what it leaves alone.
use linux_kernel_os.Prelude.{
  ltb, length, ℕ, ◌+◌, ◌-◌, ◌^◌, ◌≤◌, ◌<◌, ◌≡◌, refl, sym, ◌∙◌, inl, inr, some, Bool-cases, ◌++◌,
  codes, List, [], ◌∷◌, arith,
}
use linux_kernel_os.Prelude.Int.{ℤ, pos, negsuc, uint32}
use linux_kernel_os.Memory.{Memory}
use linux_kernel_os.Memory.Write.{Apart}
use linux_kernel_os.Console.{Console}
use linux_kernel_os.Console.Bounds.{screen_bytes}
use linux_kernel_os.Console.Cursor.{OnScreen}
use linux_kernel_os.Strings.{IsString}
use linux_kernel_os.Print.{text}
use linux_kernel_os.Print.Number.Bounds.{IsPlain, digits-IsPlain}
use linux_kernel_os.Print.Rendering.{rendered, Outside, IsFormat, signed}
use linux_kernel_os.Print.Formats.{printf-rendered}
use linux_kernel_os.Print.Shown.{put_all, put_all-OnScreen, video_mem-put_all, put_all_outside}
use linux_kernel_os.Kernel.{Kernel, Frame, Message, memory_of}
use linux_kernel_os.Run.{say}

-- The console can be written to: the cursor is on the screen, and the buffer of the conversions is
-- outside of it.
pub record IsReady (f : Frame) (c : Console) : Type 0 where
  pub on : OnScreen c
  pub apart : Apart c.video_mem screen_bytes f.conv 64

-- What a message leaves alone: all but the bytes of the screen and of the buffer of the conversions,
-- and the cursor.
pub record Spoken (f : Frame) (k k' : Kernel) : Type 0 where
  pub new_memory : Memory
  pub new_console : Console
  pub state :
      k' ≡ record k { devices = record k.devices { memory = new_memory; console = new_console } }
  pub kept :
      (a : ℕ) → Outside k.devices.console.video_mem f.conv a 1 → memory_of k' a ≡ memory_of k a
  pub ready : IsReady f k'.devices.console
  pub same_screen : k'.devices.console.video_mem ≡ k.devices.console.video_mem

-- A format whose arguments are words or, where it is plain, none.
pub IsWords : List ℕ → Type 0
IsWords bs =
    (v conv : ℕ) (m : Memory) (words : ℕ → ℕ)
    → IsFormat v conv m words (λ i. []) text 0 bs × IsPlain (rendered words (λ i. []) text 0 bs)

uint32-lt : (z : ℤ) → uint32 z < 2 ^ 32
uint32-lt (pos n) = omega arith
uint32-lt (negsuc n) = omega arith

pub say-Spoken :
    (f : Frame) (message : Message) (value : ℤ) (k : Kernel) (bs : List ℕ)
    → IsReady f k.devices.console
    → IsWords bs
    → IsString (memory_of k) (f.messages message) bs
    → Outside k.devices.console.video_mem f.conv (f.messages message) (length bs + 1)
    → length bs < 2 ^ 32
    → (k' : Kernel) × (say f message value k ≡ some k') × Spoken f k k'
unfolding say IsWords
say-Spoken f message value k bs ready words is out fuel =
    let c = k.devices.console in
    let m = memory_of k in
    let word = λ (i : ℕ). uint32 value in
    let (format, plain) = words c.video_mem f.conv m word in
    let shown = put_all m c (rendered word (λ i. []) text 0 bs) in
    let (m', run, same) =
      printf-rendered c.video_mem f.conv word (λ i. []) m ready.apart (λ i. uint32-lt value) c
        (f.messages message) bs ready.on refl is out format fuel in
    let screen = video_mem-put_all m c (rendered word (λ i. []) text 0 bs) in
    (
      record k { devices = record k.devices { memory = m'; console = shown.1 } },
      rw run refl,
      record {
        new_memory = m';
        new_console = shown.1;
        state = refl;
        kept = λ a off.
            sym (same a off.1)
            ∙ put_all_outside m c (rendered word (λ i. []) text 0 bs) a ready.on plain off.0;
        ready = record {
          on = put_all-OnScreen m c (rendered word (λ i. []) text 0 bs) ready.on plain;
          apart = rw screen ready.apart;
        };
        same_screen = screen;
      },
    )

-- The messages of a start, of an exception and of an end.
unfoldable pub running_text : List ℕ
running_text = codes "Process %d running...\n"

unfoldable pub exception_text : List ℕ
exception_text = codes "exception occured... "

unfoldable pub exitting_text : List ℕ
exitting_text = codes "Exitting process %d\n"

signed-IsPlain : (w : ℕ) → IsPlain (signed w)
signed-IsPlain w = elim (Bool-cases (ltb w (2 ^ 31))) [
  | inl positive ↦ rw positive (digits-IsPlain w 10)
  | inr negative ↦ rw negative (omega arith, digits-IsPlain (2 ^ 32 - w) 10)
]

pub append-IsPlain : (xs ys : List ℕ) → IsPlain xs → IsPlain ys → IsPlain (xs ++ ys)
append-IsPlain [] ys p q = q
append-IsPlain (x ∷ xs) ys p q = (p.0, append-IsPlain xs ys p.1 q)

pub exception-IsWords : IsWords exception_text
unfolding IsWords IsFormat rendered exception_text
exception-IsWords v conv m words = (ground arith, ground arith)

pub running-IsWords : IsWords running_text
unfolding IsWords IsFormat rendered running_text
running-IsWords v conv m words = (
  ground arith,
  append-IsPlain (codes "Process ") (signed (words 0) ++ codes " running...\n") (ground arith) (
      append-IsPlain (signed (words 0)) (codes " running...\n") (signed-IsPlain (words 0))
        (ground arith)),
)

pub exitting-IsWords : IsWords exitting_text
unfolding IsWords IsFormat rendered exitting_text
exitting-IsWords v conv m words = (
  ground arith,
  append-IsPlain (codes "Exitting process ") (signed (words 0) ++ codes "\n") (ground arith)
      (append-IsPlain (signed (words 0)) (codes "\n") (signed-IsPlain (words 0)) (ground arith)),
)

pub length-running_text : length running_text ≤ 32
unfolding running_text
length-running_text = omega arith

pub length-exception_text : length exception_text ≤ 32
unfolding exception_text
length-exception_text = omega arith

pub length-exitting_text : length exitting_text ≤ 32
unfolding exitting_text
length-exitting_text = omega arith
