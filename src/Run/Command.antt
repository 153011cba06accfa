-- ===== src/Run/Command.antt =====
-- The search of the program that a command of `execute` names, in
-- student-distrib/systemCalls/systemCalls.c.
use linux_kernel_os.Prelude.{
  ◌==◌, if◌then◌else◌, Bool-cases, length, ℕ, zero, suc, ◌+◌, ◌≤◌, ◌<◌, ◌≡◌, refl, ◌∙◌, ◌≢◌, ◌⊎◌,
  inl, inr, some, List, [], ◌∷◌, ◌++◌, arith,
}
use linux_kernel_os.Prelude.Int.{fail}
use linux_kernel_os.Memory.{Memory, null, store}
use linux_kernel_os.Memory.Write.{Apart, write_bytes, write_bytes_outside}
use linux_kernel_os.Strings.{newline, strcpy, IsString}
use linux_kernel_os.Strings.Laws.{line, strlen-IsString, strcpy-write}
use linux_kernel_os.Strings.Compare.{IsBytes}
use linux_kernel_os.Fs.{dentry_max, max_name, dentry_at}
use linux_kernel_os.Fs.Dentry.{copy_dentry}
use linux_kernel_os.Fs.Lookup.{
  word, IsDirectory, SameName, read_dentry_by_name-first, read_dentry_by_name_missing,
}
use linux_kernel_os.Print.Shown.{IsString-same}
use linux_kernel_os.Kernel.{Kernel, Frame, memory_of, with_memory}
use linux_kernel_os.Run.{
  returned, skip_spaces, name_index, argument_index, write_magic, load_program, find_program,
  execute,
}

-- The characters behind the leading spaces.
abbrev pub stripped : List ℕ → List ℕ
stripped [] = []
stripped (b ∷ bs) = if b == b' ' then stripped bs else b ∷ bs

-- `skip_spaces` finds them.
skip_spaces-stripped :
    (k : ℕ) (m : Memory) (command i : ℕ) (bs : List ℕ)
    → IsString m (command + i) bs
    → length bs < k
    → IsString m (command + skip_spaces k m command i) (stripped bs)
      × (skip_spaces k m command i + length (stripped bs) ≡ i + length bs)
unfolding skip_spaces
skip_spaces-stripped zero m command i bs is h = absurd (omega arith)
skip_spaces-stripped (suc k) m command i [] is h = (ground (arith, is), ground (arith, is))
skip_spaces-stripped (suc k) m command i (b ∷ bs) is h =
    let there : command + i + 1 ≡ command + (i + 1) = omega arith in
    let rest = skip_spaces-stripped k m command (i + 1) bs (rw (← there) is.2) (omega arith) in
    elim (Bool-cases (b == b' ')) [
      | inl space ↦ rw (is.0, space) (rest.0, omega (arith, rest.1))
      | inr other ↦ rw (is.0, other) (is, refl)
    ]

-- A line with its terminator is a string of bytes, where it is written.
written-IsString :
    (m m' : Memory) (s p : ℕ) (bs : List ℕ)
    → IsString m s bs
    → IsString (write_bytes m' p (line bs ++ 0 ∷ [])) p (line bs)
written-IsString m m' s p [] is = ground arith
written-IsString m m' s p (b ∷ bs) is = elim (Bool-cases (b == newline)) [
  | inl ends ↦ rw ends (ground arith)
  | inr goes_on ↦
      let first =
        write_bytes_outside (store m' p b) (p + 1) p (line bs ++ 0 ∷ []) (inr (omega arith)) in
      rw goes_on
        (ground (arith, first), is.1, written-IsString m (store m' p b) (s + 1) (p + 1) bs is.2)
]

written-IsBytes :
    (m m' : Memory) (s p : ℕ) (bs : List ℕ)
    → IsBytes m
    → IsBytes m'
    → IsString m s bs
    → IsBytes (write_bytes m' p (line bs ++ 0 ∷ []))
written-IsBytes m m' s p [] bytes bytes' is a = ground (arith, bytes' a)
written-IsBytes m m' s p (b ∷ bs) bytes bytes' is a = elim (Bool-cases (b == newline)) [
  | inl ends ↦ rw ends (ground (arith, bytes' a))
  | inr goes_on ↦
      let small : b < 256 = rw (← is.0) (bytes s) in
      rw goes_on (
        written-IsBytes m (store m' p b) (s + 1) (p + 1) bs bytes
          (λ a'. ground (arith, bytes' a', small)) is.2 a)
]

length-line : (bs : List ℕ) → length (line bs ++ 0 ∷ []) ≤ length bs + 1
length-line [] = omega arith
length-line (b ∷ bs) = ground (arith, length-line bs)

write_magic_outside : (m : Memory) (p a : ℕ) → Apart p 4 a 1 → write_magic m p a ≡ m a
unfolding write_magic
write_magic_outside m p a out = ground arith

write_magic-IsBytes : (m : Memory) (p : ℕ) → IsBytes m → IsBytes (write_magic m p)
unfolding write_magic
write_magic-IsBytes m p bytes a = ground (arith, bytes a)

-- A command of at most 127 characters, beside the buffers of `execute`, and a directory with
-- terminated names that they do not overlap.
pub record IsCommand (f : Frame) (k : Kernel) (command : ℕ) (whole : List ℕ) (names : ℕ → List ℕ)
    : Type 0 where
  pub given : command ≢ null
  pub is_command : IsString (memory_of k) command whole
  pub short : length whole ≤ 127
  pub bytes : IsBytes (memory_of k)
  pub directory : IsDirectory k.fs (memory_of k) names
  pub filename_given : f.filename ≢ null
  pub dentry_given : f.dentry ≢ null
  pub magic_out : Apart f.magic 4 command (length whole + 1)
  pub filename_out : Apart f.filename 128 command (length whole + 1)
  pub directory_out :
      (i : ℕ)
      → i < dentry_max
      → Apart f.magic 4 (dentry_at k.fs i) (length (names i) + 1)
        × Apart f.filename 128 (dentry_at k.fs i) (length (names i) + 1)

module _ (f : Frame) (k : Kernel) (command : ℕ) (whole : List ℕ) (names : ℕ → List ℕ)
    (is : IsCommand f k command whole names) where
  abbrev pub marked : Memory
  marked = write_magic (memory_of k) f.magic

  -- The memory with the magic number and the name that is searched.
  abbrev pub asked : Memory
  asked = write_bytes marked f.filename (line (stripped whole) ++ 0 ∷ [])

  marked-IsString : IsString marked command whole
  marked-IsString =
      IsString-same (memory_of k) marked command whole
        (λ a lo hi. write_magic_outside (memory_of k) f.magic a (ground (arith, is.magic_out)))
        is.is_command

  name-IsString :
      IsString marked (command + name_index marked command) (stripped whole)
      × (name_index marked command + length (stripped whole) ≡ length whole)
  unfolding name_index
  name-IsString =
      let start : command + 0 ≡ command = omega arith in
      let found =
        skip_spaces-stripped 128 marked command 0 whole (rw start marked-IsString)
          (omega (arith, is.short)) in
      (found.0, omega (arith, found.1))

  pub asked-marked : (a : ℕ) → Apart f.filename 128 a 1 → asked a ≡ marked a
  asked-marked a out =
      let len = length-line (stripped whole) in
      let short = is.short in
      let count = name-IsString.1 in
      write_bytes_outside marked f.filename a (line (stripped whole) ++ 0 ∷ []) (omega arith)

  pub asked_outside :
      (a : ℕ) → Apart f.magic 4 a 1 → Apart f.filename 128 a 1 → asked a ≡ memory_of k a
  asked_outside a out out' = asked-marked a out' ∙ write_magic_outside (memory_of k) f.magic a out

  asked-IsDirectory : IsDirectory k.fs asked names
  asked-IsDirectory i h =
      let out = is.directory_out i h in
      (
        IsString-same (memory_of k) asked (dentry_at k.fs i) (names i)
            (λ a lo hi. asked_outside a (ground (arith, out.0)) (ground (arith, out.1)))
            (is.directory i h).0,
        (is.directory i h).1,
      )

  asked-IsBytes : IsBytes asked
  asked-IsBytes =
      let bytes = write_magic-IsBytes (memory_of k) f.magic is.bytes in
      written-IsBytes marked marked (command + name_index marked command) f.filename
        (stripped whole) bytes bytes name-IsString.0

  asked-IsString : IsString asked f.filename (line (stripped whole))
  asked-IsString =
      written-IsString marked marked (command + name_index marked command) f.filename
        (stripped whole) name-IsString.0

  -- The copy of the name.
  named : strcpy marked f.filename (command + name_index marked command) ≡ some asked
  named =
      let count = name-IsString.1 in
      strcpy-write marked f.filename (command + name_index marked command) (stripped whole)
        name-IsString.0 (ground (arith, is.filename_out, is.short, count)) (omega (arith, is.short))

  execute_given : execute f k command ≡ find_program f k command
  unfolding execute
  execute_given =
      let len =
        strlen-IsString (memory_of k) command whole is.is_command (omega (arith, is.short)) in
      ground (arith, len, is.given, is.short)

  -- Whatever a command of at most 127 characters that stands beside the buffers of `execute` and the
  -- directory: where its name, without the leading spaces and up to a newline, is that of the
  -- directory entry `j`, as `read_dentry_by_name` finds it, `execute` goes on with the copy of that
  -- entry and with the arguments behind the name.
  pub execute-found :
      (n j : ℕ)
      → n ≡ length (word (line (stripped whole)))
      → 0 < n
      → n ≤ max_name
      → j < dentry_max
      → SameName (names j) (line (stripped whole)) n
      → ((l : ℕ) → l < j → ¬ SameName (names l) (line (stripped whole)) n)
      → execute f k command
        ≡ load_program f
            (with_memory k (copy_dentry k.fs asked f.dentry j))
            (command + argument_index asked command (name_index marked command))
  unfolding find_program
  execute-found n j len some_name short below same before =
      let found =
        read_dentry_by_name-first k.fs asked names f.filename f.dentry (line (stripped whole))
          asked-IsBytes asked-IsDirectory asked-IsString is.filename_given is.dentry_given n j len
          some_name short below same before in
      execute_given ∙ rw (named, found) refl

  -- For a command, not null, of at most 127 characters in a memory of bytes, with terminated names
  -- in all 63 directory entries and arrays of `execute` that are not null and overlap neither the
  -- command nor those names: where the name of the command, without its leading spaces and up to
  -- the next space or newline, is empty or longer than 32 characters, or no entry both has its
  -- length (cut to 32) and agrees with it in all characters but the last, `execute` returns -1 and
  -- leaves a state in which only the arrays of the magic number and the file name are written.
  pub execute_missing :
      (n : ℕ)
      → n ≡ length (word (line (stripped whole)))
      → (n ≡ 0)
        ⊎ (max_name < n)
        ⊎ ((l : ℕ) → l < dentry_max → ¬ SameName (names l) (line (stripped whole)) n)
      → execute f k command ≡ some (with_memory k asked, returned fail)
  unfolding find_program
  execute_missing n len other =
      let found =
        read_dentry_by_name_missing k.fs asked names f.filename f.dentry (line (stripped whole))
          asked-IsBytes asked-IsDirectory asked-IsString is.filename_given is.dentry_given n len
          other in
      execute_given ∙ rw (named, found) refl
