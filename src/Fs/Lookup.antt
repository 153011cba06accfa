-- ===== src/Fs/Lookup.antt =====
-- Which directory entry a name finds.
use linux_kernel_os.Prelude.{
  leb, ◌==◌, if◌then◌else◌, Bool-cases, length, ℕ, zero, suc, ◌+◌, ◌-◌, ◌^◌, ◌≤◌, ◌<◌, min, ◌≡◌,
  refl, ◌≢◌, ◌↔◌, ◌⊎◌, inl, inr, true, false, some, List, [], ◌∷◌, arith,
}
use linux_kernel_os.Prelude.Int.{ℤ, pos, negsuc, fail, is_zero}
use linux_kernel_os.Memory.{Memory, null}
use linux_kernel_os.Memory.Write.{take}
use linux_kernel_os.Strings.{strncmp, IsString}
use linux_kernel_os.Strings.Laws.{strlen-IsString}
use linux_kernel_os.Strings.Compare.{IsBytes, strncmp-take}
use linux_kernel_os.Fs.{dentry_max, max_name, Fs, dentry_at}
use linux_kernel_os.Fs.Dentry.{
  copy_dentry, name_length_loop, name_length, matches, find_dentry_loop, read_dentry_by_name,
}

-- The characters before the first space.
abbrev pub word : List ℕ → List ℕ
word [] = []
word (b ∷ bs) = if b == b' ' then [] else b ∷ word bs

name_length_loop-word :
    (k : ℕ) (m : Memory) (name n : ℕ) (bs : List ℕ)
    → IsString m (name + n) bs
    → name_length_loop k m name n ≡ n + min k (length (word bs))
unfolding name_length_loop
name_length_loop-word zero m name n bs is = omega arith
name_length_loop-word (suc k) m name n [] is = ground arith
name_length_loop-word (suc k) m name n (b ∷ bs) is =
    let there : name + n + 1 ≡ name + (n + 1) = omega arith in
    ground (arith, name_length_loop-word k m name (n + 1) bs (rw (← there) is.2))

name_length-word :
    (m : Memory) (name : ℕ) (bs : List ℕ)
    → IsString m name bs
    → name_length m name ≡ min 33 (length (word bs))
unfolding name_length
name_length-word m name bs is =
    let start : name + 0 ≡ name = omega arith in
    omega (arith, name_length_loop-word 33 m name 0 bs (rw start is))

-- The names of the entries: each field, read on to the first terminator.
abbrev pub IsDirectory : Fs → Memory → (ℕ → List ℕ) → Type 0
IsDirectory fs m names =
    (i : ℕ) → i < dentry_max → IsString m (dentry_at fs i) (names i) × (length (names i) < 2 ^ 32)

-- What the code takes for the same name, when `n` characters are asked for: an entry of that length
-- that agrees in all characters but the last.
abbrev pub SameName : List ℕ → List ℕ → ℕ → Type 0
SameName entry asked n =
    (min (length entry) max_name ≡ n) × (take (n - 1) entry ≡ take (n - 1) asked)

is_zero-eq : (z : ℤ) → (is_zero z ≡ true) ↔ (z ≡ pos 0)
is_zero-eq (pos n) = ground arith
is_zero-eq (negsuc n) = ground arith

module _ (fs : Fs) (m : Memory) (names : ℕ → List ℕ) (name dentry : ℕ) (asked : List ℕ)
    (bytes : IsBytes m) (directory : IsDirectory fs m names) (is : IsString m name asked) where
  matches-SameName :
      (n i : ℕ) → i < dentry_max → SameName (names i) asked n → matches fs m name n i ≡ some true
  unfolding matches
  matches-SameName n i h same =
      let len = strlen-IsString m (dentry_at fs i) (names i) (directory i h).0 (directory i h).1 in
      let compare' =
        strncmp-take m (dentry_at fs i) name bytes (n - 1) (names i) asked (directory i h).0 is in
      rw len (ground (arith, is_zero-eq (strncmp m (dentry_at fs i) name (n - 1)), compare'))

  matches_other :
      (n i : ℕ) → i < dentry_max → ¬ SameName (names i) asked n → matches fs m name n i ≡ some false
  unfolding matches
  matches_other n i h other =
      let len = strlen-IsString m (dentry_at fs i) (names i) (directory i h).0 (directory i h).1 in
      let compare' =
        strncmp-take m (dentry_at fs i) name bytes (n - 1) (names i) asked (directory i h).0 is in
      rw len (ground (arith, is_zero-eq (strncmp m (dentry_at fs i) name (n - 1)), compare'))

  find_dentry_loop-first :
      (k n i j : ℕ)
      → i + k ≡ dentry_max
      → i ≤ j
      → j < dentry_max
      → SameName (names j) asked n
      → ((l : ℕ) → l < j → ¬ SameName (names l) asked n)
      → find_dentry_loop k fs m name dentry n i ≡ some (copy_dentry fs m dentry j, pos 0)
  unfolding find_dentry_loop
  find_dentry_loop-first zero n i j end from below same before = absurd (omega arith)
  find_dentry_loop-first (suc k) n i j end from below same before = elim (Bool-cases (i == j)) [
    | inl here ↦ let at : i ≡ j = ground arith in rw (at, matches-SameName n j below same)
    | inr not_here ↦
        rw (matches_other n i (omega arith) (before i (ground arith)))
          (find_dentry_loop-first k n (i + 1) j (omega arith) (ground arith) below same before)
  ]

  find_dentry_loop_missing :
      (k n i : ℕ)
      → i + k ≡ dentry_max
      → ((l : ℕ) → l < dentry_max → ¬ SameName (names l) asked n)
      → find_dentry_loop k fs m name dentry n i ≡ some (m, fail)
  unfolding find_dentry_loop
  find_dentry_loop_missing zero n i end other = refl
  find_dentry_loop_missing (suc k) n i end other =
      rw (matches_other n i (omega arith) (other i (omega arith)))
        (find_dentry_loop_missing k n (i + 1) (omega arith) other)

  module _ (named : name ≢ null) (given : dentry ≢ null) where
    -- In a memory of bytes, with terminated names in all 63 entries and pointers that are not null,
    -- a name of one to 32 characters, ended by a space or the terminator, finds the first entry
    -- that has its length, cut to 32, and agrees with it in all characters but the last: the call
    -- copies that entry to `dentry` and returns 0.
    pub read_dentry_by_name-first :
        (n j : ℕ)
        → n ≡ length (word asked)
        → 0 < n
        → n ≤ max_name
        → j < dentry_max
        → SameName (names j) asked n
        → ((l : ℕ) → l < j → ¬ SameName (names l) asked n)
        → read_dentry_by_name fs m name dentry ≡ some (copy_dentry fs m dentry j, pos 0)
    unfolding read_dentry_by_name
    read_dentry_by_name-first n j len some_name short below same before =
        let counted : name_length m name ≡ n = omega (arith, name_length-word m name asked is) in
        let found = find_dentry_loop-first dentry_max n 0 j refl (omega arith) below same before in
        ground (arith, counted, found)

    -- In a memory of bytes, with terminated names in all 63 entries and pointers that are not null:
    -- where no entry matches so, or the name is empty or longer than 32 characters, the call fails
    -- and writes nothing.
    pub read_dentry_by_name_missing :
        (n : ℕ)
        → n ≡ length (word asked)
        → (n ≡ 0) ⊎ (max_name < n) ⊎ ((l : ℕ) → l < dentry_max → ¬ SameName (names l) asked n)
        → read_dentry_by_name fs m name dentry ≡ some (m, fail)
    unfolding read_dentry_by_name
    read_dentry_by_name_missing n len (inl none_given) =
        let counted : name_length m name ≡ 0 = omega (arith, name_length-word m name asked is) in
        ground (arith, counted)
    read_dentry_by_name_missing n len (inr (inl long)) =
        let counted : name_length m name ≡ 33 = omega (arith, name_length-word m name asked is) in
        ground (arith, counted)
    read_dentry_by_name_missing n len (inr (inr other)) = elim (Bool-cases (leb n 32)) [
      | inl short ↦
          let counted : name_length m name ≡ n = ground (arith, name_length-word m name asked is) in
          ground (arith, counted, find_dentry_loop_missing dentry_max n 0 refl other)
      | inr long ↦
          let counted : name_length m name ≡ 33 =
            ground (arith, name_length-word m name asked is) in
          ground (arith, counted)
    ]
