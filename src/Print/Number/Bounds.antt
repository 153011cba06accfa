-- ===== src/Print/Number/Bounds.antt =====
-- Where `itoa` writes, and how many characters, of which kind.
use linux_kernel_os.Memory.{Memory, store}
use linux_kernel_os.Memory.Write.{Apart, write_bytes_outside}
use linux_kernel_os.Print.Digits.{characters}
use linux_kernel_os.Print.Number.{
  reverse_onto, digits, backwards, terminated, reversed, itoa-reversed, length-characters,
}
use linux_kernel_os.Print.Reverse.{strrev_loop-mirrored}
use linux_kernel_os.Print.{itoa}
use native.Mathlib.Nat.{pow-suc}
use linux_kernel_os.Prelude.{
  ◌==◌, Bool-cases, length, ℕ, zero, suc, ◌+◌, ◌-◌, ◌/◌, ◌^◌, ◌≤◌, ◌<◌, ◌≡◌, refl, sym, ap, ◌∙◌,
  ◌≢◌, ◌⊎◌, inl, inr, Option, some, List, [], ◌∷◌, arith,
}

-- No character is a backspace.
abbrev pub IsPlain : List ℕ → Type 0
IsPlain [] = Unit
IsPlain (b ∷ bs) = (b ≢ 8) × IsPlain bs

characters-IsPlain : (k v radix : ℕ) → IsPlain (characters k v radix)
characters-IsPlain zero v radix = record {}
characters-IsPlain (suc k) v radix = elim (Bool-cases (v == 0)) [
  | inl zero_value ↦ rw zero_value (record {})
  | inr some_value ↦ rw some_value (ground arith, characters-IsPlain k (v / radix) radix)
]

reverse_onto-IsPlain : (cs acc : List ℕ) → IsPlain cs → IsPlain acc → IsPlain (reverse_onto cs acc)
reverse_onto-IsPlain [] acc plain rest = rest
reverse_onto-IsPlain (c ∷ cs) acc plain rest =
    reverse_onto-IsPlain cs (c ∷ acc) plain.1 (plain.0, rest)

length-reverse_onto : (cs acc : List ℕ) → length (reverse_onto cs acc) ≡ length cs + length acc
length-reverse_onto [] acc = omega arith
length-reverse_onto (c ∷ cs) acc = omega (arith, length-reverse_onto cs (c ∷ acc))

backwards-IsPlain : (v : ℕ) (cs : List ℕ) → IsPlain cs → IsPlain (backwards v cs)
unfolding backwards
backwards-IsPlain v cs plain = elim (Bool-cases (v == 0)) [
  | inl zero_value ↦ rw zero_value (ground arith, record {})
  | inr some_value ↦ rw some_value (reverse_onto-IsPlain cs [] plain (record {}))
]

length-backwards : (v n : ℕ) (cs : List ℕ) → length cs ≤ n → length (backwards v cs) ≤ n + 1
unfolding backwards
length-backwards v n cs few = ground (arith, length-reverse_onto cs [])

length-backwards_zero : (v : ℕ) (cs : List ℕ) → v ≡ 0 → length (backwards v cs) ≤ 8
unfolding backwards
length-backwards_zero v cs none = ground arith

length-backwards_set : (v n : ℕ) (cs : List ℕ) → v ≢ 0 → length cs ≤ n → length (backwards v cs) ≤ n
unfolding backwards
length-backwards_set v n cs some_value few = ground (arith, length-reverse_onto cs [])

-- The digits are no backspaces.
pub digits-IsPlain : (v radix : ℕ) → IsPlain (digits v radix)
unfolding digits
digits-IsPlain v radix = backwards-IsPlain v (characters 32 v radix) (characters-IsPlain 32 v radix)

-- There are at most 33 of them.
pub length-digits : (v radix : ℕ) → length (digits v radix) ≤ 33
unfolding digits
length-digits v radix = length-backwards v 32 (characters 32 v radix) (length-characters 32 v radix)

length-characters_hex : (k j v : ℕ) → v < 16 ^ j → length (characters k v 16) ≤ j
length-characters_hex zero j v small = omega arith
length-characters_hex (suc k) zero v small = ground arith
length-characters_hex (suc k) (suc j) v small =
    let less : v / 16 < 16 ^ j = omega (arith, pow-suc 16 j) in
    ground (arith, length-characters_hex k j (v / 16) less)

-- A word has at most 8 hexadecimal digits.
pub length-digits_hex : (v : ℕ) → v < 2 ^ 32 → length (digits v 16) ≤ 8
unfolding digits
length-digits_hex v small = elim (Bool-cases (v == 0)) [
  | inl zero_value ↦ length-backwards_zero v (characters 32 v 16) (ground arith)
  | inr some_value ↦
      length-backwards_set v 8 (characters 32 v 16) (λ e. absurd (ground arith))
        (length-characters_hex 32 8 v small)
]

reversed_outside :
    (m : Memory) (p : ℕ) (cs : List ℕ) (a : ℕ)
    → Apart p (length cs + 1) a 1
    → reversed m p cs a ≡ m a
unfolding reversed terminated
reversed_outside m p cs a out =
    let n = length cs in
    strrev_loop-mirrored n (terminated m p cs) p 0 (n - 1) a (omega arith)
    ∙ ground (arith, write_bytes_outside m p a cs)

-- Two results of one run.
some_path {ℓ} : {A : Type ℓ} {o : Option A} (a b : A) → o ≡ some a → o ≡ some b → a ≡ b
some_path a b p q = cc

itoa-zero :
    (m : Memory) (v buf radix : ℕ)
    → v ≡ 0
    → itoa m v buf radix ≡ some (store (store m buf b'0') (buf + 1) 0)
unfolding itoa
itoa-zero m v buf radix e = rw e refl

itoa_outside_zero :
    (m m' : Memory) (v buf radix a : ℕ)
    → v ≡ 0
    → itoa m v buf radix ≡ some m'
    → Apart buf 33 a 1
    → m' a ≡ m a
itoa_outside_zero m m' v buf radix a e done out =
    let same =
      some_path (store (store m buf b'0') (buf + 1) 0) m' (itoa-zero m v buf radix e) done in
    ap (λ (n : Memory). n a) (sym same) ∙ ground arith

-- `itoa` of a word writes to the 33 bytes from the buffer on only.
pub itoa_outside :
    (m m' : Memory) (v buf radix a : ℕ)
    → v < 2 ^ 32
    → (radix ≡ 10) ⊎ (radix ≡ 16)
    → itoa m v buf radix ≡ some m'
    → Apart buf 33 a 1
    → m' a ≡ m a
itoa_outside m m' v buf radix a small which done out = elim (Bool-cases (v == 0)) [
  | inl zero_value ↦ itoa_outside_zero m m' v buf radix a (ground arith) done out
  | inr some_value ↦
      let same =
        some_path (reversed m buf (characters 32 v radix)) m'
          (itoa-reversed m v buf radix small (λ e. absurd (ground arith)) which) done in
      ap (λ (n : Memory). n a) (sym same)
      ∙ reversed_outside m buf (characters 32 v radix) a
          (omega (arith, length-characters 32 v radix))
]
