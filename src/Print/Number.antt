-- ===== src/Print/Number.antt =====
-- The string that `itoa` leaves.
pub mod Bounds
use linux_kernel_os.Memory.{Memory, store}
use mathlib.Core.Path.{subst}
use linux_kernel_os.Prelude.{
  ltb, ◌==◌, if◌then◌else◌, Bool-cases, length, get_or, ℕ, zero, suc, ◌+◌, ◌-◌, ◌*◌, ◌/◌, ◌^◌, ◌≤◌,
  ◌<◌, ◌≡◌, refl, ap, ◌∙◌, ◌≢◌, ◌⊎◌, inl, inr, false, some, List, [], ◌∷◌, arith,
}
use linux_kernel_os.Memory.Write.{write_bytes, write_bytes_outside, write_bytes_inside}
use linux_kernel_os.Strings.{IsString}
use linux_kernel_os.Print.Digits.{characters, number, itoa_loop-number}
use linux_kernel_os.Print.{strrev_loop, strrev, itoa_loop, itoa}
use linux_kernel_os.Strings.Laws.{strlen-IsString}
use linux_kernel_os.Print.Reverse.{mirrored, strrev_loop-mirrored}

-- The elements in the opposite order, in front of others.
abbrev pub reverse_onto : List ℕ → List ℕ → List ℕ
reverse_onto [] acc = acc
reverse_onto (c ∷ cs) acc = reverse_onto cs (c ∷ acc)

-- The number that characters stand for, from the highest digit on, behind a number read before.
abbrev pub numeral : ℕ → ℕ → List ℕ → ℕ
numeral radix acc [] = acc
numeral radix acc (c ∷ cs) =
    numeral radix (acc * radix + (if ltb c b'A' then c - b'0' else c - b'A' + 10)) cs

numeral-reverse_onto :
    (radix : ℕ) (cs acc : List ℕ)
    → numeral radix 0 (reverse_onto cs acc) ≡ numeral radix (number radix cs) acc
numeral-reverse_onto radix [] acc = refl
numeral-reverse_onto radix (c ∷ cs) acc =
    numeral-reverse_onto radix cs (c ∷ acc) ∙ ap (λ (n : ℕ). numeral radix n acc) (ground arith)

AllSet : List ℕ → Type 0
AllSet [] = Unit
AllSet (c ∷ cs) = (c ≢ 0) × AllSet cs

characters-AllSet : (k v radix : ℕ) → AllSet (characters k v radix)
unfolding AllSet
characters-AllSet zero v radix = record {}
characters-AllSet (suc k) v radix = elim (Bool-cases (v == 0)) [
  | inl zero_value ↦ rw zero_value (record {})
  | inr some_value ↦ rw some_value (ground arith, characters-AllSet k (v / radix) radix)
]

length-characters : (k v radix : ℕ) → length (characters k v radix) ≤ k
length-characters zero v radix = omega arith
length-characters (suc k) v radix = ground (arith, length-characters k (v / radix) radix)

-- Characters that are written, with a terminator behind them, are a string.
terminated : Memory → ℕ → List ℕ → Memory
terminated m p cs = store (write_bytes m p cs) (p + length cs) 0

terminated-IsString :
    (m : Memory) (p : ℕ) (cs : List ℕ) → AllSet cs → IsString (terminated m p cs) p cs
unfolding AllSet terminated
terminated-IsString m p [] full = ground arith
terminated-IsString m p (c ∷ cs) full =
    let end : p + 1 + length cs ≡ p + suc (length cs) = omega arith in
    let rest : IsString (terminated m p (c ∷ cs)) (p + 1) cs =
      subst (λ (e : ℕ). IsString (store (write_bytes (store m p c) (p + 1) cs) e 0) (p + 1) cs) end
        (terminated-IsString (store m p c) (p + 1) cs full.1) in
    let first : write_bytes (store m p c) (p + 1) cs p ≡ c =
      write_bytes_outside (store m p c) (p + 1) p cs (inr (omega arith)) ∙ ground arith in
    (ground (arith, first), full.0, rest)

-- A memory that has the elements of `cs` backwards from `p` on, and `acc` behind them.
IsString-reverse_onto :
    (m : Memory) (p : ℕ) (cs acc : List ℕ)
    → AllSet cs
    → ((i : ℕ) → i < length cs → m (p + (length cs - 1 - i)) ≡ get_or cs i 0)
    → IsString m (p + length cs) acc
    → IsString m p (reverse_onto cs acc)
unfolding AllSet
IsString-reverse_onto m p [] acc full same is = let here : p + 0 ≡ p = omega arith in rw (← here) is
IsString-reverse_onto m p (c ∷ cs) acc full same is =
    let place : p + (suc (length cs) - 1 - 0) ≡ p + length cs = omega arith in
    let next : p + suc (length cs) ≡ p + length cs + 1 = omega arith in
    IsString-reverse_onto m p cs (c ∷ acc) full.1
      (λ i h. ap (λ (j : ℕ). m (p + j)) (omega arith) ∙ same (suc i) (omega arith))
      (rw (← place) (same 0 (omega arith)), full.0, rw (← next) is)

-- The characters of a number in a radix, from the highest digit on.
backwards : ℕ → List ℕ → List ℕ
backwards value cs = if value == 0 then b'0' ∷ [] else reverse_onto cs []

unfoldable pub digits : ℕ → ℕ → List ℕ
unfolding backwards
digits value radix = backwards value (characters 32 value radix)

backwards-reverse_onto : (v : ℕ) (cs : List ℕ) → v ≢ 0 → reverse_onto cs [] ≡ backwards v cs
unfolding backwards
backwards-reverse_onto v cs some_value = ground (arith, some_value)

digits-reverse_onto :
    (v radix : ℕ) → v ≢ 0 → reverse_onto (characters 32 v radix) [] ≡ digits v radix
unfolding digits backwards
digits-reverse_onto v radix = backwards-reverse_onto v (characters 32 v radix)

-- The memory behind the reversal of the characters `cs`.
reversed : Memory → ℕ → List ℕ → Memory
reversed m p cs = strrev_loop (length cs) (terminated m p cs) p 0 (length cs - 1)

mirrored_in :
    (m : Memory) (p n i : ℕ) → i < n → mirrored m p 0 (n - 1) (p + (n - 1 - i)) ≡ m (p + i)
mirrored_in m p n i h =
    let place : p + 0 + (p + (n - 1)) - (p + (n - 1 - i)) ≡ p + i = omega arith in
    ground (arith, ap m place)

mirrored_behind : (m : Memory) (p n : ℕ) → 0 < n → mirrored m p 0 (n - 1) (p + n) ≡ m (p + n)
mirrored_behind m p n h = ground arith

terminated_inside :
    (m : Memory) (p i : ℕ) (cs : List ℕ) → i < length cs → terminated m p cs (p + i) ≡ get_or cs i 0
unfolding terminated
terminated_inside m p i cs h = ground (arith, write_bytes_inside m p i cs h)

terminated_end : (m : Memory) (p : ℕ) (cs : List ℕ) → terminated m p cs (p + length cs) ≡ 0
unfolding terminated
terminated_end m p cs = ground arith

reversed-IsString :
    (m : Memory) (p : ℕ) (cs : List ℕ)
    → AllSet cs
    → 0 < length cs
    → IsString (reversed m p cs) p (reverse_onto cs [])
unfolding reversed
reversed-IsString m p cs full some_one =
    let n = length cs in
    let at = λ (a : ℕ). strrev_loop-mirrored n (terminated m p cs) p 0 (n - 1) a (omega arith) in
    IsString-reverse_onto (reversed m p cs) p cs [] full
      (λ i h.
        at (p + (n - 1 - i))
        ∙ mirrored_in (terminated m p cs) p n i h
        ∙ terminated_inside m p i cs h)
      (at (p + n) ∙ mirrored_behind (terminated m p cs) p n some_one ∙ terminated_end m p cs)

itoa-strrev :
    (m : Memory) (v buf radix : ℕ)
    → v ≢ 0
    → let (m', end) = itoa_loop 32 m buf v radix in itoa m v buf radix ≡ strrev (store m' end 0) buf
unfolding itoa
itoa-strrev m v buf radix some_value =
    let more : (v == 0) ≡ false = ground (arith, some_value) in rw more refl

strrev-reversed :
    (m : Memory) (p : ℕ) (cs : List ℕ)
    → AllSet cs
    → length cs < 2 ^ 32
    → strrev (terminated m p cs) p ≡ some (reversed m p cs)
unfolding strrev reversed
strrev-reversed m p cs full small =
    rw (strlen-IsString (terminated m p cs) p cs (terminated-IsString m p cs full) small) refl

itoa-reversed :
    (m : Memory) (v buf radix : ℕ)
    → v < 2 ^ 32
    → v ≢ 0
    → (radix ≡ 10) ⊎ (radix ≡ 16)
    → itoa m v buf radix ≡ some (reversed m buf (characters 32 v radix))
unfolding terminated
itoa-reversed m v buf radix small some_value which =
    itoa-strrev m v buf radix some_value
    ∙ ap (λ (r : Memory × ℕ). strrev (store r.0 r.1 0) buf)
        (itoa_loop-number m buf v radix small which).0
    ∙ strrev-reversed m buf (characters 32 v radix) (characters-AllSet 32 v radix)
        (omega (arith, length-characters 32 v radix))

length-characters_set : (k v radix : ℕ) → v ≢ 0 → 0 < length (characters (suc k) v radix)
length-characters_set k v radix some_value = ground (arith, some_value)

itoa-numeral_zero :
    (m : Memory) (v buf radix : ℕ)
    → v ≡ 0
    → (m' : Memory) × (itoa m v buf radix ≡ some m')
      × IsString m' buf (digits v radix)
      × (numeral radix 0 (digits v radix) ≡ v)
unfolding itoa digits backwards
itoa-numeral_zero m v buf radix e = rw e (
  store (store m buf b'0') (buf + 1) 0,
  refl,
  (ground arith, omega arith, ground arith),
  omega arith,
)

-- For a value below 2 ^ 32 in the radix 10 or 16, `itoa` comes to its end, and leaves at the buffer
-- the string of the digits of the value, from the highest on; read as a numeral, the string gives the
-- value back.
pub itoa-numeral :
    (m : Memory) (v buf radix : ℕ)
    → v < 2 ^ 32
    → (radix ≡ 10) ⊎ (radix ≡ 16)
    → (m' : Memory) × (itoa m v buf radix ≡ some m')
      × IsString m' buf (digits v radix)
      × (numeral radix 0 (digits v radix) ≡ v)
itoa-numeral m v buf radix small which = elim (Bool-cases (v == 0)) [
  | inl zero_value ↦ itoa-numeral_zero m v buf radix (ground (arith, zero_value))
  | inr some_value ↦
      let nonzero : v ≢ 0 = λ e. absurd (ground arith) in
      let cs = characters 32 v radix in
      let same = digits-reverse_onto v radix nonzero in
      (
        reversed m buf cs,
        itoa-reversed m v buf radix small nonzero which,
        subst (IsString (reversed m buf cs) buf) same (
            reversed-IsString m buf cs (characters-AllSet 32 v radix)
              (length-characters_set 31 v radix nonzero)),
        subst (λ (ds : List ℕ). numeral radix 0 ds ≡ v) same
            (numeral-reverse_onto radix cs [] ∙ (itoa_loop-number m buf v radix small which).1),
      )
]
