-- ===== src/Print/Digits.antt =====
-- The digits that `itoa` makes, before it reverses them.
use linux_kernel_os.Print.{digit, itoa_loop}
use linux_kernel_os.Memory.{Memory, store}
use linux_kernel_os.Memory.Write.{write_bytes}
use linux_kernel_os.Prelude.{
  ltb, ◌==◌, if◌then◌else◌, Bool-cases, length, ℕ, zero, suc, ◌+◌, ◌-◌, ◌*◌, ◌/◌, ◌%◌, ◌^◌, ◌<◌,
  ◌≡◌, ◌⊎◌, inl, inr, List, [], ◌∷◌, arith,
}

-- The characters of a number in a radix, from the lowest digit on, with the fuel of the loop.
abbrev pub characters : ℕ → ℕ → ℕ → List ℕ
characters zero value radix = []
characters (suc k) value radix =
    let rest = characters k (value / radix) radix in
    if value == 0 then [] else digit (value % radix) ∷ rest

-- The number that such characters stand for.
abbrev pub number : ℕ → List ℕ → ℕ
number radix [] = 0
number radix (c ∷ cs) = (if ltb c b'A' then c - b'0' else c - b'A' + 10) + radix * number radix cs

number-characters_decimal : (k v : ℕ) → v < 2 ^ k → number 10 (characters k v 10) ≡ v
number-characters_decimal zero v h = omega arith
number-characters_decimal (suc k) v h = elim (Bool-cases (v == 0)) [
  | inl none ↦ ground arith
  | inr some_value ↦
      let rest = number-characters_decimal k (v / 10) (omega arith) in
      ground (arith, rest, some_value)
]

number-characters_hex : (k v : ℕ) → v < 2 ^ k → number 16 (characters k v 16) ≡ v
number-characters_hex zero v h = omega arith
number-characters_hex (suc k) v h = elim (Bool-cases (v == 0)) [
  | inl none ↦ ground arith
  | inr some_value ↦
      let rest = number-characters_hex k (v / 16) (omega arith) in ground (arith, rest, some_value)
]

itoa_loop-characters :
    (k : ℕ) (m : Memory) (buf v radix : ℕ)
    → itoa_loop k m buf v radix
      ≡ (write_bytes m buf (characters k v radix), buf + length (characters k v radix))
unfolding itoa_loop
itoa_loop-characters zero m buf v radix = ground arith
itoa_loop-characters (suc k) m buf v radix =
    let rest =
      itoa_loop-characters k (store m buf (digit (v % radix))) (buf + 1) (v / radix) radix in
    ground (arith, rest)

-- For a value below 2 ^ 32 in the radix 10 or 16, the loop of `itoa` writes the characters of the
-- value, from the lowest digit on, and nothing else, and ends behind them; read as digits they give
-- the value back.
pub itoa_loop-number :
    (m : Memory) (buf v radix : ℕ)
    → v < 2 ^ 32
    → (radix ≡ 10) ⊎ (radix ≡ 16)
    → let cs = characters 32 v radix in
      (itoa_loop 32 m buf v radix ≡ (write_bytes m buf cs, buf + length cs)) × (number radix cs ≡ v)
itoa_loop-number m buf v radix h (inl ten) =
    (itoa_loop-characters 32 m buf v radix, rw ten (number-characters_decimal 32 v h))
itoa_loop-number m buf v radix h (inr hex) =
    (itoa_loop-characters 32 m buf v radix, rw hex (number-characters_hex 32 v h))
