-- ===== src/Strings/Compare.antt =====
-- When `strncmp` finds two strings equal.
use linux_kernel_os.Prelude.{ℕ, zero, suc, ◌+◌, ◌≤◌, ◌<◌, ◌≡◌, refl, ◌↔◌, List, [], ◌∷◌, arith}
use linux_kernel_os.Prelude.Int.{pos}
use linux_kernel_os.Memory.{Memory}
use linux_kernel_os.Memory.Write.{take}
use linux_kernel_os.Strings.{char_sub, strncmp_loop, strncmp, IsString}

-- Every cell of the memory is a byte.
abbrev pub IsBytes : Memory → Type 0
IsBytes m = (a : ℕ) → m a < 256

char_sub-zero : (a b : ℕ) → a < 256 → b < 256 → char_sub a b ≡ pos 0 → a ≡ b
unfolding char_sub
char_sub-zero a b ha hb h = ground arith

char_sub_self : (a : ℕ) → char_sub a a ≡ pos 0
unfolding char_sub
char_sub_self a = ground arith

module _ (m : Memory) (s1 s2 : ℕ) (bytes : IsBytes m) where
  strncmp_loop-take :
      (k i : ℕ) (bs cs : List ℕ)
      → IsString m (s1 + i) bs
      → IsString m (s2 + i) cs
      → (strncmp_loop k m s1 s2 i ≡ pos 0) ↔ (take k bs ≡ take k cs)
  unfolding strncmp_loop
  strncmp_loop-take zero i bs cs is js = (λ _. refl, λ _. refl)
  strncmp_loop-take (suc k) i [] [] is js = (λ _. refl, λ _. ground (arith, char_sub_self 0))
  strncmp_loop-take (suc k) i [] (c ∷ cs) is js = (
    λ h. ground (arith, char_sub-zero (m (s1 + i)) (m (s2 + i)), bytes (s1 + i), bytes (s2 + i)),
    λ h. cc,
  )
  strncmp_loop-take (suc k) i (b ∷ bs) [] is js = (
    λ h. ground (arith, char_sub-zero (m (s1 + i)) (m (s2 + i)), bytes (s1 + i), bytes (s2 + i)),
    λ h. cc,
  )
  strncmp_loop-take (suc k) i (b ∷ bs) (c ∷ cs) is js =
      let at1 : s1 + i + 1 ≡ s1 + (i + 1) = omega arith in
      let at2 : s2 + i + 1 ≡ s2 + (i + 1) = omega arith in
      let rest = strncmp_loop-take k (i + 1) bs cs (rw (← at1) is.2) (rw (← at2) js.2) in
      (
        λ h.
            ground (
              arith,
              rest,
              char_sub-zero (m (s1 + i)) (m (s2 + i)),
              bytes (s1 + i),
              bytes (s2 + i),
            ),
        λ h. ground (arith, rest),
      )

  -- In a memory of bytes `strncmp` returns 0 exactly when the two strings agree in their first `n`
  -- characters, the end of a string counting as a character.
  pub strncmp-take :
      (n : ℕ) (bs cs : List ℕ)
      → IsString m s1 bs
      → IsString m s2 cs
      → (strncmp m s1 s2 n ≡ pos 0) ↔ (take n bs ≡ take n cs)
  unfolding strncmp
  strncmp-take n bs cs is js =
      let at1 : s1 + 0 ≡ s1 = omega arith in
      let at2 : s2 + 0 ≡ s2 = omega arith in strncmp_loop-take n 0 bs cs (rw at1 is) (rw at2 js)

strncmp_loop-same :
    (m : Memory) (s1 s2 k i : ℕ)
    → ((j : ℕ) → i ≤ j → j < i + k → m (s1 + j) ≡ m (s2 + j))
    → strncmp_loop k m s1 s2 i ≡ pos 0
unfolding strncmp_loop
strncmp_loop-same m s1 s2 zero i same = refl
strncmp_loop-same m s1 s2 (suc k) i same =
    let rest =
      strncmp_loop-same m s1 s2 k (i + 1) (λ j lo hi. same j (omega arith) (omega arith)) in
    let here = same i (omega arith) (omega arith) in
    ground (arith, rest, here, char_sub_self (m (s2 + i)))

-- Bytes that agree compare equal, with no terminator needed.
pub strncmp-same :
    (m : Memory) (s1 s2 n : ℕ)
    → ((j : ℕ) → j < n → m (s1 + j) ≡ m (s2 + j))
    → strncmp m s1 s2 n ≡ pos 0
unfolding strncmp
strncmp-same m s1 s2 n same = strncmp_loop-same m s1 s2 n 0 (λ j lo hi. same j (omega arith))
