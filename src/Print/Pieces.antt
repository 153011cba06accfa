-- ===== src/Print/Pieces.antt =====
-- One turn of `printf` puts what its character of the format stands for on the screen.
use linux_kernel_os.Memory.{Memory, store}
use linux_kernel_os.Memory.Write.{Apart}
use linux_kernel_os.Console.{Console}
use linux_kernel_os.Console.Bounds.{screen_bytes}
use linux_kernel_os.Console.Cursor.{OnScreen}
use linux_kernel_os.Console.Frame.{SameBut}
use linux_kernel_os.Strings.{IsString}
use linux_kernel_os.Strings.Laws.{strlen-IsString, IsString-store}
use linux_kernel_os.Print.{
  Place, text, Printing, fill_loop, print_string, print_char, print_signed, print_hex,
  print_unsigned, itoa,
}
use linux_kernel_os.Print.Number.{digits, itoa-numeral}
use linux_kernel_os.Print.Number.Bounds.{
  IsPlain, digits-IsPlain, length-digits, length-digits_hex, itoa_outside,
}
use linux_kernel_os.Print.Rendering.{signed, padded, Outside}
use linux_kernel_os.Print.Shown.{
  put_all, IsString-same, puts-put_all, put_all-OnScreen, video_mem-put_all, put_all_outside,
  put_all-SameBut,
}
use linux_kernel_os.Prelude.{
  ltb, ◌>>=◌, Bool-cases, length, replicate, ℕ, zero, suc, ◌+◌, ◌-◌, ◌^◌, ◌≤◌, ◌<◌, ◌≡◌, refl, sym,
  ◌∙◌, ◌≢◌, ◌⊎◌, inl, inr, true, false, some, List, [], ◌∷◌, ◌++◌, arith,
}

-- The memory `m` in a run of `printf` that began in `m0`, with the screen at `v` and the buffer of the
-- conversions at `conv`: it is the memory `g` that the characters given to `putc` make, but for that
-- buffer.
pub record Follows (v conv : ℕ) (m0 g : Memory) (c : Console) (m : Memory) : Type 0 where
  pub same : SameBut conv 64 g m
  pub kept : (a : ℕ) → Apart v screen_bytes a 1 → g a ≡ m0 a
  pub on : OnScreen c
  pub at : c.video_mem ≡ v

pub Follows-IsString :
    (v conv : ℕ) (m0 g : Memory) (c : Console) (m : Memory) (s : ℕ) (bs : List ℕ)
    → Follows v conv m0 g c m
    → Outside v conv s (length bs + 1)
    → IsString m0 s bs
    → IsString m s bs
Follows-IsString v conv m0 g c m s bs f out is =
    IsString-same m0 m s bs
      (λ a lo hi. sym (f.same a (ground (arith, out.1))) ∙ f.kept a (ground (arith, out.0))) is

Follows-put_all :
    (v conv : ℕ) (m0 g : Memory) (c : Console) (m : Memory) (bs : List ℕ)
    → Apart v screen_bytes conv 64
    → Follows v conv m0 g c m
    → IsPlain bs
    → ((put_all g c bs).1 ≡ (put_all m c bs).1)
      × Follows v conv m0 (put_all g c bs).0 (put_all m c bs).1 (put_all m c bs).0
Follows-put_all v conv m0 g c m bs off f plain =
    let (cursor, same) = put_all-SameBut g m c bs conv 64 (rw f.at off) f.same in
    (
      cursor,
      record {
        same = same;
        kept = λ a out. put_all_outside g c bs a f.on plain (rw f.at out) ∙ f.kept a out;
        on = put_all-OnScreen m c bs f.on plain;
        at = video_mem-put_all m c bs ∙ f.at;
      },
    )

-- What a turn leaves: it has shown `out`, and goes on at the next character, in `place` and with the
-- word `n`.
abbrev pub Shows : ℕ → ℕ → Memory → Memory → Printing → List ℕ → ℕ → Place → Printing → Type 0
Shows v conv m0 g p out n place p' =
    (p'.buf ≡ p.buf + 1)
    × (p'.next ≡ n)
    × (p'.place ≡ place)
    × (p'.console ≡ (put_all g p.console out).1)
    × Follows v conv m0 (put_all g p.console out).0 p'.console p'.memory

fill_loop_outside :
    (k : ℕ) (m : Memory) (conv i a : ℕ) → Apart (conv + i) k a 1 → fill_loop k m conv i a ≡ m a
unfolding fill_loop
fill_loop_outside zero m conv i a out = refl
fill_loop_outside (suc k) m conv i a out =
    fill_loop_outside k (store m (conv + i) b'0') conv (i + 1) a (ground arith) ∙ ground arith

-- The zeros that are filled in stand before the digits.
fill_loop-IsString :
    (k : ℕ) (m : Memory) (conv i : ℕ) (ds : List ℕ)
    → i + k ≡ 8
    → IsString m (conv + 8) ds
    → IsString (fill_loop k m conv i) (conv + i) (replicate k b'0' ++ ds)
unfolding fill_loop
fill_loop-IsString zero m conv i ds e is = let there : i ≡ 8 = omega arith in rw there is
fill_loop-IsString (suc k) m conv i ds e is =
    let m' = store m (conv + i) b'0' in
    let next : conv + (i + 1) ≡ conv + i + 1 = omega arith in
    let rest =
      fill_loop-IsString k m' conv (i + 1) ds (omega arith)
        (IsString-store m (conv + 8) (conv + i) b'0' ds is (inl (omega arith))) in
    (
      fill_loop_outside k m' conv (i + 1) (conv + i) (inr (omega arith)) ∙ ground arith,
      omega arith,
      rw (← next) rest,
    )

padded-IsPlain : (k : ℕ) (ds : List ℕ) → IsPlain ds → IsPlain (replicate k b'0' ++ ds)
padded-IsPlain zero ds plain = plain
padded-IsPlain (suc k) ds plain = (omega arith, padded-IsPlain k ds plain)

length-padded : (k : ℕ) (ds : List ℕ) → length (replicate k b'0' ++ ds) ≡ k + length ds
length-padded zero ds = omega arith
length-padded (suc k) ds = omega (arith, length-padded k ds)

module _ (v conv : ℕ) (m0 g : Memory) (p : Printing) (off : Apart v screen_bytes conv 64)
    (f : Follows v conv m0 g p.console p.memory) where
  -- A memory that differs in the buffer only follows too.
  rewritten : (m : Memory) → SameBut conv 64 p.memory m → Follows v conv m0 g p.console m
  rewritten m same = record {
    same = λ a out. f.same a out ∙ same a out;
    kept = f.kept;
    on = f.on;
    at = f.at;
  }

  pub print_string-Shows :
      (m : Memory) (s : ℕ) (out : List ℕ)
      → SameBut conv 64 p.memory m
      → IsString m s out
      → IsPlain out
      → length out < 2 ^ 31
      → Apart v screen_bytes s (length out + 1)
      → (p' : Printing) × (print_string (record p { memory = m }) s ≡ some p')
        × Shows v conv m0 g p out (p.next + 1) text p'
  unfolding print_string
  print_string-Shows m s out same is plain small apart =
      let f' = rewritten m same in
      let (cursor, follows) = Follows-put_all v conv m0 g p.console m out off f' plain in
      (
        record p {
          memory = (put_all m p.console out).0;
          console = (put_all m p.console out).1;
          buf = p.buf + 1;
          next = p.next + 1;
          place = text;
        },
        rw (puts-put_all m p.console s out is plain f.on (rw f.at apart) small) refl,
        (refl, refl, refl, sym cursor, follows),
      )

  -- `itoa` to the buffer, at an index of at most 8, behind what stands there.
  itoa-SameBut :
      (m m' : Memory) (w i radix : ℕ)
      → w < 2 ^ 32
      → i ≤ 8
      → (radix ≡ 10) ⊎ (radix ≡ 16)
      → SameBut conv 64 p.memory m
      → itoa m w (conv + i) radix ≡ some m'
      → SameBut conv 64 p.memory m'
  itoa-SameBut m m' w i radix small near which same done a out =
      same a out ∙ sym (itoa_outside m m' w (conv + i) radix a small which done (ground arith))

  -- The digits of a word, shown from the start of the buffer.
  number-Shows :
      (w radix : ℕ)
      → w < 2 ^ 32
      → (radix ≡ 10) ⊎ (radix ≡ 16)
      → (p' : Printing) × ((itoa p.memory w conv radix >>= λ m.
            print_string (record p { memory = m }) conv)
          ≡ some p')
        × Shows v conv m0 g p (digits w radix) (p.next + 1) text p'
  number-Shows w radix small which =
      let here : conv + 0 ≡ conv = omega arith in
      let (m', done, is, value) = itoa-numeral p.memory w conv radix small which in
      let same =
        itoa-SameBut p.memory m' w 0 radix small (omega arith) which (λ a out. refl)
          (rw here done) in
      let few = length-digits w radix in
      rw done (
        print_string-Shows m' conv (digits w radix) same is (digits-IsPlain w radix)
          (omega (arith, few)) (ground (arith, off, few)))

  pub print_unsigned-Shows :
      (w : ℕ)
      → w < 2 ^ 32
      → (p' : Printing) × (print_unsigned conv p w ≡ some p')
        × Shows v conv m0 g p (digits w 10) (p.next + 1) text p'
  unfolding print_unsigned
  print_unsigned-Shows w small = number-Shows w 10 small (inl refl)

  pub print_signed-Shows :
      (w : ℕ)
      → w < 2 ^ 32
      → (p' : Printing) × (print_signed conv p w ≡ some p')
        × Shows v conv m0 g p (signed w) (p.next + 1) text p'
  unfolding print_signed
  print_signed-Shows w small = elim (Bool-cases (ltb w (2 ^ 31))) [
    | inl positive ↦ rw positive (number-Shows w 10 small (inl refl))
    | inr negative ↦
        let m = store p.memory conv b'-' in
        let minus = 2 ^ 32 - w in
        let small' : minus < 2 ^ 32 = ground (arith, negative) in
        let (m', done, is, value) = itoa-numeral m minus (conv + 1) 10 small' (inl refl) in
        let same =
          itoa-SameBut m m' minus 1 10 small' (omega arith) (inl refl) (λ a out. ground arith)
            done in
        let first : m' conv ≡ b'-' =
          itoa_outside m m' minus (conv + 1) 10 conv small' (inl refl) done (inr (omega arith))
          ∙ ground arith in
        let few = length-digits minus 10 in
        rw (negative, done)
          (print_string-Shows m' conv (b'-' ∷ digits minus 10) same (first, omega arith, is)
            (omega arith, digits-IsPlain minus 10) (omega (arith, few)) (ground (arith, off, few)))
  ]

  pub print_hex-Shows :
      (w : ℕ)
      → w < 2 ^ 32
      → (p' : Printing) × (print_hex conv p false w ≡ some p')
        × Shows v conv m0 g p (digits w 16) (p.next + 1) text p'
  unfolding print_hex
  print_hex-Shows w small = number-Shows w 16 small (inr refl)

  pub print_hex-padded-Shows :
      (w : ℕ)
      → w < 2 ^ 32
      → (p' : Printing) × (print_hex conv p true w ≡ some p')
        × Shows v conv m0 g p (padded (digits w 16)) (p.next + 1) text p'
  unfolding print_hex
  print_hex-padded-Shows w small =
      let ds = digits w 16 in
      let n = length ds in
      let few : n ≤ 8 = length-digits_hex w small in
      let (m', done, is, value) = itoa-numeral p.memory w (conv + 8) 16 small (inr refl) in
      let same =
        itoa-SameBut p.memory m' w 8 16 small (omega arith) (inr refl) (λ a out. refl) done in
      let size = strlen-IsString m' (conv + 8) ds is (omega arith) in
      let filled = fill_loop (8 - n) m' conv n in
      let same' : SameBut conv 64 p.memory filled =
        λ a out. same a out ∙ sym (fill_loop_outside (8 - n) m' conv n a (ground (arith, few))) in
      let total = length-padded (8 - n) ds in
      rw (done, size)
        (print_string-Shows filled (conv + n) (padded ds) same'
          (fill_loop-IsString (8 - n) m' conv n ds (omega arith) is)
          (padded-IsPlain (8 - n) ds (digits-IsPlain w 16)) (omega arith)
          (ground (arith, off, total, few)))

  pub print_char-Shows :
      (ch : ℕ) → ch ≢ 8 → Shows v conv m0 g p (ch ∷ []) p.next text (print_char p ch)
  unfolding print_char put_all
  print_char-Shows ch plain =
      let (cursor, follows) =
        Follows-put_all v conv m0 g p.console p.memory (ch ∷ []) off f (plain, record {}) in
      (refl, refl, refl, sym cursor, follows)
