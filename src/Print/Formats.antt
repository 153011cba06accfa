-- ===== src/Print/Formats.antt =====
-- What `printf` shows of a format with its arguments.
use mathlib.Core.Path.{subst}
use linux_kernel_os.Memory.{Memory}
use linux_kernel_os.Memory.Write.{Apart}
use linux_kernel_os.Console.{Console}
use linux_kernel_os.Console.Bounds.{screen_bytes}
use linux_kernel_os.Console.Cursor.{OnScreen}
use linux_kernel_os.Console.Frame.{SameBut}
use linux_kernel_os.Strings.{IsString}
use linux_kernel_os.Print.{
  Place, text, conversion, Printing, print_hex, is_text, printf_step, printf_loop, printf,
}
use linux_kernel_os.Print.Pieces.{
  Follows, Follows-IsString, Shows, print_string-Shows, print_unsigned-Shows, print_signed-Shows,
  print_hex-Shows, print_hex-padded-Shows, print_char-Shows,
}
use linux_kernel_os.Print.Rendering.{
  shown_by, place_after, words_taken, rendered, Outside, IsArgument, IsFormat, padded,
}
use linux_kernel_os.Print.Number.{digits}
use linux_kernel_os.Print.Shown.{put_all, put_all-append}
use linux_kernel_os.Prelude.{
  ◌==◌, if◌then◌else◌, Bool-cases, length, ℕ, zero, suc, ◌+◌, ◌-◌, ◌%◌, ◌^◌, ◌<◌, ◌≡◌, refl, sym,
  ap, ◌∙◌, ◌≢◌, inl, inr, Bool, true, false, some, List, [], ◌∷◌, ◌&&◌, ==_iff, arith,
}

module _ (v conv : ℕ) (m0 g : Memory) (p : Printing) (off : Apart v screen_bytes conv 64)
    (f : Follows v conv m0 g p.console p.memory) where
  -- `%x` and `%#x`
  hex-Shows :
      (alternate : Bool) (w : ℕ)
      → w < 2 ^ 32
      → (p' : Printing) × (print_hex conv p alternate w ≡ some p')
        × Shows v conv m0 g p
            (if alternate then padded (digits w 16) else digits w 16)
            (p.next + 1)
            text
            p'
  hex-Shows false w small = print_hex-Shows v conv m0 g p off f w small
  hex-Shows true w small = print_hex-padded-Shows v conv m0 g p off f w small

  -- A turn that shows nothing.
  silent-Shows :
      (place : Place)
      → Shows v conv m0 g p [] p.next place (record p { buf = p.buf + 1; place = place })
  unfolding put_all
  silent-Shows place = (refl, refl, refl, refl, f)

  -- A turn that ends the place at the words of before.
  counted :
      (n : ℕ) (out : List ℕ) (place : Place) (p' : Printing)
      → n ≡ p.next
      → Shows v conv m0 g p out p.next place p'
      → Shows v conv m0 g p out n place p'
  counted n out place p' e s = rw e s

  text-Shows :
      (words : ℕ → ℕ) (b : ℕ) (t : List ℕ)
      → p.memory p.buf ≡ b
      → b ≢ 8
      → (p' : Printing) × (printf_step conv words p text ≡ some p')
        × Shows v conv m0 g p
            (shown_by text b (words p.next) t)
            (p.next + words_taken text b)
            (place_after text b)
            p'
  unfolding printf_step shown_by place_after words_taken
  text-Shows words b t e plain =
      let same : p.next + 0 ≡ p.next = omega arith in
      elim (Bool-cases (b == b'%')) [
        | inl start ↦
            rw (e, start, same)
              (
                record p { buf = p.buf + 1; place = conversion false },
                refl,
                silent-Shows (conversion false),
              )
        | inr char ↦ rw (e, char, same) (_, refl, print_char-Shows v conv m0 g p off f b plain)
      ]

  conversion-Shows :
      (words : ℕ → ℕ) (alternate : Bool) (b : ℕ) (t : List ℕ)
      → p.memory p.buf ≡ b
      → words p.next < 2 ^ 32
      → IsArgument v conv p.memory (conversion alternate) b (words p.next) t
      → (p' : Printing) × (printf_step conv words p (conversion alternate) ≡ some p')
        × Shows v conv m0 g p
            (shown_by (conversion alternate) b (words p.next) t)
            (p.next + words_taken (conversion alternate) b)
            (place_after (conversion alternate) b)
            p'
  unfolding printf_step shown_by place_after words_taken
  conversion-Shows words alternate b t e small (char, string) =
      let w = words p.next in
      let same : p.next + 0 ≡ p.next = omega arith in
      elim (Bool-cases (b == b'%')) [
        | inl percent ↦
            rw (e, (==_iff b b'%').0 percent, same)
              (_, refl, print_char-Shows v conv m0 g p off f b'%' (omega arith))
        | inr n1 ↦ elim (Bool-cases (b == b'#')) [
          | inl hash ↦
              rw (e, (==_iff b b'#').0 hash, same) (_, refl, silent-Shows (conversion true))
          | inr n2 ↦ elim (Bool-cases (b == b'x')) [
            | inl is_x ↦ rw (e, (==_iff b b'x').0 is_x) (hex-Shows alternate w small)
            | inr n3 ↦ elim (Bool-cases (b == b'u')) [
              | inl is_u ↦
                  rw (e, (==_iff b b'u').0 is_u) (print_unsigned-Shows v conv m0 g p off f w small)
              | inr n4 ↦ elim (Bool-cases (b == b'd')) [
                | inl is_d ↦
                    rw (e, (==_iff b b'd').0 is_d) (print_signed-Shows v conv m0 g p off f w small)
                | inr n5 ↦ elim (Bool-cases (b == b'c')) [
                  | inl is_c ↦
                      rw (e, (==_iff b b'c').0 is_c)
                        (let (at, next, place, cursor, follows) =
                            print_char-Shows v conv m0 g p off f (w % 256)
                              (char ((==_iff b b'c').0 is_c)) in
                          (_, refl, (at, refl, place, cursor, follows)))
                  | inr n6 ↦ elim (Bool-cases (b == b's')) [
                    | inl is_s ↦
                        rw (e, (==_iff b b's').0 is_s)
                          (let (is, plain, short, out) = string ((==_iff b b's').0 is_s) in
                            print_string-Shows v conv m0 g p off f p.memory w t (λ a o. refl) is
                              plain short out.0)
                    | inr n7 ↦ rw (e, n1, n2, n3, n4, n5, n6, n7, same) (_, refl, silent-Shows text)
                  ]
                ]
              ]
            ]
          ]
        ]
      ]

  turn-Shows :
      (words : ℕ → ℕ) (place : Place) (b : ℕ) (t : List ℕ)
      → p.memory p.buf ≡ b
      → words p.next < 2 ^ 32
      → IsArgument v conv m0 place b (words p.next) t
      → (p' : Printing) × (printf_step conv words p place ≡ some p')
        × Shows v conv m0 g p
            (shown_by place b (words p.next) t)
            (p.next + words_taken place b)
            (place_after place b)
            p'
  turn-Shows words text b t e small plain = text-Shows words b t e plain
  turn-Shows words (conversion alternate) b t e small (char, string) =
      conversion-Shows words alternate b t e small (
        char,
        λ h.
            let (is, plain, short, out) = string h in
            (
              Follows-IsString v conv m0 g p.console p.memory (words p.next) t f out is,
              plain,
              short,
              out,
            ),
      )

and_false : (x : Bool) → (x && false) ≡ false
and_false true = refl
and_false false = refl

printf_loop-next :
    (k conv : ℕ) (words : ℕ → ℕ) (p p1 : Printing)
    → p.memory p.buf ≢ 0
    → printf_step conv words p p.place ≡ some p1
    → printf_loop (suc k) conv words p ≡ printf_loop k conv words p1
unfolding printf_loop
printf_loop-next k conv words p p1 full first =
    let more : (p.memory p.buf == 0) ≡ false = ground arith in
    rw (more, and_false (is_text p.place), first) refl

module _ (v conv : ℕ) (words : ℕ → ℕ) (texts : ℕ → List ℕ) (m0 : Memory)
    (off : Apart v screen_bytes conv 64) (small : (i : ℕ) → words i < 2 ^ 32) where
  loop-Shows :
      (k : ℕ) (g : Memory) (p : Printing) (place : Place) (bs : List ℕ)
      → p.place ≡ place
      → Follows v conv m0 g p.console p.memory
      → IsString m0 p.buf bs
      → Outside v conv p.buf (length bs + 1)
      → IsFormat v conv m0 words texts place p.next bs
      → length bs < k
      → let out = rendered words texts place p.next bs in
        (p' : Printing) × (printf_loop k conv words p ≡ some p')
        × (p'.buf ≡ p.buf + length bs)
        × (p'.console ≡ (put_all g p.console out).1)
        × Follows v conv m0 (put_all g p.console out).0 p'.console p'.memory
  unfolding printf_loop rendered IsFormat put_all
  loop-Shows zero g p place bs e f is out args fuel = absurd (omega arith)
  loop-Shows (suc k) g p (conversion alternate) [] e f is out args fuel = absurd args
  loop-Shows (suc k) g p text [] e f is out args fuel =
      let end = Follows-IsString v conv m0 g p.console p.memory p.buf [] f out is in
      (p, rw (e, end) refl, omega arith, refl, f)
  loop-Shows (suc k) g p place (b ∷ bs) e f is out args fuel =
      let (byte, full, more) =
        Follows-IsString v conv m0 g p.console p.memory p.buf (b ∷ bs) f out is in
      let (p1, first, (at, next, then_place, cursor, follows)) =
        turn-Shows v conv m0 g p off f words place b (texts p.next) byte (small p.next) args.0 in
      let (p', rest, at', cursor', follows') =
        loop-Shows k (put_all g p.console (shown_by place b (words p.next) (texts p.next))).0 p1
          (place_after place b) bs then_place follows (rw at is.2) (rw at (ground (arith, out)))
          (rw next args.1) (omega arith) in
      let joined =
        (λ i.
          put_all (put_all g p.console (shown_by place b (words p.next) (texts p.next))).0
            (cursor i) (rendered words texts (place_after place b) (next i) bs))
        ∙ sym (
            put_all-append g p.console (shown_by place b (words p.next) (texts p.next))
              (rendered words texts (place_after place b) (p.next + words_taken place b) bs)) in
      let step =
        printf_loop-next k conv words p p1 (λ z. full (sym byte ∙ z))
          (ap (printf_step conv words p) e ∙ first) in
      (
        p',
        step ∙ rest,
        at' ∙ omega (arith, at),
        subst (λ (r : Memory × Console). p'.console ≡ r.1) joined cursor',
        subst (λ (r : Memory × Console). Follows v conv m0 r.0 p'.console p'.memory) joined
            follows',
      )

  -- With the cursor on the screen, and the format and the texts for `%s` outside of the screen
  -- and of the buffer for the conversions, in 32-bit words and without a backspace in the
  -- format, in a text or as the argument of a `%c`: `printf` of a format shorter than 2 ^ 32
  -- that does not end within a conversion comes to its end. It gives the characters that the
  -- format stands for, with its arguments for `%x`, `%#x`, `%u`, `%d`, `%c` and `%s`, to `putc`,
  -- one after the other, changes nothing else outside of that buffer, and returns the length of
  -- the format.
  pub printf-rendered :
      (c : Console) (s : ℕ) (bs : List ℕ)
      → OnScreen c
      → c.video_mem ≡ v
      → IsString m0 s bs
      → Outside v conv s (length bs + 1)
      → IsFormat v conv m0 words texts text 0 bs
      → length bs < 2 ^ 32
      → let shown = put_all m0 c (rendered words texts text 0 bs) in
        (m' : Memory) × (printf m0 c conv s words ≡ some (m', shown.1, length bs))
        × SameBut conv 64 shown.0 m'
  unfolding printf
  printf-rendered c s bs on at is out args fuel =
      let start : Printing = record { memory = m0; console = c; buf = s; next = 0; place = text } in
      let follows : Follows v conv m0 m0 c m0 = record {
        same = λ a o. refl;
        kept = λ a o. refl;
        on = on;
        at = at;
      } in
      let (p', run, end, cursor, follows') =
        loop-Shows (2 ^ 32) m0 start text bs refl follows is out args fuel in
      let count : p'.buf - s ≡ length bs = omega (arith, end) in
      (p'.memory, rw run (λ i. some (p'.memory, cursor i, count i)), follows'.same)
