-- ===== src/Idt/Missing.antt =====
-- Which vectors `idt_test` of student-distrib/tests.c finds without a handler.
use linux_kernel_os.Prelude.{
  ◌==◌, if◌then◌else◌, ℕ, zero, suc, ◌+◌, ◌^◌, ◌≤◌, ◌<◌, ◌≡◌, refl, ap, ◌∙◌, ◌≢◌, Bool, true, false,
  ◌&&◌, Option, none, some, List, [], ◌∷◌, arith,
}
use linux_kernel_os.Idt.{Gate, Handler, entries, init_idt, idt_test_loop, idt_test}
use linux_kernel_os.Idt.Gates.{offset_of, routine, address_or, init_idt-gates}

is_none : Option Handler → Bool
is_none none = true
is_none (some h) = false

is_blank : Gate → Bool
is_blank g = (g.offset_15_00 == 0) && (g.offset_31_16 == 0)

is_blank-offset :
    (address : Handler → ℕ) (g : Gate) (o : Option Handler)
    → ((h : Handler) → address h ≢ 0)
    → offset_of g ≡ address_or address o 0
    → is_blank g ≡ is_none o
unfolding is_blank is_none
is_blank-offset address g none real e = ground (arith, e)
is_blank-offset address g (some h) real e = ground (arith, e, real h)

-- The vectors without an entry, from `i` on.
unhandled : ℕ → ℕ → List ℕ
unfolding is_none
unhandled zero i = []
unhandled (suc r) i =
    let rest = unhandled r (i + 1) in if is_none (routine entries i) then i ∷ rest else rest

idt_test_loop-unhandled :
    (r : ℕ) (address : Handler → ℕ) (idt : ℕ → Gate) (i : ℕ)
    → ((h : Handler) → address h < 2 ^ 32)
    → ((h : Handler) → address h ≢ 0)
    → ((v : ℕ) → offset_of (idt v) ≡ 0)
    → i + r ≤ 256
    → idt_test_loop r (init_idt address idt) i ≡ unhandled r i
unfolding idt_test_loop unhandled is_blank
idt_test_loop-unhandled zero address idt i small real blank fits = refl
idt_test_loop-unhandled (suc r) address idt i small real blank fits =
    let g = init_idt address idt i in
    let at = (init_idt-gates address idt i small (omega arith)).4 in
    let same : is_blank g ≡ is_none (routine entries i) =
      is_blank-offset address g (routine entries i) real
        (at ∙ ap (address_or address (routine entries i)) (blank i)) in
    let rest = idt_test_loop-unhandled r address idt (i + 1) small real blank (omega arith) in
    ap
      (λ (b : Bool).
        if b
        then i ∷ idt_test_loop r (init_idt address idt) (i + 1)
        else idt_test_loop r (init_idt address idt) (i + 1))
      same
    ∙ ap (λ (l : List ℕ). if is_none (routine entries i) then i ∷ l else l) rest

idt_test_lem : (idt : ℕ → Gate) → idt_test idt ≡ idt_test_loop 20 idt 0
unfolding idt_test
idt_test_lem idt = refl

unhandled_first : unhandled 20 0 ≡ 15 ∷ []
unfolding unhandled is_none routine
unhandled_first = refl

-- With routines at addresses of 32 bits other than 0, and a table whose offsets are 0 before, the
-- test `idt_test` fails on the table that `init_idt` makes, at the vector 15 and no other of the first
-- 20: that vector is never given a handler.
pub idt_test-init_idt :
    (address : Handler → ℕ) (idt : ℕ → Gate)
    → ((h : Handler) → address h < 2 ^ 32)
    → ((h : Handler) → address h ≢ 0)
    → ((v : ℕ) → offset_of (idt v) ≡ 0)
    → idt_test (init_idt address idt) ≡ 15 ∷ []
idt_test-init_idt address idt small real blank =
    idt_test_lem (init_idt address idt)
    ∙ idt_test_loop-unhandled 20 address idt 0 small real blank (omega arith)
    ∙ unhandled_first
