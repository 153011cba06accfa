-- ===== src/Idt/Gates.antt =====
-- What `init_idt` of student-distrib/interrupts-exceptions/idt.c leaves at each vector.
use linux_kernel_os.Prelude.{
  ltb, leb, ◌==◌, if◌then◌else◌, ℕ, zero, suc, ◌+◌, ◌*◌, ◌^◌, ◌<◌, ◌≡◌, refl, ap, ◌∙◌, not, ◌&&◌,
  ◌||◌, Option, none, some, List, [], ◌∷◌, arith,
}
use linux_kernel_os.Idt.{
  sys_call, num_vec, Gate, Handler, init_gate, put_gate, init_gates, set_idt_entry, entries,
  set_entries, init_idt,
}

-- The address in a gate.
abbrev pub offset_of : Gate → ℕ
offset_of g = g.offset_31_16 * 2 ^ 16 + g.offset_15_00

-- One round more of a loop that writes at its index.
round :
    (done first : ℕ → Gate) (body : Gate → ℕ → Gate) (n i : ℕ)
    → done i ≡ (if ltb i n then body (first i) i else first i)
    → done n ≡ first n
    → put_gate done n (body (done n) n) i ≡ (if ltb i (suc n) then body (first i) i else first i)
round done first body n i h hn = ground (arith, h, hn)

-- The loop reaches every vector below its bound, and none above.
init_gates-init_gate :
    (n : ℕ) (idt : ℕ → Gate) (i : ℕ)
    → init_gates n idt i ≡ (if ltb i n then init_gate (idt i) i else idt i)
unfolding init_gates
init_gates-init_gate zero idt i = ground arith
init_gates-init_gate (suc n) idt i =
    round (init_gates n idt) idt init_gate n i (init_gates-init_gate n idt i)
      (init_gates-init_gate n idt n ∙ ground arith)

-- The routine of the last entry for a vector.
unfoldable pub routine : List (ℕ × Handler) → ℕ → Option Handler
routine [] i = none
routine ((j, h) ∷ rest) i =
    let later = routine rest i in
    elim later [ none ↦ if j == i then some h else none | some h' ↦ some h' ]

abbrev pub address_or : (Handler → ℕ) → Option Handler → ℕ → ℕ
address_or address none old = old
address_or address (some h) old = address h

-- What the calls of SET_IDT_ENTRY do not touch.
abbrev pub attributes : Gate → ℕ × ℕ × ℕ × ℕ
attributes g = (g.present, g.dpl, g.reserved3, g.seg_selector)

set_idt_entry-attributes : (g : Gate) (a : ℕ) → attributes (set_idt_entry g a) ≡ attributes g
unfolding set_idt_entry
set_idt_entry-attributes g a = refl

set_idt_entry-offset : (g : Gate) (a : ℕ) → a < 2 ^ 32 → offset_of (set_idt_entry g a) ≡ a
unfolding set_idt_entry
set_idt_entry-offset g a h = omega arith

attributes-put_gate :
    (idt : ℕ → Gate) (j i : ℕ) (g : Gate)
    → attributes g ≡ attributes (idt j)
    → attributes (put_gate idt j g i) ≡ attributes (idt i)
attributes-put_gate idt j i g h =
    ground (
      arith,
      h,
      ap (λ v. attributes (idt v)) {x = j} {y = i},
      ap attributes {x = put_gate idt j g i},
    )

address_or-routine :
    (address : Handler → ℕ) (later : Option Handler) (idt : ℕ → Gate) (j i : ℕ) (g : Gate)
    (h : Handler)
    → offset_of g ≡ address h
    → address_or address later (offset_of (put_gate idt j g i))
      ≡ address_or address
          (elim later [ none ↦ if j == i then some h else none | some h' ↦ some h' ])
          (offset_of (idt i))
address_or-routine address none idt j i g h e =
    ground (arith, e, ap offset_of {x = put_gate idt j g i})
address_or-routine address (some h') idt j i g h e = refl

set_entries-attributes :
    (address : Handler → ℕ) (l : List (ℕ × Handler)) (idt : ℕ → Gate) (i : ℕ)
    → attributes (set_entries address l idt i) ≡ attributes (idt i)
unfolding set_entries
set_entries-attributes address [] idt i = refl
set_entries-attributes address ((j, h) ∷ rest) idt i =
    set_entries-attributes address rest (put_gate idt j (set_idt_entry (idt j) (address h))) i
    ∙ attributes-put_gate idt j i (set_idt_entry (idt j) (address h))
        (set_idt_entry-attributes (idt j) (address h))

set_entries-routine :
    (address : Handler → ℕ) (l : List (ℕ × Handler)) (idt : ℕ → Gate) (i : ℕ)
    → ((h : Handler) → address h < 2 ^ 32)
    → offset_of (set_entries address l idt i) ≡ address_or address (routine l i) (offset_of (idt i))
unfolding set_entries routine
set_entries-routine address [] idt i b = refl
set_entries-routine address ((j, h) ∷ rest) idt i b =
    set_entries-routine address rest (put_gate idt j (set_idt_entry (idt j) (address h))) i b
    ∙ address_or-routine address (routine rest i) idt j i (set_idt_entry (idt j) (address h)) h
        (set_idt_entry-offset (idt j) (address h) (b h))

present_lem :
    (i : ℕ)
    → ◌≡◌ {A = ℕ}
        (if ltb 0x22 i && not (i == sys_call) && not (i == 0x28) then 0 else 1)
        (if leb i 0x22 || (i == 0x28) || (i == 0x80) then 1 else 0)
present_lem i = ground arith

trap_lem :
    (i : ℕ)
    → ◌≡◌ {A = ℕ}
        (if i == sys_call then 1 else if ltb i 32 then 1 else 0)
        (if ltb i 32 || (i == 0x80) then 1 else 0)
trap_lem i = ground arith

-- At each of the 256 vectors, with routines at addresses of 32 bits: the gate is present for the
-- vectors up to 0x22, for that of the clock (0x28) and for that of the system calls (0x80), and for no
-- other; only that of the system calls can be used by programs; those of the exceptions (below 32) and
-- of the system calls are trap gates and the others interrupt gates; all lead to the kernel's code
-- segment; and the offset is the address of the routine that the last SET_IDT_ENTRY of the vector
-- names, or as before where there is none.
pub init_idt-gates :
    (address : Handler → ℕ) (idt : ℕ → Gate) (i : ℕ)
    → ((h : Handler) → address h < 2 ^ 32)
    → i < 256
    → let g = init_idt address idt i in
      (g.present ≡ (if leb i 0x22 || (i == 0x28) || (i == 0x80) then 1 else 0))
      × (g.dpl ≡ (if i == 0x80 then 3 else 0))
      × (g.reserved3 ≡ (if ltb i 32 || (i == 0x80) then 1 else 0))
      × (g.seg_selector ≡ 0x10)
      × (offset_of g ≡ address_or address (routine entries i) (offset_of (idt i)))
unfolding init_idt init_gate
init_idt-gates address idt i b h =
    let gates = init_gates num_vec idt in
    let loop : gates i ≡ init_gate (idt i) i =
      init_gates-init_gate num_vec idt i ∙ ground (arith, h) in
    let kept = set_entries-attributes address entries gates i ∙ ap attributes loop in
    (
      ap (λ a. a.0) kept ∙ present_lem i,
      ap (λ a. a.1) kept,
      ap (λ a. a.2) kept ∙ trap_lem i,
      ap (λ a. a.3) kept,
      set_entries-routine address entries gates i b
          ∙ ap (λ g. address_or address (routine entries i) (offset_of g)) loop,
    )
