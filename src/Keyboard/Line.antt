-- ===== src/Keyboard/Line.antt =====
-- How far the handler fills the line buffer.
use linux_kernel_os.Prelude.Table.{check_below, check_below-lt}
use linux_kernel_os.Keyboard.Codes.{num_keys, key_codes}
use linux_kernel_os.Prelude.{
  ltb, ◌==◌, if◌then◌else◌, ltb→lt, lt→ltb, Bool-cases, length, get_or, ℕ, zero, suc, ◌+◌, ◌-◌, ◌≤◌,
  ◌<◌, ◌≡◌, refl, ap, ◌≢◌, ◌⊎◌, inl, inr, Bool, true, not, ◌||◌, List, [], ◌∷◌, arith,
}
use linux_kernel_os.Keyboard.{
  buffer_size, backspace, Keyboard, add_char, Devices, echo, type_char, clear_screen, code_of,
  default_key, tab_key, press, release, is_pressed, type_key,
}

keyboard-echo : (d : Devices) (ch : ℕ) → (echo d ch).keyboard ≡ d.keyboard
unfolding echo
keyboard-echo d ch = refl

keyboard-clear_screen : (d : Devices) → (clear_screen d).keyboard ≡ d.keyboard
unfolding clear_screen
keyboard-clear_screen d = refl

keyboard-type_char : (d : Devices) (ch : ℕ) → (type_char d ch).keyboard ≡ add_char d.keyboard ch
unfolding type_char
keyboard-type_char d ch = ap (λ (k : Keyboard). add_char k ch) (keyboard-echo d ch)

keyboard-tab_key :
    (d : Devices)
    → (tab_key d).keyboard
      ≡ add_char (add_char (add_char (add_char d.keyboard b' ') b' ') b' ') b' '
unfolding tab_key
keyboard-tab_key d = simp keyboard-echo

idx-add_char :
    (k : Keyboard) (ch : ℕ)
    → (add_char k ch).idx ≡ (if ch == backspace then k.idx - 1 else k.idx + 1)
unfolding add_char
idx-add_char k ch = ground arith

idx-default_key :
    (d : Devices) (scan key : ℕ) → (default_key d scan key).keyboard.idx ≤ d.keyboard.idx + 1
unfolding default_key
idx-default_key d scan key =
    let ch = code_of d.keyboard scan in
    ground (arith, keyboard-type_char d ch, keyboard-clear_screen d, idx-add_char d.keyboard ch)

idx-tab_key : (d : Devices) → (tab_key d).keyboard.idx ≡ d.keyboard.idx + 4
idx-tab_key d = rw (keyboard-tab_key d) (simp idx-add_char (omega arith))

pub idx-release : (k : Keyboard) (scan : ℕ) → (release k scan).idx ≡ k.idx
unfolding release
idx-release k scan = ground arith

idx-press :
    (d : Devices) (scan key : ℕ)
    → (press d scan key).keyboard.idx ≤ d.keyboard.idx + (if key == b'\t' then 4 else 1)
unfolding press
idx-press d scan key = ground (arith, idx-tab_key d, idx-default_key d scan key)

idx-type_key :
    (d : Devices) (scan : ℕ)
    → (type_key d scan).keyboard.idx ≤ (
        if ltb d.keyboard.idx buffer_size
        then d.keyboard.idx + (if get_or key_codes scan 0 == b'\t' then 4 else 1)
        else d.keyboard.idx)
unfolding type_key is_pressed
idx-type_key d scan =
    let k = release d.keyboard scan in
    let d' : Devices = record d { keyboard = k } in
    let key = get_or key_codes scan 0 in
    ground (
      arith,
      idx-release d.keyboard scan,
      idx-press d' scan key,
      keyboard-echo d' key,
      idx-add_char (echo d' key).keyboard backspace,
    )

get_or_behind : (xs : List ℕ) (i d : ℕ) → length xs ≤ i → get_or xs i d ≡ d
get_or_behind [] i d h = refl
get_or_behind (x ∷ xs) zero d h = absurd (omega arith)
get_or_behind (x ∷ xs) (suc i) d h = get_or_behind xs i d (omega arith)

tab_row : ℕ → Bool
tab_row scan = not (get_or key_codes scan 0 == b'\t') || (scan == 0x0f)

tab_table : check_below num_keys tab_row ≡ true
unfolding check_below tab_row key_codes
tab_table = refl

length-key_codes : length key_codes ≡ num_keys
unfolding key_codes
length-key_codes = refl

tab_scan : (scan : ℕ) → get_or key_codes scan 0 ≡ b'\t' → scan ≡ 0x0f
unfolding tab_row
tab_scan scan e = elim (Bool-cases (ltb scan num_keys)) [
  | inl inside ↦ ground (arith, check_below-lt num_keys tab_row scan tab_table (ltb→lt _ _ inside))
  | inr behind ↦ ground (arith, get_or_behind key_codes scan 0, length-key_codes)
]

-- How far the index can come: behind 128 by Tab only, and by three at most.
pub idx-type_key_bound :
    (d : Devices) (scan bound : ℕ)
    → d.keyboard.idx ≤ bound
    → (buffer_size + 3 ≤ bound) ⊎ ((buffer_size ≤ bound) × (scan ≢ 0x0f))
    → (type_key d scan).keyboard.idx ≤ bound
idx-type_key_bound d scan bound h (inl any) = ground (arith, idx-type_key d scan)
idx-type_key_bound d scan bound h (inr (low, other)) =
    ground (arith, idx-type_key d scan, tab_scan scan)

-- The line buffer after Tab.
abbrev pub four_spaces : Keyboard → Keyboard
four_spaces k = add_char (add_char (add_char (add_char k b' ') b' ') b' ') b' '

pub keyboard-type_key_tab :
    (d : Devices)
    → d.keyboard.idx < buffer_size
    → (type_key d 0x0f).keyboard ≡ record (four_spaces d.keyboard) { test_key = b'\t' }
unfolding type_key is_pressed key_codes
keyboard-type_key_tab d hi =
    rw (lt→ltb _ _ hi) (ap (λ (k : Keyboard). record k { test_key = b'\t' }) (keyboard-tab_key d))
