-- ===== src/Rtc/Frequency.antt =====
-- Which frequencies `rtcWrite` takes, and what it programs.
use Prim.Native.Nat.{bit_and, bit_or}
use linux_kernel_os.Prelude.Int.{ℤ, pos, fail, lt_int, int32, uint32}
use linux_kernel_os.Prelude.{
  ltb, ◌==◌, if◌then◌else◌, ==_iff, Bool-cases, ℕ, zero, suc, ◌+◌, ◌-◌, ◌*◌, ◌/◌, ◌%◌, ◌^◌, ◌<◌,
  ◌≡◌, refl, ap, ◌≢◌, ◌⊎◌, inl, inr, Bool, true, not, ◌&&◌, ◌||◌, ◌∷◌, arith,
}
use linux_kernel_os.Prelude.Table.{check_below, check_below-lt}
use linux_kernel_os.Memory.{Memory, null, load32}
use linux_kernel_os.Ports.{outb}
use linux_kernel_os.Rtc.{
  rtc_port, cmos_port, port_a, Rtc, rate_of, change_rtc_freq, set_bits_loop, rtc_write,
}

-- `e`, for the number 2 ^ (e + 1); the fuel is above it.
exponent : ℕ → ℕ → ℕ
exponent zero w = 0
exponent (suc k) w = let rest = exponent k (w / 2) in if ltb w 4 then 0 else suc rest

accepts : ℕ → Bool
accepts w = not (ltb w 2 || ltb 1024 w) && (set_bits_loop 33 w 0 == 1)

is_rate : ℕ → Bool
is_rate w = not (accepts w) || ((w == 2 ^ (exponent 10 w + 1)) && ltb (exponent 10 w) 10)

is_rate_table : check_below 1025 is_rate ≡ true
unfolding check_below is_rate accepts exponent set_bits_loop
is_rate_table = refl

power_table :
    check_below 10 (λ e. accepts (2 ^ (e + 1)) && (rate_of 0 (2 ^ (e + 1)) == 15 - e)) ≡ true
unfolding check_below accepts rate_of set_bits_loop
power_table = refl

nibble_table :
    check_below 256 (λ a. check_below 16 (λ r. bit_or (bit_and a 0xf0) r == a / 16 * 16 + r)) ≡ true
unfolding check_below
nibble_table = refl

accepts-lt : (w : ℕ) → accepts w ≡ true → w < 1025
unfolding accepts
accepts-lt w h = ground arith

accepts-power : (w : ℕ) → accepts w ≡ true → (e : ℕ) × (e < 10) × (w ≡ 2 ^ (e + 1))
unfolding is_rate
accepts-power w h =
    let row = check_below-lt 1025 is_rate w is_rate_table (accepts-lt w h) in
    (exponent 10 w, ground arith, ground arith)

rate_of_stale : (stale w : ℕ) → rate_of 0 w ≢ 0 → rate_of stale w ≡ rate_of 0 w
unfolding rate_of
rate_of_stale stale w h = ground arith

power-accepts : (e : ℕ) → e < 10 → accepts (2 ^ (e + 1)) ≡ true
power-accepts e h = ground (arith, check_below-lt 10 _ e power_table h)

rate_of-power : (stale e : ℕ) → e < 10 → rate_of stale (2 ^ (e + 1)) ≡ 15 - e
rate_of-power stale e h =
    ground (arith, check_below-lt 10 _ e power_table h, rate_of_stale stale (2 ^ (e + 1)))

-- What `rtcWrite` leaves when it programs the rate of 2 ^ (e + 1) Hz: the low half of register A is
-- 15 - e, the high half is as the chip gave it.
abbrev pub Programmed : ℕ → ℕ → Rtc → Rtc
Programmed answer e r = record r {
  old_val = answer % 256;
  sent =
      outb (answer % 256 / 16 * 16 + (15 - e)) cmos_port
      ∷ outb port_a rtc_port
      ∷ outb port_a rtc_port
      ∷ r.sent;
}

register_a : (a e : ℕ) → a < 256 → bit_or (bit_and a 0xf0) (15 - e) ≡ a / 16 * 16 + (15 - e)
register_a a e h =
    let row = check_below-lt 256 _ a nibble_table h in
    (==_iff _ _).0 (check_below-lt 16 _ (15 - e) row (omega arith))

change_rtc_freq-Programmed :
    (stale answer e : ℕ) (r : Rtc)
    → e < 10
    → change_rtc_freq stale answer r (2 ^ (e + 1)) ≡ Programmed answer e r
unfolding change_rtc_freq
change_rtc_freq-Programmed stale answer e r h =
    rw (rate_of-power stale e h, register_a (answer % 256) e (omega arith))

-- The tests of `rtc_write`, for the `int32_t` that it has read.
abbrev tested : ℕ → ℕ → Rtc → ℕ → ℤ → Rtc × ℤ
tested stale answer r buf freq =
    if lt_int freq (pos 2) || lt_int (pos 1024) freq || (buf == null)
    then (r, fail)
    else if not (set_bits_loop 33 (uint32 freq) 0 == 1)
    then (r, fail)
    else (change_rtc_freq stale answer r (uint32 freq), pos 4)

tested-accepts :
    (stale answer : ℕ) (r : Rtc) (buf w : ℕ)
    → w < 2 ^ 32
    → tested stale answer r buf (int32 w) ≡ (
        if accepts w && not (buf == null)
        then (change_rtc_freq stale answer r w, pos 4)
        else (r, fail))
unfolding accepts
tested-accepts stale answer r buf w word = elim (Bool-cases (ltb w (2 ^ 31))) [
  | inl small ↦ let same : w % 2 ^ 32 ≡ w = omega arith in rw small (rw same (ground arith))
  | inr big ↦ rw big (ground arith)
]

rtc_write-accepts :
    (stale answer : ℕ) (m : Memory) (r : Rtc) (buf : ℕ)
    → load32 m buf < 2 ^ 32
    → rtc_write stale answer m r buf ≡ (
        if accepts (load32 m buf) && not (buf == null)
        then (change_rtc_freq stale answer r (load32 m buf), pos 4)
        else (r, fail))
unfolding rtc_write
rtc_write-accepts stale answer m r buf word = tested-accepts stale answer r buf (load32 m buf) word

module _ (stale answer : ℕ) (m : Memory) (r : Rtc) (buf : ℕ) where
  -- A frequency that is a power of two from 2 to 1024 Hz is accepted: the call returns 4, and the
  -- rate that it programs is the one whose period the chip counts for that frequency.
  pub rtc_write-Programmed :
      (e : ℕ)
      → buf ≢ null
      → e < 10
      → load32 m buf ≡ 2 ^ (e + 1)
      → rtc_write stale answer m r buf ≡ (Programmed answer e r, pos 4)
  rtc_write-Programmed e real h freq =
      let ok : accepts (load32 m buf) ≡ true = rw freq (power-accepts e h) in
      let word : load32 m buf < 2 ^ 32 = omega (arith, accepts-lt (load32 m buf) ok) in
      rw (rtc_write-accepts stale answer m r buf word, ok)
        (ground (
          arith,
          ap (change_rtc_freq stale answer r) freq,
          change_rtc_freq-Programmed stale answer e r h,
        ))

  -- Any other word of 32 bits, and a null buffer, is refused with -1, and nothing is programmed.
  pub rtc_write_refused :
      load32 m buf < 2 ^ 32
      → (buf ≡ null) ⊎ ((e : ℕ) → e < 10 → load32 m buf ≢ 2 ^ (e + 1))
      → rtc_write stale answer m r buf ≡ (r, fail)
  rtc_write_refused word (inl bad) = rw (rtc_write-accepts stale answer m r buf word) (ground arith)
  rtc_write_refused word (inr bad) = elim (Bool-cases (accepts (load32 m buf))) [
    | inl ok ↦ let (e, h, eq) = accepts-power (load32 m buf) ok in absurd (bad e h eq)
    | inr other ↦ rw (rtc_write-accepts stale answer m r buf word, other)
  ]
