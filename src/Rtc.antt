-- ===== src/Rtc.antt =====
-- student-distrib/devices/rtc.c: the real-time clock's rate, and the wait for its interrupt.
pub mod Frequency
use Prim.Native.Nat.{bit_and, bit_or}
use linux_kernel_os.Prelude.{
  ◌==◌, if◌then◌else◌, ◌>>=◌, ℕ, zero, suc, ◌+◌, ◌/◌, ◌%◌, Bool, true, false, not, ◌||◌, Option,
  none, some, List, [], ◌∷◌,
}
use linux_kernel_os.Prelude.Int.{ℤ, pos, fail, lt_int, int32, uint32}
use linux_kernel_os.Memory.{Memory, null, load32}
use linux_kernel_os.Ports.{Out, outb}

-- RTC_PORT, CMOS_PORT, and the indices PORT_A, PORT_B and PORT_C of the chip's registers.
abbrev pub rtc_port : ℕ
rtc_port = 0x70

abbrev pub cmos_port : ℕ
cmos_port = 0x71

abbrev pub port_a : ℕ
port_a = 0x8a

abbrev pub port_b : ℕ
port_b = 0x8b

abbrev pub port_c : ℕ
port_c = 0x8c

-- The variables `oldVal` and `rtc_interrupt_flag`, and what has been sent to the ports, the latest
-- first.
pub record Rtc : Type 0 where
  pub old_val : ℕ
  pub interrupt_flag : Bool
  pub sent : List Out

-- The `switch` of `changeRtcFreq`. A frequency that it does not list leaves `rate` uninitialised:
-- `stale` is what the stack held there.
unfoldable pub rate_of : ℕ → ℕ → ℕ
rate_of stale freq =
    if freq == 2
    then 0x0f
    else if freq == 4
    then 0x0e
    else if freq == 8
    then 0x0d
    else if freq == 16
    then 0x0c
    else if freq == 32
    then 0x0b
    else if freq == 64
    then 0x0a
    else if freq == 128
    then 0x09
    else if freq == 256
    then 0x08
    else if freq == 512
    then 0x07
    else if freq == 1024
    then 0x06
    else stale

-- `answer` is what the chip gives for register A.
unfoldable pub change_rtc_freq : ℕ → ℕ → Rtc → ℕ → Rtc
unfolding rate_of
change_rtc_freq stale answer r freq = record r {
  old_val = answer % 256;
  sent =
      outb (bit_or (bit_and (answer % 256) 0xf0) (rate_of stale freq)) cmos_port
      ∷ outb port_a rtc_port
      ∷ outb port_a rtc_port
      ∷ r.sent;
}

unfoldable pub rtc_open : ℕ → ℕ → Rtc → Rtc × ℤ
rtc_open stale answer r = (change_rtc_freq stale answer r 2, pos 0)

-- `while (freq_check) { set_bits += freq_check & 1; freq_check >>= 1; }`. A `uint32_t` is 0 after 32
-- shifts at most, so 33 rounds reach the end of the loop.
unfoldable pub set_bits_loop : ℕ → ℕ → ℕ → ℕ
set_bits_loop zero freq bits = bits
set_bits_loop (suc k) freq bits =
    let rest = set_bits_loop k (freq / 2) (bits + freq % 2) in if freq == 0 then bits else rest

-- The `int32_t` at `buf` is read before `buf` is tested for null.
unfoldable pub rtc_write : ℕ → ℕ → Memory → Rtc → ℕ → Rtc × ℤ
rtc_write stale answer m r buf =
    let freq = int32 (load32 m buf) in
    if lt_int freq (pos 2) || lt_int (pos 1024) freq || (buf == null)
    then (r, fail)
    else if not (set_bits_loop 33 (uint32 freq) 0 == 1)
    then (r, fail)
    else (change_rtc_freq stale answer r (uint32 freq), pos 4)

unfoldable pub rtc_close : ℤ
rtc_close = pos 0

-- What `rtcHandler` leaves in the variables: register C is read, so that the chip interrupts again,
-- and the flag is cleared. (`send_eoi` is in `Pic`; `rtc_test_Flag` is only set by tests.)
unfoldable pub rtc_handler : Rtc → Rtc
rtc_handler r = record r { interrupt_flag = false; sent = outb port_c rtc_port ∷ r.sent }

-- The interrupts that come in while a system call waits.
pub data Interrupt : Type 0 where
  timer keyboard rtc : Interrupt

-- `while (rtc_interrupt_flag == 1) { }`: the loop ends when an interrupt has cleared the flag. It
-- returns the interrupts that come after that; `none` is a wait that goes on.
unfoldable pub rtc_wait : Rtc → List Interrupt → Option (Rtc × List Interrupt)
unfolding rtc_handler
rtc_wait r [] = if r.interrupt_flag then none else some (r, [])
rtc_wait r (Interrupt.rtc ∷ is) =
    let rest = rtc_wait (rtc_handler r) is in
    if r.interrupt_flag then rest else some (r, Interrupt.rtc ∷ is)
rtc_wait r (i ∷ is) =
    let rest = rtc_wait r is in if r.interrupt_flag then rest else some (r, i ∷ is)

unfoldable pub rtc_read : Rtc → List Interrupt → Option (Rtc × List Interrupt × ℤ)
rtc_read r is = do
  (r', rest) ← rtc_wait (record r { interrupt_flag = true }) is
  some (r', rest, pos 0)

-- `initRTC`: the default rate, then bit 6 of register B. (`disable_irq` and `enable_irq` are in
-- `Pic`.) `answer` and `answer_b` are what the chip gives for registers A and B.
unfoldable pub init_rtc : ℕ → ℕ → ℕ → Rtc → Rtc
unfolding change_rtc_freq
init_rtc stale answer answer_b r =
    let r' = change_rtc_freq stale answer r 1024 in
    record r' {
      old_val = answer_b % 256;
      sent =
          outb (bit_or (answer_b % 256) 0x40) cmos_port
          ∷ outb port_b rtc_port
          ∷ outb port_b rtc_port
          ∷ r'.sent;
    }
