-- ===== src/Pic.antt =====
-- student-distrib/i8259.c: the two interrupt controllers. The interrupt flag, which the functions
-- save and restore round their port writes, is not modelled.
use linux_kernel_os.Prelude.{ltb, leb, if◌then◌else◌, ℕ, ◌+◌, ◌-◌, ◌%◌, ◌^◌, ◌&&◌, List, ◌∷◌}
use linux_kernel_os.Ports.{Out, outb}
pub mod Masks
use Prim.Native.Nat.{bit_and, bit_or}

-- MASTER_8259_PORT, SLAVE_8259_PORT, MASTER_8259_DATA and SLAVE_8259_DATA
abbrev pub master_port : ℕ
master_port = 0x20

abbrev pub slave_port : ℕ
slave_port = 0xa0

abbrev pub master_data : ℕ
master_data = 0x21

abbrev pub slave_data : ℕ
slave_data = 0xa1

-- The masks, a set bit for a line that is disabled, and the port writes, the latest first.
pub record Pic : Type 0 where
  pub master_mask : ℕ
  pub slave_mask : ℕ
  pub sent : List Out

-- `1 << n` on an `int`. A count beyond 31 is undefined in C; the processor takes it modulo 32.
abbrev pub bit32 : ℕ → ℕ
bit32 n = 2 ^ (n % 32)

-- `~x`
abbrev pub not32 : ℕ → ℕ
not32 x = 2 ^ 32 - 1 - x

unfoldable pub enable_irq : Pic → ℕ → Pic
enable_irq p irq =
    if ltb irq 8
    then (let mask = bit_and p.master_mask (not32 (bit32 irq)) % 256 in
        record p { master_mask = mask; sent = outb mask master_data ∷ p.sent })
    else (let mask = bit_and p.slave_mask (not32 (bit32 (irq - 8))) % 256 in
        record p { slave_mask = mask; sent = outb mask slave_data ∷ p.sent })

-- The test is `irq_num > -1 && irq_num < 8`. `irq_num` is unsigned, so -1 is converted to 2 ^ 32 - 1
-- and no value passes.
unfoldable pub disable_irq : Pic → ℕ → Pic
disable_irq p irq =
    if ltb (2 ^ 32 - 1) irq && ltb irq 8
    then (let mask = bit_or p.master_mask (not32 (bit32 irq)) % 256 in
        record p { master_mask = mask; sent = outb mask master_data ∷ p.sent })
    else (let mask = bit_or p.slave_mask (not32 (bit32 ((irq + 2 ^ 32 - 8) % 2 ^ 32))) % 256 in
        record p { slave_mask = mask; sent = outb mask slave_data ∷ p.sent })

-- EOI is 0x60, SLAVE_IRQ is 2.
unfoldable pub send_eoi : Pic → ℕ → Pic
send_eoi p irq =
    if leb 8 irq
    then record p {
      sent = outb (bit_or (irq - 8) 0x60) slave_port ∷ outb (bit_or 2 0x60) master_port ∷ p.sent;
    }
    else record p { sent = outb (bit_or irq 0x60) master_port ∷ p.sent }

-- The masks are written out, then the four initialisation words of each controller, then the masks
-- again; then the line of the slave is enabled.
unfoldable pub i8259_init : Pic → Pic
unfolding enable_irq
i8259_init p =
    let words =
      outb p.slave_mask slave_data
      ∷ outb p.master_mask master_data
      ∷ outb 0x01 slave_data
      ∷ outb 0x02 slave_data
      ∷ outb 0x28 slave_data
      ∷ outb 0x11 slave_port
      ∷ outb 0x01 master_data
      ∷ outb 0x04 master_data
      ∷ outb 0x20 master_data
      ∷ outb 0x11 master_port
      ∷ outb p.slave_mask slave_data
      ∷ outb p.master_mask master_data
      ∷ p.sent in
    enable_irq (record p { sent = words }) 2
