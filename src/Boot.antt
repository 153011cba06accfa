-- ===== src/Boot.antt =====
-- `entry` of student-distrib/kernel.c: the kernel prints what the boot loader hands over, builds two
-- segment descriptors, and calls the initialisers of its parts.
use linux_kernel_os.Memory.{Memory, load32}
use linux_kernel_os.Run.{kernel_ds}
use linux_kernel_os.Print.{printf}
use linux_kernel_os.Segments.{SegDesc, ldt_descriptor, tss_descriptor}
use linux_kernel_os.Pit.{init_pit}
use linux_kernel_os.Pic.{enable_irq, disable_irq, i8259_init}
use linux_kernel_os.Kernel.{Kernel, memory_of}
use linux_kernel_os.Terminal.{init_terminals}
use linux_kernel_os.Keyboard.{Devices, clear_screen, init_keyboard}
use linux_kernel_os.Paging.{init_paging}
use linux_kernel_os.Rtc.{init_rtc}
use linux_kernel_os.Fs.{fs_init}
use linux_kernel_os.Prelude.{
  ltb, ◌==◌, if◌then◌else◌, ◌>>=◌, get_or, ℕ, zero, suc, ◌+◌, ◌-◌, ◌*◌, ◌/◌, ◌%◌, ◌^◌, Bool, true,
  false, ◌&&◌, Option, none, some, List, [], ◌∷◌,
}
pub mod Lines

-- MULTIBOOT_BOOTLOADER_MAGIC
abbrev pub bootloader_magic : ℕ
bootloader_magic = 0x2badb002

-- The format strings of `entry`.
pub data BootMessage : Type 0 where
  bad_magic flags_text memory_sizes boot_device command_line module_start module_end : BootMessage
  first_bytes module_byte line_end both_bits section_table map_range map_entry : BootMessage

-- What `entry` finds: the format strings, the buffer of the conversions of `printf`, the local
-- descriptors before they are filled, the addresses and sizes of the LDT and the TSS, what the stack
-- held at `file_system_mods_addr` and at `rate`, what the clock answers for its registers A and B, and
-- the garbage in the local terminal of `initTerminals`.
pub record Machine : Type 0 where
  pub messages : BootMessage → ℕ
  pub conv : ℕ
  pub local_desc : SegDesc
  pub ldt : ℕ
  pub ldt_size : ℕ
  pub tss : ℕ
  pub tss_size : ℕ
  pub stale_module : ℕ
  pub stale_rate : ℕ
  pub answer_a : ℕ
  pub answer_b : ℕ
  pub garbage : ℕ → ℕ

-- The words on the stack behind the format string. What stands behind the arguments does not matter.
abbrev pub words : List ℕ → ℕ → ℕ
words args i = get_or args i 0

-- A call of `printf`.
unfoldable pub print : Machine → BootMessage → List ℕ → Devices → Option Devices
print b message args d = do
  (m, c, count) ← printf d.memory d.console b.conv (b.messages message) (words args)
  some (record d { memory = m; console = c })

-- CHECK_FLAG
abbrev pub check_flag : ℕ → ℕ → Bool
check_flag flags i = flags / 2 ^ i % 2 == 1

-- `multiboot_info_t` at an address, by the index of the word.
abbrev pub info : Memory → ℕ → ℕ → ℕ
info m addr i = load32 m (addr + i * 4)

-- A `char` as a word: the sign is extended.
abbrev pub char_word : ℕ → ℕ
char_word b = if ltb b 128 then b else 2 ^ 32 - 256 + b

-- The loop over the first 16 bytes of a module, with the rounds left.
unfoldable pub print_bytes : ℕ → Machine → ℕ → Devices → Option Devices
unfolding print
print_bytes zero b at d = some d
print_bytes (suc n) b at d = do
  d' ← print b module_byte (char_word (d.memory at) ∷ []) d
  print_bytes n b (at + 1) d'

-- Whether a bit of the flags is set, and the word `i` of the information at `addr`, as they stand in
-- the memory.
abbrev pub flag : Devices → ℕ → ℕ → Bool
flag d addr i = check_flag (info d.memory addr 0) i

-- The loop over the modules. `mods_count` is read anew in each round; the counter, an `int`, is a word
-- in the comparison, so that 2 ^ 32 rounds are enough.
unfoldable pub print_modules : ℕ → Machine → ℕ → ℕ → ℕ → Devices → Option Devices
unfolding print_bytes
print_modules zero b addr count at d = none
print_modules (suc n) b addr count at d =
    let rest : Option Devices = (do
      d1 ← print b module_start (count ∷ load32 d.memory at ∷ []) d
      d2 ← print b module_end (count ∷ load32 d1.memory (at + 4) ∷ []) d1
      d3 ← print b first_bytes [] d2
      d4 ← print_bytes 16 b (load32 d3.memory at) d3
      d5 ← print b line_end [] d4
      print_modules n b addr (count + 1) (at + 16) d5) in
    if ltb count (info d.memory addr 5) then rest else some d

-- The loop over the memory map, up to the address `end`. Each entry is at least 4 bytes long, unless
-- its size wraps around.
unfoldable pub print_map : ℕ → Machine → ℕ → ℕ → Devices → Option Devices
unfolding print
print_map zero b at end d = none
print_map (suc n) b at end d =
    let word = λ (i : ℕ). load32 d.memory (at + i * 4) in
    let rest : Option Devices = (do
      d' ← print b map_entry (word 0 ∷ word 2 ∷ word 1 ∷ word 5 ∷ word 4 ∷ word 3 ∷ []) d
      print_map n b ((at + word 0 + 4) % 2 ^ 32) end d') in
    if ltb at end then rest else some d

-- One `if (CHECK_FLAG(...)) printf(...)`.
unfoldable pub print_if : Machine → Bool → BootMessage → List ℕ → Devices → Option Devices
unfolding print
print_if b true message args d = print b message args d
print_if b false message args d = some d

-- The `if` on the modules, with `file_system_mods_addr`.
unfoldable pub print_all_modules : Machine → ℕ → Devices → Option (Devices × ℕ)
unfolding print_modules
print_all_modules b addr d =
    let mods = info d.memory addr 6 in
    let walked : Option (Devices × ℕ) = (do
      d' ← print_modules (2 ^ 32) b addr 0 mods d
      some (d', load32 d.memory mods)) in
    if flag d addr 3 then walked else some (d, b.stale_module)

-- The part from the flags to the modules, for the information at `addr`.
unfoldable pub print_info : Machine → ℕ → Devices → Option (Devices × ℕ)
unfolding print_if print_all_modules
print_info b addr d = do
  d1 ← print b flags_text (info d.memory addr 0 ∷ []) d
  d2 ←
      print_if b (flag d1 addr 0) memory_sizes (info d1.memory addr 1 ∷ info d1.memory addr 2 ∷ [])
        d1
  d3 ← print_if b (flag d2 addr 1) boot_device (info d2.memory addr 3 ∷ []) d2
  d4 ← print_if b (flag d3 addr 2) command_line (info d3.memory addr 4 ∷ []) d3
  print_all_modules b addr d4

-- The `if` on the memory map. Its end is read once: no call of `printf` changes it, unless its buffer
-- or the screen overlaps the information.
unfoldable pub print_whole_map : Machine → ℕ → Devices → Option Devices
unfolding print_map
print_whole_map b addr d =
    let length = info d.memory addr 11 in
    let start = info d.memory addr 12 in
    let walked : Option Devices = (do
      d' ← print b map_range (start ∷ length ∷ []) d
      print_map (2 ^ 32) b start ((start + length) % 2 ^ 32) d') in
    if flag d addr 6 then walked else some d

-- The part on the section headers and the memory map.
unfoldable pub print_tables : Machine → ℕ → Devices → Option Devices
unfolding print_if print_whole_map
print_tables b addr d = do
  d1 ←
      print_if b (flag d addr 5) section_table
        (info d.memory addr 7
          ∷ info d.memory addr 8
          ∷ info d.memory addr 9
          ∷ info d.memory addr 10
          ∷ [])
        d
  print_whole_map b addr d1

-- The calls of the initialisers, from `init_paging` on. `modules` is `file_system_mods_addr`.
unfoldable pub init_parts : Machine → ℕ → Kernel → Kernel
init_parts b modules k =
    let pic = enable_irq (disable_irq (i8259_init k.pic) 8) 8 in
    let (d, t) = init_terminals (init_keyboard k.devices) k.terminals b.garbage in
    let (pit, pic') = init_pit k.pit (enable_irq pic 1) in
    record k {
      paging = init_paging k.paging;
      fs = fs_init (memory_of k) modules k.fs;
      rtc = init_rtc b.stale_rate b.answer_a b.answer_b k.rtc;
      devices = d;
      terminals = t;
      pit = pit;
      pic = pic';
      tss_ss0 = kernel_ds;
      tss_esp0 = 0x800000;
    }

-- How `entry` ends: with a return after an error, or in the loop that waits for interrupts, with the
-- descriptors of the LDT and the TSS.
pub data Booted : Type 0 where
  refused : Booted
  waiting : (ldt tss : SegDesc) → Booted

unfoldable pub entry : Machine → Kernel → (magic addr : ℕ) → Option (Kernel × Booted)
unfolding print_info print_tables init_parts
entry b k magic addr =
    let d = clear_screen k.devices in
    let wrong : Option (Kernel × Booted) = (do
      d' ← print b bad_magic (magic ∷ []) d
      some (record k { devices = d' }, refused)) in
    let right : Option (Kernel × Booted) = (do
      (d1, modules) ← print_info b addr d
      let both : Option (Kernel × Booted) = (do
        d2 ← print b both_bits [] d1
        some (record k { devices = d2 }, refused))
      let ready : Option (Kernel × Booted) = (do
        d2 ← print_tables b addr d1
        some (
          init_parts b modules (record k { devices = d2 }),
          waiting (ldt_descriptor b.local_desc b.ldt b.ldt_size)
              (tss_descriptor b.local_desc b.tss b.tss_size),
        ))
      if flag d1 addr 4 && flag d1 addr 5 then both else ready) in
    if magic == bootloader_magic then right else wrong
