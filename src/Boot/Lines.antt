-- ===== src/Boot/Lines.antt =====
-- Which interrupt lines are open when `entry` of student-distrib/kernel.c enables the interrupts.
use linux_kernel_os.Pit.{init_pit}
use linux_kernel_os.Pic.{Pic, enable_irq, disable_irq, i8259_init}
use linux_kernel_os.Boot.{Machine, init_parts}
use linux_kernel_os.Prelude.Table.{check_below, check_below-lt}
use linux_kernel_os.Pic.Masks.{masked, is_masked}
use linux_kernel_os.Kernel.{Kernel}
use linux_kernel_os.Prelude.{
  ltb, ◌==◌, if◌then◌else◌, ℕ, ◌-◌, ◌<◌, ◌≡◌, refl, Bool, true, not, ◌||◌, arith,
}

-- The lines that are open after boot: the timer, the keyboard, the slave and the clock.
abbrev pub is_open : ℕ → Bool
is_open j = (j == 0) || (j == 1) || (j == 2) || (j == 8)

-- The order of the calls that touch the controllers.
opened : Pic → Pic
opened p = enable_irq (enable_irq (enable_irq (disable_irq (i8259_init p) 8) 8) 1) 0

opened-masks :
    (p : Pic)
    → p.master_mask ≡ 0xff
    → p.slave_mask ≡ 0xff
    → ((opened p).master_mask ≡ 0xf8) × ((opened p).slave_mask ≡ 0xfe)
unfolding opened i8259_init enable_irq disable_irq
opened-masks p hm hs = (rw hm refl, rw hs refl)

lines_row : ℕ → Bool
lines_row j =
    if ltb j 8
    then (if masked 0xf8 j then not (is_open j) else is_open j)
    else (if masked 0xfe (j - 8) then not (is_open j) else is_open j)

lines_table : check_below 16 lines_row ≡ true
unfolding lines_row check_below
lines_table = refl

is_masked_lem :
    (p : Pic) (j : ℕ)
    → p.master_mask ≡ 0xf8
    → p.slave_mask ≡ 0xfe
    → j < 16
    → is_masked p j ≡ not (is_open j)
unfolding lines_row
is_masked_lem p j hm hs hj =
    rw (hm, hs) (ground (arith, check_below-lt 16 lines_row j lines_table hj))

-- After the initialisers of `entry`, from the masks 0xff with which i8259.c starts, exactly the
-- interrupt lines 0, 1, 2 and 8 of the 16 are open: the timer, the keyboard, the slave, the clock.
pub is_masked-init_parts :
    (b : Machine) (modules : ℕ) (k : Kernel) (j : ℕ)
    → k.pic.master_mask ≡ 0xff
    → k.pic.slave_mask ≡ 0xff
    → j < 16
    → is_masked (init_parts b modules k).pic j ≡ not (is_open j)
unfolding init_parts init_pit opened
is_masked-init_parts b modules k j hm hs hj =
    let (m, s) = opened-masks k.pic hm hs in is_masked_lem (opened k.pic) j m s hj
