-- ===== src/Paging/Boot.antt =====
-- The address space that `init_paging` sets up.
use linux_kernel_os.Paging.Isolation.{IsLinked, flags_table}
use linux_kernel_os.Paging.Translate.{walk_table, translate}
use linux_kernel_os.Prelude.{
  ltb, leb, ◌==◌, if◌then◌else◌, ℕ, ◌+◌, ◌*◌, ◌/◌, ◌%◌, ◌^◌, ◌<◌, ◌≡◌, refl, ◌≢◌, Bool, true, not,
  ◌&&◌, Option, none, some, arith,
}
use linux_kernel_os.Prelude.Table.{check_below, check_below-lt}
use linux_kernel_os.Paging.{
  Paging, video_index, rw_enable, rw_present, rw_present_user, map_video, init_directory,
  init_table, init_paging,
}

-- The pages of the kernel's table that are present.
in_video : ℕ → Bool
in_video j = leb 0xb8 j && ltb j 0xbc

entry_row : ℕ → Bool
entry_row j =
    if in_video j
    then init_table j == j * 2 ^ 12 + rw_present
    else init_table j == j * 2 ^ 12 + rw_enable

entry_table : check_below 1024 entry_row ≡ true
unfolding check_below entry_row in_video init_table
entry_table = refl

-- What the kernel can reach after boot: its own 4 MB from 4 MB on and the four video pages at their
-- own addresses, and the video memory at 132 MB.
abbrev pub boot_map : ℕ → Option ℕ
boot_map va =
    if va / 2 ^ 22 == 1
    then some va
    else if (va / 2 ^ 22 == 0) && leb 0xb8 (va / 2 ^ 12) && ltb (va / 2 ^ 12) 0xbc
    then some va
    else if (va / 2 ^ 22 == video_index) && (va / 2 ^ 12 % 2 ^ 10 == 0)
    then some (0xb8000 + va % 2 ^ 12)
    else none

init_table_entry :
    (j : ℕ)
    → j < 1024
    → init_table j ≡ (if in_video j then j * 2 ^ 12 + rw_present else j * 2 ^ 12 + rw_enable)
unfolding entry_row
init_table_entry j h = ground (arith, check_below-lt 1024 entry_row j entry_table h)

walk_init_table :
    (va : ℕ) (as_user : Bool)
    → va / 2 ^ 22 ≡ 0
    → walk_table (some init_table) as_user va
      ≡ (if not as_user && leb 0xb8 (va / 2 ^ 12) && ltb (va / 2 ^ 12) 0xbc then some va else none)
unfolding walk_table in_video
walk_init_table va as_user low =
    let page : va / 2 ^ 12 % 2 ^ 10 ≡ va / 2 ^ 12 = omega arith in
    rw (page, init_table_entry (va / 2 ^ 12) (omega arith)) (ground arith)

module _ (p : Paging) (va : ℕ) (as_user : Bool) (l : IsLinked p) where
  boot_low :
      va / 2 ^ 22 ≡ 0
      → translate (init_paging p) as_user va ≡ (if as_user then none else boot_map va)
  unfolding translate init_directory map_video init_paging
  boot_low dir =
      rw dir (ground (arith, flags_table p rw_present l, walk_init_table va as_user dir, l))

  boot_kernel :
      va / 2 ^ 22 ≡ 1 → translate (init_paging p) as_user va ≡ (if as_user then none else some va)
  unfolding translate init_directory map_video init_paging
  boot_kernel dir = rw dir (ground arith)

  boot_video :
      ((j : ℕ) → j ≢ 0 → p.video_table j ≡ 0)
      → va / 2 ^ 22 ≡ video_index
      → translate (init_paging p) as_user va ≡ boot_map va
  unfolding translate init_directory map_video init_paging
  boot_video zero_rest dir =
      rw dir (ground (arith, flags_table p rw_present_user l, zero_rest (va / 2 ^ 12 % 2 ^ 10), l))

  boot_other :
      va / 2 ^ 22 ≢ 0
      → va / 2 ^ 22 ≢ 1
      → va / 2 ^ 22 ≢ video_index
      → translate (init_paging p) as_user va ≡ none
  unfolding translate init_directory map_video init_paging
  boot_other ne0 ne1 ne33 = ground arith

-- With the two tables on different pages, and the rest of the video table zero, as the loader
-- leaves it: after `init_paging` the kernel reaches exactly the addresses of `boot_map`, and a
-- program exactly the video page at 132 MB.
pub translate-init_paging :
    (p : Paging) (va : ℕ) (as_user : Bool)
    → IsLinked p
    → ((j : ℕ) → j ≢ 0 → p.video_table j ≡ 0)
    → translate (init_paging p) as_user va
      ≡ (if as_user && not (va / 2 ^ 22 == video_index) then none else boot_map va)
translate-init_paging p va as_user l zero_rest = ground (
  arith,
  boot_low p va as_user l,
  boot_kernel p va as_user l,
  boot_video p va as_user l zero_rest,
  boot_other p va as_user l,
)
