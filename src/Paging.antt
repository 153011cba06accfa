-- ===== src/Paging.antt =====
-- student-distrib/paging: the page directory and its two page tables, and what the processor makes
-- of them. The control registers and the flush of the TLB, in assembly, are not modelled: an address
-- is translated by the tables as they stand.
use Prim.Native.Nat.{bit_or}
use linux_kernel_os.Prelude.{◌==◌, if◌then◌else◌, ℕ, ◌*◌, ◌%◌, ◌^◌}
pub mod Boot
pub mod Check
pub mod Isolation
pub mod Translate

-- `page_directory`, `page_table` and `video_table`, by index, and the addresses at which the linker
-- has put the two tables.
pub record Paging : Type 0 where
  pub page_directory : ℕ → ℕ
  pub page_table : ℕ → ℕ
  pub video_table : ℕ → ℕ
  pub page_table_at : ℕ
  pub video_table_at : ℕ

abbrev pub update : (ℕ → ℕ) → ℕ → ℕ → ℕ → ℕ
update f i v j = if i == j then v else f j

-- VA_128MB, VID_PAGE_INDEX and VIDEO_MEM_ADDR
abbrev pub program_index : ℕ
program_index = 32

abbrev pub video_index : ℕ
video_index = 33

abbrev pub video_page : ℕ
video_page = 0xb8

-- RW_ENABLE, RW_PRESENT_ENABLE, RW_PRESENT_ENABLE_USER, RW_PRESENT_DISABLE_USER,
-- RW_PRESENT_SIZE_ENABLE and PE_MASK
abbrev pub rw_enable : ℕ
rw_enable = 2

abbrev pub rw_present : ℕ
rw_present = 3

abbrev pub rw_present_user : ℕ
rw_present_user = 7

abbrev pub rw_absent_user : ℕ
rw_absent_user = 6

abbrev pub rw_present_size : ℕ
rw_present_size = 131

abbrev pub pe_mask : ℕ
pe_mask = 0x87

unfoldable pub create_page_dir_entry : Paging → ℕ → Paging
create_page_dir_entry p addr = record p {
  page_directory = update p.page_directory program_index (bit_or addr pe_mask);
}

-- `remap_video_memory` and `reclaim_video_memory`, which differ in the flags.
unfoldable pub map_video : Paging → ℕ → Paging
map_video p flags = record p {
  page_directory = update p.page_directory video_index (bit_or p.video_table_at flags);
  video_table = update p.video_table 0 (bit_or 0xb8000 flags);
}

unfoldable pub remap_video_memory : Paging → Paging
unfolding map_video
remap_video_memory p = map_video p rw_present_user

unfoldable pub reclaim_video_memory : Paging → Paging
unfolding map_video
reclaim_video_memory p = map_video p rw_absent_user

-- The tables that `init_paging` builds: the directory is blank but for its first two entries, the
-- page table maps each page to itself, with the video page and its three backups present.
unfoldable pub init_directory : Paging → ℕ → ℕ
init_directory p i =
    if i == 0
    then bit_or p.page_table_at rw_present
    else if i == 1
    then bit_or 0x400000 rw_present_size
    else rw_enable

unfoldable pub init_table : ℕ → ℕ
init_table j =
    let blank = bit_or (j * 2 ^ 12 % 2 ^ 32) rw_enable in
    if j == video_page
    then bit_or blank rw_present
    else if j == 0xb9
    then bit_or 0xb9000 rw_present
    else if j == 0xba
    then bit_or 0xba000 rw_present
    else if j == 0xbb
    then bit_or 0xbb000 rw_present
    else blank

unfoldable pub init_paging : Paging → Paging
unfolding remap_video_memory init_directory
init_paging p =
    remap_video_memory (record p { page_directory = init_directory p; page_table = init_table })
