-- ===== src/Paging/Isolation.antt =====
-- What a program sees of the memory: its own 4 MB page, and the video page.
use Prim.Native.Nat.{bit_or}
use linux_kernel_os.Prelude.{
  ◌==◌, if◌then◌else◌, ℕ, ◌+◌, ◌*◌, ◌/◌, ◌%◌, ◌^◌, ◌<◌, ◌≡◌, ◌≢◌, Bool, true, none, some, arith,
}
use linux_kernel_os.Prelude.Bits.{bit_or-aligned}
use linux_kernel_os.Paging.{
  Paging, program_index, video_index, rw_present_user, rw_absent_user, pe_mask,
  create_page_dir_entry, remap_video_memory, reclaim_video_memory,
}
use linux_kernel_os.Paging.Translate.{translate}

-- The physical page of the process `pid`, as `execute` and `halt` compute it.
abbrev pub program_page : ℕ → ℕ
program_page pid = pid * 0x400000 + 0x800000

program_entry : (pid : ℕ) → bit_or (program_page pid) pe_mask ≡ (pid + 2) * 2 ^ 22 + 0x87
program_entry pid =
    let whole : program_page pid ≡ (pid + 2) * 2 ^ 22 = omega arith in
    rw whole (bit_or-aligned 22 (pid + 2) pe_mask (omega arith))

-- With the page of `pid` mapped, a program's addresses from 128 to 132 MB lead to that page, at the
-- same offset, and every other address leads where it led before.
pub translate-create_page_dir_entry :
    (p : Paging) (pid va : ℕ) (as_user : Bool)
    → translate (create_page_dir_entry p (program_page pid)) as_user va ≡ (
        if va / 2 ^ 22 == program_index
        then some (program_page pid + va % 2 ^ 22)
        else translate p as_user va)
unfolding translate create_page_dir_entry
translate-create_page_dir_entry p pid va as_user = ground (arith, program_entry pid)

-- Programs with different process ids never reach the same physical byte through their own pages.
pub programs_apart :
    (p q : Paging) (pid qid va wa a b : ℕ)
    → pid ≢ qid
    → va / 2 ^ 22 ≡ program_index
    → wa / 2 ^ 22 ≡ program_index
    → translate (create_page_dir_entry p (program_page pid)) true va ≡ some a
    → translate (create_page_dir_entry q (program_page qid)) true wa ≡ some b
    → a ≢ b
programs_apart p q pid qid va wa a b ne hv hw ea eb = ground (
  arith,
  translate-create_page_dir_entry p pid va true,
  translate-create_page_dir_entry q qid wa true,
)

-- The linker has put the two tables on different pages below 4 GB.
pub record IsLinked (p : Paging) : Type 0 where
  pub page_table_page : ℕ
  pub video_table_page : ℕ
  pub page_table_eq : p.page_table_at ≡ page_table_page * 2 ^ 12
  pub video_table_eq : p.video_table_at ≡ video_table_page * 2 ^ 12
  pub apart : page_table_page ≢ video_table_page

pub flags_table :
    (p : Paging) (flags : ℕ)
    → IsLinked p
    → flags < 2 ^ 12
    → (bit_or p.video_table_at flags ≡ p.video_table_at + flags)
      × (bit_or p.page_table_at flags ≡ p.page_table_at + flags)
flags_table p flags l small = (
  rw l.video_table_eq (bit_or-aligned 12 l.video_table_page flags small),
  rw l.page_table_eq (bit_or-aligned 12 l.page_table_page flags small),
)

-- With the two tables on different pages, `remap_video_memory` maps the 4 KB page at 132 MB to the
-- video memory, for the kernel and for programs.
pub translate-remap :
    (p : Paging) (va : ℕ) (as_user : Bool)
    → IsLinked p
    → va / 2 ^ 22 ≡ video_index
    → va / 2 ^ 12 % 2 ^ 10 ≡ 0
    → translate (remap_video_memory p) as_user va ≡ some (0xb8000 + va % 2 ^ 12)
unfolding translate remap_video_memory
translate-remap p va as_user l dir tab =
    ground (arith, flags_table p rw_present_user l, dir, tab, l)

-- With the two tables on different pages, `reclaim_video_memory` makes the 4 MB from 132 MB on
-- fault, for the kernel too, and changes no address whose directory entry is another one that does
-- not name the video table.
pub translate-reclaim :
    (p : Paging) (va : ℕ) (as_user : Bool)
    → IsLinked p
    → (va / 2 ^ 22 ≢ video_index
        → p.page_directory (va / 2 ^ 22) / 2 ^ 12 ≢ p.video_table_at / 2 ^ 12)
    → translate (reclaim_video_memory p) as_user va
      ≡ (if va / 2 ^ 22 == video_index then none else translate p as_user va)
unfolding translate reclaim_video_memory
translate-reclaim p va as_user l other = ground (arith, flags_table p rw_absent_user l, l)
