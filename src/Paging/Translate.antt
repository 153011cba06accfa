-- ===== src/Paging/Translate.antt =====
-- How the processor reads the tables: 4 MB pages in the directory, 4 KB pages in a table.
use linux_kernel_os.Prelude.{
  ◌==◌, if◌then◌else◌, ℕ, ◌+◌, ◌*◌, ◌/◌, ◌%◌, ◌^◌, Bool, not, ◌&&◌, ◌||◌, Option, none, some,
}
use linux_kernel_os.Paging.{Paging}

-- The flags of an entry: present, user, and the page size.
abbrev pub present : ℕ → Bool
present e = e % 2 == 1

abbrev pub user : ℕ → Bool
user e = e / 4 % 2 == 1

abbrev pub large : ℕ → Bool
large e = e / 128 % 2 == 1

-- The table that a directory entry points to, where it is one of the kernel's two.
abbrev pub table_at : Paging → ℕ → Option (ℕ → ℕ)
table_at p e =
    if e / 4096 == p.page_table_at / 4096
    then some p.page_table
    else if e / 4096 == p.video_table_at / 4096
    then some p.video_table
    else none

-- The second step, in the table.
unfoldable pub walk_table : Option (ℕ → ℕ) → Bool → ℕ → Option ℕ
walk_table none as_user va = none
walk_table (some table) as_user va =
    let f = table (va / 2 ^ 12 % 2 ^ 10) in
    if not (present f) || (as_user && not (user f))
    then none
    else some (f / 2 ^ 12 * 2 ^ 12 + va % 2 ^ 12)

-- The physical address behind `va`, for code of the user (`as_user`) or of the kernel; `none` is a
-- page fault.
unfoldable pub translate : Paging → Bool → ℕ → Option ℕ
unfolding walk_table
translate p as_user va =
    let e = p.page_directory (va / 2 ^ 22) in
    if not (present e) || (as_user && not (user e))
    then none
    else if large e
    then some (e / 2 ^ 22 * 2 ^ 22 + va % 2 ^ 22)
    else walk_table (table_at p e) as_user va
