-- ===== src/Paging/Check.antt =====
-- The test `paging_init_test` of student-distrib/tests.c, and what it says of `init_paging`.
use linux_kernel_os.Prelude.{
  ◌==◌, if◌then◌else◌, ℕ, zero, suc, ◌+◌, ◌/◌, ◌%◌, Bool, not, List, [], ◌∷◌, ◌++◌,
}
use linux_kernel_os.Paging.{Paging, video_page, init_table}
use linux_kernel_os.Paging.Translate.{present, large}

-- The messages of the test, in its order.
pub data Complaint : Type 0 where
  video_absent video_read_only generic_present generic_read_only : Complaint
  table_absent table_read_only kernel_absent kernel_read_only kernel_small : Complaint
  directory_read_only : Complaint

-- The bit R/W of an entry.
abbrev pub writable : ℕ → Bool
writable e = e / 2 % 2 == 1

-- A complaint, where the test of it fails.
abbrev pub unless : Bool → Complaint → List Complaint
unless b c = if b then [] else c ∷ []

-- The tests of the entry `i` of the page table.
unfoldable pub table_complaints : ℕ → ℕ → List Complaint
table_complaints i e =
    if i == video_page
    then unless (present e) video_absent ++ unless (writable e) video_read_only
    else unless (not (present e)) generic_present ++ unless (writable e) generic_read_only

-- The tests of the entry `i` of the page directory.
unfoldable pub directory_complaints : ℕ → ℕ → List Complaint
directory_complaints i e =
    if i == 0
    then unless (present e) table_absent ++ unless (writable e) table_read_only
    else if i == 1
    then unless (present e) kernel_absent
      ++ (unless (writable e) kernel_read_only ++ unless (large e) kernel_small)
    else unless (writable e) directory_read_only

-- The loop from the entry `i` on, with the rounds that are left.
unfoldable pub paging_init_test_loop : ℕ → Paging → ℕ → List Complaint
unfolding table_complaints directory_complaints
paging_init_test_loop zero p i = []
paging_init_test_loop (suc r) p i =
    table_complaints i (p.page_table i)
    ++ (directory_complaints i (p.page_directory i) ++ paging_init_test_loop r p (i + 1))

-- The messages that the test prints: it passes where there is none.
unfoldable pub paging_init_test : Paging → List Complaint
unfolding paging_init_test_loop
paging_init_test p = paging_init_test_loop 1024 p 0

-- What the test says of the page table.
table_loop : ℕ → ℕ → List Complaint
table_loop zero i = []
table_loop (suc r) i = table_complaints i (init_table i) ++ table_loop r (i + 1)
