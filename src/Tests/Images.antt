-- ===== src/Tests/Images.antt =====
-- A small file system image, and page tables.
use linux_kernel_os.Prelude.Int.{pos}
use linux_kernel_os.Prelude.{
  ◌==◌, if◌then◌else◌, ℕ, zero, suc, ◌+◌, ◌≡◌, refl, ◌≢◌, inl, true, false, some, List, [], ◌∷◌,
  arith,
}
use linux_kernel_os.Memory.{Memory}
use linux_kernel_os.Memory.Write.{write_bytes}
use linux_kernel_os.Strings.{IsString}
use linux_kernel_os.Strings.Compare.{IsBytes}
use linux_kernel_os.Fs.{Fs, read_data}
use linux_kernel_os.Fs.Image.{IsFile, file_bytes}
use linux_kernel_os.Fs.Read.{read_data-file_bytes}
use linux_kernel_os.Fs.Dentry.{copy_dentry, read_dentry_by_name}
use linux_kernel_os.Fs.Lookup.{IsDirectory, read_dentry_by_name-first}
use linux_kernel_os.Paging.{Paging, create_page_dir_entry, init_paging}
use linux_kernel_os.Paging.Translate.{translate}
use linux_kernel_os.Paging.Isolation.{
  program_page, translate-create_page_dir_entry, programs_apart, IsLinked,
}
use linux_kernel_os.Paging.Boot.{translate-init_paging}

-- An image at the address 65536, with the file "hi" of 5 bytes, which is inode 1, and the names "hi"
-- and "no" outside of it.
abbrev pub disk : Fs
disk = record {
  file_open = false;
  boot_block_ptr = 65536;
  dentries = 1;
  inodes = 2;
  data_blocks = 3;
  directory_read_count = 0;
}

abbrev pub image : Memory
image a =
    if a == 65600
    then b'h'
    else if a == 65601
    then b'i'
    else if a == 65632
    then 2
    else if a == 65636
    then 1
    else if a == 73728
    then 5
    else if a == 77824
    then b'x'
    else if a == 100
    then b'h'
    else if a == 101
    then b'i'
    else if a == 200
    then b'n'
    else if a == 201
    then b'o'
    else 0

abbrev hi : List ℕ
hi = b'h' ∷ b'i' ∷ []

abbrev pub names : ℕ → List ℕ
names zero = hi
names (suc i) = []

image-IsBytes : IsBytes image
image-IsBytes a = ground arith

image-IsDirectory : IsDirectory disk image names
image-IsDirectory zero h = (ground arith, omega arith)
image-IsDirectory (suc i) h = (ground arith, omega arith)

hi-IsString : IsString image 100 hi
hi-IsString = ground arith

pub image-IsFile : IsFile disk image 1
image-IsFile = record {
  inode_in = omega arith;
  size = omega arith;
  blocks_in = λ k h. let first : k ≡ 0 = omega arith in rw first (omega arith);
}

read_dentry_by_name-first_example :
    read_dentry_by_name disk image 100 400 ≡ some (copy_dentry disk image 400 0, pos 0)
read_dentry_by_name-first_example =
    read_dentry_by_name-first disk image names 100 400 hi image-IsBytes image-IsDirectory
      hi-IsString (λ e. absurd (omega arith)) (λ e. absurd (omega arith)) 2 0 refl (omega arith)
      (omega arith) (omega arith) (refl, refl) (λ l h. absurd (omega arith))

read_data-file_bytes_example :
    read_data disk image 1 2 400 10 ≡ (write_bytes image 400 (file_bytes disk image 1 2 3), pos 3)
read_data-file_bytes_example =
    read_data-file_bytes disk image 1 2 400 10 image-IsFile (omega arith) (omega arith)
      (omega arith) (λ e. absurd (omega arith)) (inl (omega arith))

-- Tables as the loader leaves them, at 4 MB and the page behind.
abbrev pub tables : Paging
tables = record {
  page_directory = λ i. 0;
  page_table = λ i. 0;
  video_table = λ i. 0;
  page_table_at = 0x400000;
  video_table_at = 0x401000;
}

pub tables-IsLinked : IsLinked tables
tables-IsLinked = record {
  page_table_page = 0x400;
  video_table_page = 0x401;
  page_table_eq = refl;
  video_table_eq = refl;
  apart = λ e. absurd (omega arith);
}

translate-create_page_dir_entry_example :
    translate (create_page_dir_entry tables (program_page 1)) true 0x8048000 ≡ some 0xc48000
translate-create_page_dir_entry_example = translate-create_page_dir_entry tables 1 0x8048000 true

programs_apart_example : program_page 1 + 0x48000 ≢ program_page 2 + 0x48000
programs_apart_example =
    programs_apart tables tables 1 2 0x8048000 0x8048000 0xc48000 0x1048000
      (λ e. absurd (omega arith)) refl refl
      (translate-create_page_dir_entry tables 1 0x8048000 true)
      (translate-create_page_dir_entry tables 2 0x8048000 true)

translate-init_paging_example : translate (init_paging tables) false 0xb8010 ≡ some 0xb8010
translate-init_paging_example =
    translate-init_paging tables 0xb8010 false tables-IsLinked (λ j ne. refl)
