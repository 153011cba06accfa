-- ===== src/Fs.antt =====
-- student-distrib/fileSystem: the read-only file system, an image in the memory. The module that
-- the boot loader puts at `boot_block_ptr` is a block with the counts and 63 directory entries of
-- 64 bytes, then the inodes, one to a block, then the data blocks.
pub mod Dentry
pub mod Image
pub mod Lookup
pub mod Read
use linux_kernel_os.Prelude.{
  leb, ◌==◌, if◌then◌else◌, length, ℕ, zero, suc, ◌+◌, ◌*◌, ◌/◌, ◌%◌, Bool, true, false, ◌||◌,
}
use linux_kernel_os.Prelude.Int.{ℤ, pos, fail, add32, int32}
use linux_kernel_os.Memory.{Memory, null, store, load32}

-- DATA_BLOCK_SIZE
abbrev pub block_size : ℕ
block_size = 4096

-- DENTRY_SIZE
abbrev pub dentry_size : ℕ
dentry_size = 64

-- DENTRY_MAX_SIZE
abbrev pub dentry_max : ℕ
dentry_max = 63

-- MAX_SIZE_FNAME
abbrev pub max_name : ℕ
max_name = 32

-- FILE_RTC, FILE_DIR and FILE_NORMAL
abbrev pub file_rtc : ℕ
file_rtc = 0

abbrev pub file_dir : ℕ
file_dir = 1

abbrev pub file_normal : ℕ
file_normal = 2

-- The file-scope variables: `file_open_bool`, `boot_block_ptr`, the counts of `boot_block`, which
-- `fs_init` copies out of the image, and `directory_read_count`. The pointers `boot_dentries`,
-- `inode_array` and `data_begin_ptr` are functions of these, below.
pub record Fs : Type 0 where
  pub file_open : Bool
  pub boot_block_ptr : ℕ
  pub dentries : ℕ
  pub inodes : ℕ
  pub data_blocks : ℕ
  pub directory_read_count : ℕ

-- data_begin_ptr
abbrev pub data_begin : Fs → ℕ
data_begin fs = fs.boot_block_ptr + (fs.inodes + 1) * block_size

-- &boot_dentries[i], a `directory_entry_t`
abbrev pub dentry_at : Fs → ℕ → ℕ
dentry_at fs i = fs.boot_block_ptr + dentry_size + i * dentry_size

-- The fields `fileType` and `inodeNum` of the directory entry at `d`; `fileName` stands at `d`.
abbrev pub file_type : Memory → ℕ → ℕ
file_type m d = load32 m (d + 32)

abbrev pub inode_num : Memory → ℕ → ℕ
inode_num m d = load32 m (d + 36)

-- inode_array[i].length and inode_array[i].dataBlocks[k]
abbrev pub inode_at : Fs → ℕ → ℕ
inode_at fs i = fs.boot_block_ptr + block_size + i * block_size

abbrev pub inode_length : Fs → Memory → ℕ → ℕ
inode_length fs m i = load32 m (inode_at fs i)

abbrev pub inode_block : Fs → Memory → ℕ → ℕ → ℕ
inode_block fs m i k = load32 m (inode_at fs i + 4 + k * 4)

-- Where the bytes of the inode's block `k` stand.
abbrev pub block_at : Fs → Memory → ℕ → ℕ → ℕ
block_at fs m i k = data_begin fs + inode_block fs m i k * block_size

unfoldable pub fs_init : Memory → ℕ → Fs → Fs
fs_init m addr fs = if fs.file_open then fs else record fs {
  file_open = true;
  boot_block_ptr = addr;
  dentries = load32 m addr;
  inodes = load32 m (addr + 4);
  data_blocks = load32 m (addr + 8);
}

unfoldable pub fs_open : Fs → Fs × ℤ
fs_open fs = (record fs { file_open = true }, pos 0)

unfoldable pub fs_close : Fs → Fs × ℤ
fs_close fs = (record fs { file_open = false }, pos 0)

unfoldable pub fs_write : ℤ
fs_write = fail

unfoldable pub fs_open_directory : ℤ
fs_open_directory = pos 0

unfoldable pub fs_write_directory : ℤ
fs_write_directory = fail

unfoldable pub fs_close_directory : ℤ
fs_close_directory = pos 0

-- The loop of `read_data`, with the rounds that `read_success < length` leaves. `n` is
-- `read_success`, `loc` is `block_location_ptr`, `k` is `data_block` and `p` is `read_buffer_ptr`.
unfoldable pub read_loop : Fs → ℕ → ℕ → ℕ → ℕ → Memory → ℕ → ℕ → ℕ → ℕ → Memory × ℤ
read_loop fs i offset buffer zero m n loc k p = (m, int32 n)
read_loop fs i offset buffer (suc r) m n loc k p =
    let next =
      read_loop fs i offset buffer r (store m (buffer + n) (m (block_at fs m i (k + 1)))) (n + 1) 1
        (k + 1) (block_at fs m i (k + 1) + 1) in
    let same =
      read_loop fs i offset buffer r (store m (buffer + n) (m p)) (n + 1) (loc + 1) k (p + 1) in
    if leb (inode_length fs m i) (add32 n offset)
    then (m, int32 n)
    else if leb block_size loc
    then (if leb fs.data_blocks (inode_block fs m i (k + 1)) then (m, fail) else next)
    else same

unfoldable pub read_data : Fs → Memory → ℕ → ℕ → ℕ → ℕ → Memory × ℤ
unfolding read_loop
read_data fs m i offset buffer length =
    let loc = offset % block_size in
    let k = offset / block_size in
    if leb fs.inodes i || leb fs.data_blocks (inode_block fs m i k) || (buffer == null)
    then (m, fail)
    else if leb (inode_length fs m i) offset || (length == 0)
    then (m, pos 0)
    else read_loop fs i offset buffer length m 0 loc k (block_at fs m i k + loc)
