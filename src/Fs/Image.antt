-- ===== src/Fs/Image.antt =====
-- The file system image as a whole: where it ends, which files it holds, and their bytes.
use linux_kernel_os.Prelude.{
  length, ℕ, zero, suc, ◌+◌, ◌*◌, ◌/◌, ◌%◌, ◌≤◌, ◌<◌, ◌≡◌, refl, ◌⊎◌, List, [], ◌∷◌, arith,
}
use linux_kernel_os.Memory.{Memory, store, load32}
use linux_kernel_os.Fs.{block_size, Fs, data_begin, inode_at, inode_length, inode_block, block_at}

abbrev pub image_end : Fs → ℕ
image_end fs = data_begin fs + fs.data_blocks * block_size

-- Two memories hold the same image.
abbrev pub SameImage : Fs → Memory → Memory → Type 0
SameImage fs m m' = (a : ℕ) → fs.boot_block_ptr ≤ a → a < image_end fs → m' a ≡ m a

-- The inode `i` describes a file: it is in the table, the file is at most the 1023 blocks long that
-- an inode can name, and each block that it reaches into is one of the image.
pub record IsFile (fs : Fs) (m : Memory) (i : ℕ) : Type 0 where
  pub inode_in : i < fs.inodes
  pub size : inode_length fs m i ≤ 1023 * block_size
  pub blocks_in :
      (k : ℕ) → k * block_size < inode_length fs m i → inode_block fs m i k < fs.data_blocks

-- The byte of the file at position `p`.
abbrev pub file_byte : Fs → Memory → ℕ → ℕ → ℕ
file_byte fs m i p = m (block_at fs m i (p / block_size) + p % block_size)

-- The `n` bytes of the file from position `p` on.
unfoldable pub file_bytes : Fs → Memory → ℕ → ℕ → ℕ → List ℕ
file_bytes fs m i p zero = []
file_bytes fs m i p (suc n) = file_byte fs m i p ∷ file_bytes fs m i (p + 1) n

pub length-file_bytes : (fs : Fs) (m : Memory) (i p n : ℕ) → length (file_bytes fs m i p n) ≡ n
unfolding file_bytes
length-file_bytes fs m i p zero = refl
length-file_bytes fs m i p (suc n) = omega (arith, length-file_bytes fs m i (p + 1) n)

module _ (fs : Fs) (m m' : Memory) (same : SameImage fs m m') where
  pub load32-SameImage :
      (p : ℕ) → fs.boot_block_ptr ≤ p → p + 4 ≤ image_end fs → load32 m' p ≡ load32 m p
  load32-SameImage p lo hi =
      let e0 = same p lo (omega arith) in
      let e1 = same (p + 1) (omega arith) (omega arith) in
      let e2 = same (p + 2) (omega arith) (omega arith) in
      let e3 = same (p + 3) (omega arith) (omega arith) in omega (arith, e0, e1, e2, e3)

  pub inode_length-SameImage : (i : ℕ) → i < fs.inodes → inode_length fs m' i ≡ inode_length fs m i
  inode_length-SameImage i h = load32-SameImage (inode_at fs i) (omega arith) (omega arith)

  pub inode_block-SameImage :
      (i k : ℕ) → i < fs.inodes → k < 1023 → inode_block fs m' i k ≡ inode_block fs m i k
  inode_block-SameImage i k h hk =
      load32-SameImage (inode_at fs i + 4 + k * 4) (omega arith) (omega arith)

pub SameImage-store :
    (fs : Fs) (m m' : Memory) (p v : ℕ)
    → SameImage fs m m'
    → (p < fs.boot_block_ptr) ⊎ (image_end fs ≤ p)
    → SameImage fs m (store m' p v)
SameImage-store fs m m' p v same out a lo hi = ground (arith, same a lo hi)
