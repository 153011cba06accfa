-- ===== src/Fs/Read.antt =====
-- What `read_data` returns and writes.
use linux_kernel_os.Prelude.{
  get_or, List, leb, Bool-cases, ℕ, zero, suc, ◌+◌, ◌-◌, ◌*◌, ◌/◌, ◌%◌, ◌^◌, ◌≤◌, ◌<◌, min, ◌≡◌,
  refl, ap, ◌∙◌, ◌≢◌, ◌⊎◌, inl, inr, arith,
}
use linux_kernel_os.Prelude.Int.{ℤ, pos, fail, add32}
use linux_kernel_os.Memory.{Memory, null, store}
use linux_kernel_os.Memory.Write.{Apart, write_bytes}
use linux_kernel_os.Fs.{
  block_size, Fs, data_begin, inode_length, inode_block, block_at, read_loop, read_data,
}
use linux_kernel_os.Fs.Image.{
  image_end, SameImage, IsFile, file_byte, file_bytes, inode_length-SameImage,
  inode_block-SameImage, SameImage-store,
}

-- How many of the next `r` bytes from position `p` the file still has.
abbrev pub left : Fs → Memory → ℕ → ℕ → ℕ → ℕ
left fs m i r p = min r (inode_length fs m i - p)

module _ (fs : Fs) (m : Memory) (i offset buffer : ℕ) where
  -- What the loop of `read_data` comes to, with `r` rounds left after `n` bytes.
  abbrev Copied : ℕ → Memory → ℕ → Memory × ℤ
  Copied r m' n = (
    write_bytes m' (buffer + n) (file_bytes fs m i (offset + n) (left fs m i r (offset + n))),
    pos (n + left fs m i r (offset + n)),
  )

  Copied_suc :
      (r : ℕ) (m' : Memory) (n b : ℕ)
      → b ≡ file_byte fs m i (offset + n)
      → offset + n < inode_length fs m i
      → Copied r (store m' (buffer + n) b) (n + 1) ≡ Copied (suc r) m' n
  unfolding file_bytes
  Copied_suc r m' n b e h =
      let more : left fs m i (suc r) (offset + n) ≡ suc (left fs m i r (offset + (n + 1))) =
        omega arith in
      let at : offset + (n + 1) ≡ offset + n + 1 = omega arith in
      let to : buffer + (n + 1) ≡ buffer + n + 1 = omega arith in
      let total = λ (l : ℕ). let t : n + 1 + l ≡ n + suc l = omega arith in t in
      rw (more, at, to, total (left fs m i r (offset + n + 1)), e)

  module _ (file : IsFile fs m i) where
    block_at-SameImage :
        (m' : Memory) (k : ℕ)
        → SameImage fs m m'
        → k * block_size < inode_length fs m i
        → block_at fs m' i k ≡ block_at fs m i k
    block_at-SameImage m' k same h =
        ap (λ (b : ℕ). data_begin fs + b * block_size)
          (inode_block-SameImage fs m m' same i k file.inode_in (omega (arith, file.size)))

    -- A byte of the file, read through the pointer to its block.
    read_byte :
        (m' : Memory) (n k loc : ℕ)
        → SameImage fs m m'
        → k * block_size + loc ≡ offset + n
        → loc < block_size
        → k * block_size < inode_length fs m i
        → m' (block_at fs m i k + loc) ≡ file_byte fs m i (offset + n)
    read_byte m' n k loc same at lt reach =
        let block : (offset + n) / block_size ≡ k = omega arith in
        let within : (offset + n) % block_size ≡ loc = omega arith in
        rw (block, within)
          (same (block_at fs m i k + loc) (omega arith) (omega (arith, file.blocks_in k reach)))

    read_loop-Copied :
        (r : ℕ) (m' : Memory) (n loc k p : ℕ)
        → SameImage fs m m'
        → Apart buffer (n + r) fs.boot_block_ptr (image_end fs - fs.boot_block_ptr)
        → k * block_size + loc ≡ offset + n
        → loc ≤ block_size
        → k * block_size < inode_length fs m i
        → p ≡ block_at fs m i k + loc
        → n + r < 2 ^ 31
        → read_loop fs i offset buffer r m' n loc k p ≡ Copied r m' n
    unfolding read_loop file_bytes
    read_loop-Copied zero m' n loc k p same out at le reach here fits =
        let none_left : left fs m i 0 (offset + n) ≡ 0 = omega arith in rw none_left (ground arith)
    read_loop-Copied (suc r) m' n loc k p same out at le reach here fits =
        elim (Bool-cases (leb (inode_length fs m i) (offset + n))) [
          | inl over ↦
              let none_left : left fs m i (suc r) (offset + n) ≡ 0 = ground arith in
              rw none_left (ground (arith, len, wrap))
          | inr more ↦ elim (Bool-cases (leb block_size loc)) [
            | inl full ↦
                let reach' : (k + 1) * block_size < inode_length fs m i = ground arith in
                let there = block_at-SameImage m' (k + 1) same reach' in
                let block =
                  inode_block-SameImage fs m m' same i (k + 1) file.inode_in
                    (omega (arith, file.size)) in
                let start : block_at fs m i (k + 1) + 0 ≡ block_at fs m' i (k + 1) =
                  omega (arith, there) in
                let b = m' (block_at fs m' i (k + 1)) in
                ground (
                  arith,
                  len,
                  wrap,
                  block,
                  file.blocks_in (k + 1) reach',
                  Copied_suc r m' n b
                      (rw start at
                        (read_byte m' n (k + 1) 0 same (ground arith) (omega arith) reach'))
                      (ground arith),
                  read_loop-Copied r (store m' (buffer + n) b) (n + 1) 1 (k + 1)
                      (block_at fs m' i (k + 1) + 1)
                      (SameImage-store fs m m' (buffer + n) b same (omega arith)) (omega arith)
                      (ground arith) (omega arith) reach' (omega (arith, there)) (omega arith),
                )
            | inr room ↦ ground (
              arith,
              len,
              wrap,
              Copied_suc r m' n (m' p) (rw here (read_byte m' n k loc same at (ground arith) reach))
                  (ground arith),
              read_loop-Copied r (store m' (buffer + n) (m' p)) (n + 1) (loc + 1) k (p + 1)
                  (SameImage-store fs m m' (buffer + n) (m' p) same (omega arith)) (omega arith)
                  (omega arith) (ground arith) reach (omega arith) (omega arith),
            )
          ]
        ]
      where
        len : inode_length fs m' i ≡ inode_length fs m i
        len = inode_length-SameImage fs m m' same i file.inode_in

        wrap : add32 n offset ≡ offset + n
        wrap = omega (arith, file.size)

-- Reading `n` bytes of a file from a position inside it puts the bytes of the file at the buffer,
-- those that are left where these are fewer, writes nothing else, and returns how many they are.
-- The buffer is not null and does not overlap the image, and `n` is positive and below 2 ^ 31.
pub read_data-file_bytes :
    (fs : Fs) (m : Memory) (i offset buffer n : ℕ)
    → IsFile fs m i
    → offset < inode_length fs m i
    → 0 < n
    → n < 2 ^ 31
    → buffer ≢ null
    → Apart buffer n fs.boot_block_ptr (image_end fs - fs.boot_block_ptr)
    → let count = left fs m i n offset in
      read_data fs m i offset buffer n
      ≡ (write_bytes m buffer (file_bytes fs m i offset count), pos count)
unfolding read_data
read_data-file_bytes fs m i offset buffer n file inside some_bytes small real out =
    let block_in = file.blocks_in (offset / block_size) (omega arith) in
    let to : buffer + 0 ≡ buffer = omega arith in
    let from : offset + 0 ≡ offset = omega arith in
    let total : 0 + left fs m i n offset ≡ left fs m i n offset = omega arith in
    let loop =
      read_loop-Copied fs m i offset buffer file n m 0 (offset % block_size) (offset / block_size)
        (block_at fs m i (offset / block_size) + offset % block_size) (λ a lo hi. refl)
        (omega arith) (omega arith) (omega arith) (omega arith) refl (omega arith) in
    let copied = rw (to, from, total) at loop in ground (arith, block_in, file.inode_in, copied)

-- At or behind the end of the file, where the inode names a block of the image, the read returns 0
-- and writes nothing.
pub read_data-end :
    (fs : Fs) (m : Memory) (i offset buffer n : ℕ)
    → i < fs.inodes
    → inode_block fs m i (offset / block_size) < fs.data_blocks
    → inode_length fs m i ≤ offset
    → buffer ≢ null
    → read_data fs m i offset buffer n ≡ (m, pos 0)
unfolding read_data
read_data-end fs m i offset buffer n inode_in block_in behind real = ground arith

-- A read through an inode that is not in the table, or to a null buffer, fails and writes nothing.
pub read_data_fails :
    (fs : Fs) (m : Memory) (i offset buffer n : ℕ)
    → (fs.inodes ≤ i) ⊎ (buffer ≡ null)
    → read_data fs m i offset buffer n ≡ (m, fail)
unfolding read_data
read_data_fails fs m i offset buffer n bad = ground arith

-- The bytes of a file in two memories with the same image.
pub file_bytes-SameImage :
    (fs : Fs) (m m' : Memory) (i p n : ℕ)
    → IsFile fs m i
    → SameImage fs m m'
    → p + n ≤ inode_length fs m i
    → file_bytes fs m' i p n ≡ file_bytes fs m i p n
unfolding file_bytes
file_bytes-SameImage fs m m' i p zero file same inside = refl
file_bytes-SameImage fs m m' i p (suc n) file same inside =
    let k = p / block_size in
    let reach : k * block_size < inode_length fs m i = omega arith in
    let block = block_at-SameImage fs m i p 0 file m' k same reach in
    let byte : m' (block_at fs m' i k + p % block_size) ≡ file_byte fs m i p =
      ap (λ (b : ℕ). m' (b + p % block_size)) block
      ∙ same (block_at fs m i k + p % block_size) (omega arith)
          (omega (arith, file.blocks_in k reach)) in
    rw (byte, file_bytes-SameImage fs m m' i (p + 1) n file same (omega arith)) refl

pub file_byte-SameImage :
    (fs : Fs) (m m' : Memory) (i p : ℕ)
    → IsFile fs m i
    → SameImage fs m m'
    → p < inode_length fs m i
    → file_byte fs m' i p ≡ file_byte fs m i p
unfolding file_bytes
file_byte-SameImage fs m m' i p file same inside =
    ap (λ (bs : List ℕ). get_or bs 0 0) (file_bytes-SameImage fs m m' i p 1 file same (omega arith))

pub IsFile-SameImage :
    (fs : Fs) (m m' : Memory) (i : ℕ) → IsFile fs m i → SameImage fs m m' → IsFile fs m' i
IsFile-SameImage fs m m' i file same =
    let size = inode_length-SameImage fs m m' same i file.inode_in in
    record {
      inode_in = file.inode_in;
      size = rw size file.size;
      blocks_in = λ k h.
          let reach : k * block_size < inode_length fs m i = rw size at h in
          rw (inode_block-SameImage fs m m' same i k file.inode_in (omega (arith, file.size)))
            (file.blocks_in k reach);
    }
