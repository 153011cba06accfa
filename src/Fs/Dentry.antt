-- ===== src/Fs/Dentry.antt =====
-- The lookups of directory entries. `dentry` is the address of the caller's `directory_entry_t`.
use linux_kernel_os.Prelude.{
  ltb, leb, ◌==◌, if◌then◌else◌, ◌>>=◌, ℕ, zero, suc, ◌+◌, ◌-◌, Bool, not, ◌&&◌, ◌||◌, Option, some,
}
use linux_kernel_os.Prelude.Int.{ℤ, pos, fail, is_fail, add32, int32, is_zero}
use linux_kernel_os.Memory.{Memory, null, store}
use linux_kernel_os.Memory.Copy.{memcpy}
use linux_kernel_os.Strings.{strlen, strncmp, strncpy}
use linux_kernel_os.Fs.{
  dentry_size, dentry_max, max_name, file_rtc, file_dir, file_normal, Fs, dentry_at, file_type,
}

-- `memcpy(dentry, &boot_dentries[i], DENTRY_SIZE)` and the assignment to `fileName[32]`, the byte
-- behind the name, which adds 0 to it.
unfoldable pub copy_dentry : Fs → Memory → ℕ → ℕ → Memory
copy_dentry fs m dentry i =
    let m' = memcpy m dentry (dentry_at fs i) dentry_size in
    store m' (dentry + max_name) (0 + m' (dentry + max_name))

-- The first loop of `read_dentry_by_name`: how many characters stand before a space or the
-- terminator, with the rounds that are left; 33 where there are more than 32.
unfoldable pub name_length_loop : ℕ → Memory → ℕ → ℕ → ℕ
name_length_loop zero m name n = n
name_length_loop (suc k) m name n =
    let rest = name_length_loop k m name (n + 1) in
    if (m (name + n) == b' ') || (m (name + n) == 0) then n else rest

unfoldable pub name_length : Memory → ℕ → ℕ
unfolding name_length_loop
name_length m name = name_length_loop (max_name + 1) m name 0

-- Whether the entry `i` matches: its own length, cut to 32, and the comparison of all but the last
-- of the `n` characters.
unfoldable pub matches : Fs → Memory → ℕ → ℕ → ℕ → Option Bool
matches fs m name n i = do
  len ← strlen m (dentry_at fs i)
  let capped = if ltb max_name len then max_name else len
  some ((capped == n) && is_zero (strncmp m (dentry_at fs i) name (n - 1)))

-- The second loop, from entry `i`, with the rounds that are left.
unfoldable pub find_dentry_loop : ℕ → Fs → Memory → ℕ → ℕ → ℕ → ℕ → Option (Memory × ℤ)
unfolding matches
find_dentry_loop zero fs m name dentry n i = some (m, fail)
find_dentry_loop (suc k) fs m name dentry n i =
    let rest = find_dentry_loop k fs m name dentry n (i + 1) in
    do
      found ← matches fs m name n i
      if found then some (copy_dentry fs m dentry i, pos 0) else rest

unfoldable pub read_dentry_by_name : Fs → Memory → ℕ → ℕ → Option (Memory × ℤ)
read_dentry_by_name fs m name dentry =
    let n = name_length m name in
    if (name == null) || (dentry == null) || (n == 0) || ltb max_name n
    then some (m, fail)
    else find_dentry_loop dentry_max fs m name dentry n 0

unfoldable pub read_dentry_by_index : Fs → Memory → ℕ → ℕ → Memory × ℤ
unfolding copy_dentry
read_dentry_by_index fs m index dentry =
    let kind = file_type m (dentry_at fs index) in
    if leb dentry_max index
      || (dentry == null)
      || (not (kind == file_normal) && not (kind == file_rtc) && not (kind == file_dir))
      || leb fs.dentries index
    then (m, fail)
    else (copy_dentry fs m dentry index, pos 0)

-- `fs_read_directory`: the next entry's name into the buffer, 0 behind the last entry. It copies 32
-- characters at most, and does not look at `nbytes`.
unfoldable pub fs_read_directory : Fs → Memory → ℕ → ℕ → Option (Fs × Memory × ℤ)
unfolding read_dentry_by_index strncpy
fs_read_directory fs m dentry buf =
    if buf == null
    then some (fs, m, pos 0)
    else let (m', status) = read_dentry_by_index fs m fs.directory_read_count dentry in
      if is_fail status then some (record fs { directory_read_count = 0 }, m', pos 0) else do
        let fs' = record fs { directory_read_count = add32 fs.directory_read_count 1 }
        m'' ← strncpy m' buf dentry 32
        n ← strlen m'' buf
        some (fs', m'', int32 n)
