-- ===== src/Tfs/ReadWrite.antt =====
-- Writing to and reading from an open file (p2/fs/operations.c).
pub mod Steps
pub mod Write
pub mod Read
pub mod RoundTrip
use mbroker_tfs.Base.{
  ℕ, ◌+◌, ◌-◌, ◌%◌, ◌^◌, ◌||◌, Option, none, some, List, [], length, take, drop, update, memcpy_at,
  ltb, ◌==◌, if◌then◌else◌,
}
use mbroker_tfs.Tfs.State.{
  Inode, OpenFile, bytes, Tfs, Cmd, done, panic, fault, pure, ◌>>=◌, ◌>>◌, gets, inode_get,
  put_inode, data_block_alloc, data_block_get, bytes_at, put_block,
}
use mbroker_tfs.Tfs.OpenFiles.{get_open_file_entry}

abbrev pub size_mod : ℕ
size_mod = 2 ^ 64

-- How many bytes to write at an offset, in `size_t` arithmetic
abbrev pub clamp_write : ℕ → ℕ → ℕ → ℕ
clamp_write block_size offset n =
    if ltb block_size ((n + offset) % size_mod)
    then (block_size + size_mod - offset) % size_mod
    else n

-- The inode whose block is to be written, after an allocation if the file was empty
allocated : ℕ → Inode → Option ℕ → Cmd (Option Inode)
allocated i n none = pure none
allocated i n (some b) = do
  put_inode i (record n { i_data_block = some b })
  pure (some (record n { i_data_block = some b }))

block_to_write : ℕ → Inode → Cmd (Option Inode)
unfolding allocated
block_to_write i n =
    if n.i_size == 0 then (do allocated i n (← data_block_alloc)) else pure (some n)

abbrev pub put_open_file : ℕ → OpenFile → Cmd (Unit {0})
put_open_file h f s = done tt (record s { open_file_table = update s.open_file_table h f })

-- `memcpy(block + offset, buffer, n)`. Reading past the buffer, or writing past the block, faults.
copy_in : ℕ → ℕ → List ℕ → ℕ → Cmd (Unit {0})
copy_in b offset buffer n = do
  old ← bytes_at b
  if ltb (length buffer) n || ltb (length old) (offset + n)
      then (λ s. fault)
      else put_block b (bytes (memcpy_at offset (take n buffer) old))

-- `of_offset += n; if (of_offset > i_size) i_size = of_offset;`
advance_write : ℕ → OpenFile → Inode → ℕ → Cmd (Unit {0})
advance_write h file n count = do
  put_open_file h (record file { of_offset = file.of_offset + count })
  if ltb n.i_size (file.of_offset + count)
      then put_inode file.of_inumber (record n { i_size = file.of_offset + count })
      else pure tt

pub write_block : ℕ → OpenFile → List ℕ → ℕ → Option Inode → Cmd (Option ℕ)
unfolding copy_in advance_write
write_block h file buffer count none = pure none
write_block h file buffer count (some n) = do
  b ← data_block_get n.i_data_block
  copy_in b file.of_offset buffer count
  advance_write h file n count
  pure (some count)

write_open : List ℕ → ℕ → Option (ℕ × OpenFile) → Cmd (Option ℕ)
unfolding block_to_write write_block
write_open buffer to_write none = pure none
write_open buffer to_write (some (h, file)) = do
  n ← inode_get file.of_inumber
  count ← gets (λ s. clamp_write s.fs_params.block_size file.of_offset to_write)
  if ltb 0 count
      then (do write_block h file buffer count (← block_to_write file.of_inumber n))
      else pure (some count)

unfoldable pub tfs_write : Option ℕ → List ℕ → ℕ → Cmd (Option ℕ)
unfolding write_open
tfs_write h buffer to_write = do write_open buffer to_write (← get_open_file_entry h)

-- How many bytes to read: `i_size - of_offset` in `size_t` arithmetic, at most `len`
abbrev pub clamp_read : ℕ → ℕ → ℕ → ℕ
clamp_read size offset len =
    let n = (size + size_mod - offset) % size_mod in if ltb len n then len else n

-- `memcpy(buffer, block + offset, n)`. Reading past the block faults.
copy_out : ℕ → ℕ → ℕ → Cmd (List ℕ)
copy_out b offset n = do
  xs ← bytes_at b
  if ltb (length xs) (offset + n) then (λ s. fault) else pure (take n (drop offset xs))

read_block : ℕ → OpenFile → ℕ → Inode → Cmd (List ℕ)
unfolding copy_out
read_block h file count n = do
  b ← data_block_get n.i_data_block
  out ← copy_out b file.of_offset count
  put_open_file h (record file { of_offset = file.of_offset + count })
  pure out

-- The result is what is copied to the buffer; its length is the number that is returned.
read_open : ℕ → Option (ℕ × OpenFile) → Cmd (Option (List ℕ))
unfolding read_block
read_open len none = pure none
read_open len (some (h, file)) = do
  n ← inode_get file.of_inumber
  let count = clamp_read n.i_size file.of_offset len
  if ltb 0 count then (do pure (some (← read_block h file count n))) else pure (some [])

unfoldable pub tfs_read : Option ℕ → ℕ → Cmd (Option (List ℕ))
unfolding read_open
tfs_read h len = do read_open len (← get_open_file_entry h)
