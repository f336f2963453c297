-- ===== src/Links/ReadWrite.antt =====
-- Writing to and reading from an open file under its locks (p1/fs/operations.c).
pub mod Steps
pub mod Read
pub mod Changes
pub mod Written
pub mod Write
use mbroker_tfs.Base.{
  ℕ, ◌+◌, ◌||◌, Option, none, some, List, [], length, take, drop, update, memcpy_at, ltb, ◌==◌,
  if◌then◌else◌,
}
use mbroker_tfs.Tfs.State.{OpenFile, bytes}
use mbroker_tfs.Tfs.ReadWrite.{clamp_write, clamp_read}
use mbroker_tfs.Links.State.{
  Inode, Cmd, done, fault, pure, ◌>>=◌, ◌>>◌, gets, reading, writing, inode_lock, ftable_lock, lock,
  unlock, inode_get, put_inode, data_block_alloc, data_block_get, bytes_at, put_block,
}
use mbroker_tfs.Links.OpenFiles.{get_open_file_entry}

-- The end of both calls
pub unlock_file : ℕ → ℕ → Cmd (Unit {0})
unfolding unlock
unlock_file h i = do unlock (ftable_lock h); unlock (inode_lock i)

abbrev pub put_open_file : ℕ → OpenFile → Cmd (Unit {0})
put_open_file h f s l = done tt (record s { open_file_table = update s.open_file_table h f }) l

-- The inode whose block is to be written, after an allocation if the file was empty
pub allocated : ℕ → Inode → Option ℕ → Cmd (Option Inode)
allocated i n none = pure none
allocated i n (some b) = do
  put_inode i (record n { i_data_block = some b })
  pure (some (record n { i_data_block = some b }))

pub block_to_write : ℕ → Inode → Cmd (Option Inode)
unfolding allocated
block_to_write i n =
    if n.i_size == 0 then (do allocated i n (← data_block_alloc)) else pure (some n)

-- `memcpy(block + offset, buffer, n)`. Reading past the buffer, or writing past the block, faults.
pub copy_in : ℕ → ℕ → List ℕ → ℕ → Cmd (Unit {0})
copy_in b offset buffer n = do
  old ← bytes_at b
  if ltb (length buffer) n || ltb (length old) (offset + n)
      then (λ s l. fault)
      else put_block b (bytes (memcpy_at offset (take n buffer) old))

pub advance_write : ℕ → OpenFile → Inode → ℕ → Cmd (Unit {0})
advance_write h file n count = do
  put_open_file h (record file { of_offset = file.of_offset + count })
  if ltb n.i_size (file.of_offset + count)
      then put_inode file.of_inumber (record n { i_size = file.of_offset + count })
      else pure tt

pub write_block : ℕ → OpenFile → List ℕ → ℕ → Option Inode → Cmd (Option ℕ)
unfolding unlock_file copy_in advance_write
write_block h file buffer count none = do unlock_file h file.of_inumber; pure none
write_block h file buffer count (some n) = do
  b ← data_block_get n.i_data_block
  copy_in b file.of_offset buffer count
  advance_write h file n count
  unlock_file h file.of_inumber
  pure (some count)

-- If the handle is not open, `tfs_write` returns with its lock held.
unfoldable pub write_open : List ℕ → ℕ → Option (ℕ × OpenFile) → Cmd (Option ℕ)
unfolding block_to_write write_block unlock_file lock
write_open buffer to_write none = pure none
write_open buffer to_write (some (h, file)) = do
  n ← inode_get file.of_inumber
  lock (inode_lock file.of_inumber) writing
  count ← gets (λ s. clamp_write s.fs_params.block_size file.of_offset to_write)
  if ltb 0 count
      then (do write_block h file buffer count (← block_to_write file.of_inumber n))
      else (do unlock_file h file.of_inumber; pure (some count))

-- `ftable_locks[fhandle]` with a negative index faults.
unfoldable pub tfs_write : Option ℕ → List ℕ → ℕ → Cmd (Option ℕ)
unfolding write_open lock
tfs_write none buffer to_write = λ s l. fault
tfs_write (some h) buffer to_write = do
  lock (ftable_lock h) reading
  write_open buffer to_write (← get_open_file_entry (some h))

-- `memcpy(buffer, block + offset, n)`. Reading past the block faults.
pub copy_out : ℕ → ℕ → ℕ → Cmd (List ℕ)
copy_out b offset n = do
  xs ← bytes_at b
  if ltb (length xs) (offset + n) then (λ s l. fault) else pure (take n (drop offset xs))

pub read_block : ℕ → OpenFile → ℕ → Inode → Cmd (List ℕ)
unfolding copy_out
read_block h file count n = do
  b ← data_block_get n.i_data_block
  out ← copy_out b file.of_offset count
  put_open_file h (record file { of_offset = file.of_offset + count })
  pure out

-- The result is what is copied to the buffer; its length is the number that is returned. If the handle is
-- not open, `tfs_read` returns with its lock held.
unfoldable pub read_open : ℕ → Option (ℕ × OpenFile) → Cmd (Option (List ℕ))
unfolding read_block unlock_file lock
read_open len none = pure none
read_open len (some (h, file)) = do
  n ← inode_get file.of_inumber
  lock (inode_lock file.of_inumber) reading
  let count = clamp_read n.i_size file.of_offset len
  if ltb 0 count
      then (do out ← read_block h file count n; unlock_file h file.of_inumber; pure (some out))
      else (do unlock_file h file.of_inumber; pure (some []))

unfoldable pub tfs_read : Option ℕ → ℕ → Cmd (Option (List ℕ))
unfolding read_open lock
tfs_read none len = λ s l. fault
tfs_read (some h) len = do
  lock (ftable_lock h) reading
  read_open len (← get_open_file_entry (some h))
