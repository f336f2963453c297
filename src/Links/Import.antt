-- ===== src/Links/Import.antt =====
-- Copying a file from the operating system (p1/fs/operations.c).
--
-- `source` is the file's contents, or `none` if `fopen` fails. `fread` returns as many of the bytes that are
-- left as are asked for. `closes` is whether `fclose` succeeds.
pub mod Copied
pub mod Result
use mbroker_tfs.Base.{
  ℕ, zero, suc, ◌+◌, Bool, false, Option, none, some, List, length, take, drop, CString, ◌==◌,
  if◌then◌else◌,
}
use mbroker_tfs.Tfs.Open.{tfs_o_creat, tfs_o_trunc}
use mbroker_tfs.Links.State.{Cmd, looping, pure, ◌>>=◌, ◌>>◌}
use mbroker_tfs.Links.Open.{tfs_open, tfs_close}
use mbroker_tfs.Links.ReadWrite.{tfs_write}

-- `sizeof(buffer) / sizeof(char) - 1`
abbrev pub chunk_size : ℕ
chunk_size = 127

-- How the loop ends: at the end of the file or with `break`, or with `return -1`
pub data CopyEnd : Type 0 where
  copied failed : CopyEnd

abbrev pub after_write : ℕ → Option ℕ → Cmd CopyEnd → Cmd CopyEnd
after_write n none onward = pure failed
after_write n (some k) onward = if k == n then onward else pure copied

-- The loop, for at most `fuel` rounds, on the bytes that are left
unfoldable pub copy_loop : ℕ → Option ℕ → List ℕ → Cmd CopyEnd
copy_loop zero h source = λ s l. looping
copy_loop (suc fuel) h source =
    let chunk = take chunk_size source in
    let onward = copy_loop fuel h (drop chunk_size source) in
    if length chunk == 0
    then pure copied
    else (do written ← tfs_write h chunk (length chunk); after_write (length chunk) written onward)

unfoldable pub copy_ended : Option ℕ → Bool → CopyEnd → Cmd Bool
copy_ended h closes failed = do tfs_close h; pure false
copy_ended h closes copied = do closed ← tfs_close h; if closed then pure closes else pure false

unfoldable pub copy_opened : List ℕ → Bool → Option ℕ → Cmd Bool
unfolding copy_loop copy_ended
copy_opened source closes none = pure false
copy_opened source closes (some h) = do
  copy_ended (some h) closes (← copy_loop (suc (length source)) (some h) source)

unfoldable pub tfs_copy_from_external_fs : ℕ → Option (List ℕ) → Bool → Option CString → Cmd Bool
unfolding copy_opened
tfs_copy_from_external_fs fuel none closes dest_path = pure false
tfs_copy_from_external_fs fuel (some source) closes dest_path = do
  copy_opened source closes (← tfs_open fuel dest_path (tfs_o_creat + tfs_o_trunc))
