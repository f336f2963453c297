-- ===== src/Links/Open.antt =====
-- Opening files through symbolic links, and closing (p1/fs/operations.c).
pub mod Handles
pub mod Resolve
pub mod Rounds
pub mod NewHandle
pub mod Existing
pub mod Created
pub mod Result
pub mod Leak
use mbroker_tfs.Base.{
  ℕ, zero, suc, Bool, ◌&&◌, Option, none, some, CString, drop, ltb, if◌then◌else◌,
}
use mbroker_tfs.Tfs.State.{root_dir_inum}
use mbroker_tfs.Tfs.Open.{path, valid_pathname, has_flag, tfs_o_creat, tfs_o_trunc, tfs_o_append}
use mbroker_tfs.Links.State.{
  t_file, Inode, Cmd, looping, pure, ◌>>=◌, ◌>>◌, writing, inode_lock, lock, unlock, inode_get,
  put_inode, data_block_free,
}
use mbroker_tfs.Links.Inodes.{inode_create, inode_delete}
use mbroker_tfs.Links.Dir.{is_directory, is_symlink, fetch_file, get_symlink_inumber, add_dir_entry}
use mbroker_tfs.Links.OpenFiles.{add_to_open_file_table, close_entry}

unfoldable pub tfs_lookup : Option CString → Inode → Cmd (Option ℕ)
unfolding valid_pathname
tfs_lookup name root =
    if valid_pathname name && is_directory root.i_node_type
    then fetch_file (path name) root
    else pure none

-- The loop `while (inode->i_node_type == T_SYMLINK)`, for at most `fuel` rounds: the number of the file
-- that is not a symbolic link, or -1 where a name leads nowhere.
pub resolve : ℕ → Inode → ℕ → Cmd (Option ℕ)
resolve zero root i = λ s l. looping
resolve (suc fuel) root i =
    let onward = λ (j : ℕ). resolve fuel root j in
    do
      n ← inode_get i
      if is_symlink n.i_node_type
          then (do
            next ← get_symlink_inumber i root
            elim next [ none ↦ pure none | some j ↦ onward j ])
          else pure (some i)

-- `if (mode & TFS_O_TRUNC) if (i_size > 0) { data_block_free(i_data_block); i_size = 0; }`
pub truncate : ℕ → ℕ → Inode → Cmd (Unit {0})
truncate mode i n =
    if has_flag mode tfs_o_trunc && ltb 0 n.i_size
    then (do data_block_free n.i_data_block; put_inode i (record n { i_size = 0 }))
    else pure tt

-- The offset, or -1 for a directory
pub open_resolved : ℕ → ℕ → Cmd (Option ℕ)
unfolding truncate lock unlock
open_resolved mode i = do
  lock (inode_lock i) writing
  n ← inode_get i
  if is_directory n.i_node_type then (do unlock (inode_lock i); pure none) else (do
    truncate mode i n
    n ← inode_get i
    unlock (inode_lock i)
    pure (some (if has_flag mode tfs_o_append then n.i_size else 0)))

-- The end of `tfs_open`, with the file's number and the offset
pub open_at : ℕ → ℕ → Cmd (Option ℕ)
unfolding unlock
open_at i offset = do h ← add_to_open_file_table i offset; unlock (inode_lock root_dir_inum); pure h

pub open_fails : Cmd (Option ℕ)
unfolding unlock
open_fails = do unlock (inode_lock root_dir_inum); pure none

pub open_existing : ℕ → ℕ → Cmd (Option ℕ)
unfolding open_resolved open_at open_fails
open_existing mode i = do
  offset ← open_resolved mode i
  elim offset [ none ↦ open_fails | some k ↦ open_at i k ]

-- The file is new: `inode_create` returned its number.
pub open_created : CString → Inode → Option ℕ → Cmd (Option ℕ)
unfolding open_at open_fails
open_created name root none = open_fails
open_created name root (some i) = do
  added ← add_dir_entry root (drop 1 name) i
  if added then open_at i 0 else (do inode_delete i; open_fails)

pub open_found : ℕ → CString → ℕ → Inode → Option ℕ → Cmd (Option ℕ)
unfolding resolve open_existing open_created open_fails
open_found fuel name mode root (some i) = do
  found ← resolve fuel root i
  elim found [ none ↦ open_fails | some j ↦ open_existing mode j ]
open_found fuel name mode root none =
    if has_flag mode tfs_o_creat
    then (do open_created name root (← inode_create t_file))
    else open_fails

-- `fuel` bounds the rounds of the loop over symbolic links.
unfoldable pub tfs_open : ℕ → Option CString → ℕ → Cmd (Option ℕ)
unfolding open_found lock unlock
tfs_open fuel name mode =
    if valid_pathname name
    then (do
      root ← inode_get root_dir_inum
      lock (inode_lock root_dir_inum) writing
      open_found fuel (path name) mode root (← tfs_lookup name root))
    else pure none

unfoldable pub tfs_close : Option ℕ → Cmd Bool
tfs_close h = close_entry h
