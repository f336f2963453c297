-- ===== src/Tfs/Unlink.antt =====
-- Removing a file (p2/fs/operations.c).
pub mod Remove
use mbroker_tfs.Base.{ℕ, Bool, false, Option, none, some, CString, if◌then◌else◌}
use mbroker_tfs.Tfs.State.{
  Inode, Tfs, Cmd, done, panic, fault, pure, ◌>>=◌, ◌>>◌, root_dir_inum, inode_get,
}
use mbroker_tfs.Tfs.Inodes.{inode_delete}
use mbroker_tfs.Tfs.Dir.{clear_dir_entry}
use mbroker_tfs.Tfs.Open.{rest, path, valid_pathname, tfs_lookup}

unlink_found : CString → Inode → Option ℕ → Cmd Bool
unlink_found name root none = pure false
unlink_found name root (some i) = do inode_delete i; clear_dir_entry root name

unfoldable pub tfs_unlink : Option CString → Cmd Bool
unfolding unlink_found
tfs_unlink name =
    if valid_pathname name
    then (do
      root ← inode_get root_dir_inum
      unlink_found (rest (path name)) root (← tfs_lookup name root))
    else pure false
