-- ===== src/Links/Names.antt =====
-- Making and removing links (p1/fs/operations.c).
--
-- A name that is `none` is NULL; its `link_name + 1` is read by `add_dir_entry`, and so faults.
pub mod Link
pub mod Remove
pub mod Unlink
pub mod Make
pub mod Pointed
pub mod Entered
pub mod SymLink
use mbroker_tfs.Base.{
  ℕ, ◌+◌, ◌-◌, Bool, true, false, Option, none, some, List, [], ◌∷◌, ◌++◌, CString, c_str, strlen,
  drop, length, memcpy_at, ltb, ◌==◌, if◌then◌else◌,
}
use mbroker_tfs.Tfs.State.{root_dir_inum, bytes}
use mbroker_tfs.Tfs.Open.{path}
use mbroker_tfs.Links.State.{
  InodeType, t_file, t_directory, t_symlink, Inode, Fs, Cmd, Run, done, panic, fault, deadlock,
  looping, pure, ◌>>=◌, ◌>>◌, gets, always_assert, reading, writing, inode_lock, lock, unlock,
  inode_get, put_inode, data_block_get, bytes_at, put_block,
}
use mbroker_tfs.Links.Inodes.{inode_create, inode_delete}
use mbroker_tfs.Links.Dir.{is_directory, is_symlink, add_dir_entry, clear_dir_entry}
use mbroker_tfs.Links.OpenFiles.{file_is_open}
use mbroker_tfs.Links.Open.{tfs_lookup}

-- `add_dir_entry(dir, link_name + 1, inumber)`
pub add_name : Inode → Option CString → ℕ → Cmd Bool
add_name root none i = λ s l. fault
add_name root (some name) i = add_dir_entry root (drop 1 name) i

-- `strcpy(data, target)`. Writing past the block faults.
unfoldable pub copy_target : ℕ → Option CString → Cmd (Unit {0})
copy_target b none = λ s l. fault
copy_target b (some target) = do
  old ← bytes_at b
  if ltb (strlen target) (length old)
      then put_block b (bytes (memcpy_at 0 (c_str target ++ (0 ∷ [])) old))
      else (λ s l. fault)

-- `inode_create` returned the number of the link.
pub sym_link_created : Option CString → Option CString → Inode → Option ℕ → Cmd Bool
unfolding add_name copy_target lock unlock
sym_link_created target link_name root none = pure false
sym_link_created target link_name root (some i) = do
  lock (inode_lock i) writing
  n ← inode_get i
  b ← data_block_get n.i_data_block
  copy_target b target
  added ← add_name root link_name i
  if added
      then (do unlock (inode_lock i); pure true)
      else (do inode_delete i; unlock (inode_lock i); pure false)

-- The results of the calls are 0 (`true`) or -1.
unfoldable pub tfs_sym_link : Option CString → Option CString → Cmd Bool
unfolding sym_link_created
tfs_sym_link target link_name = do
  root ← inode_get root_dir_inum
  sym_link_created target link_name root (← inode_create t_symlink)

-- `tfs_lookup` returned the number of the target.
pub link_fails : ℕ → Cmd Bool
unfolding unlock
link_fails i = do unlock (inode_lock i); unlock (inode_lock root_dir_inum); pure false

pub link_found : Option CString → Inode → Option ℕ → Cmd Bool
unfolding add_name link_fails lock unlock
link_found link_name root none = do unlock (inode_lock root_dir_inum); pure false
link_found link_name root (some i) = do
  lock (inode_lock i) writing
  n ← inode_get i
  if is_symlink n.i_node_type then link_fails i else (do
    added ← add_name root link_name i
    if added
        then (do
          put_inode i (record n { i_hard_links = n.i_hard_links + 1 })
          unlock (inode_lock i)
          unlock (inode_lock root_dir_inum)
          pure true)
        else link_fails i)

unfoldable pub tfs_link : Option CString → Option CString → Cmd Bool
unfolding link_found lock unlock
tfs_link target link_name = do
  root ← inode_get root_dir_inum
  lock (inode_lock root_dir_inum) reading
  link_found link_name root (← tfs_lookup target root)

-- `if (--i_hard_links == 0) inode_delete(target_inumber);`. A count of 0, which would become -1, is none
-- that a valid file system has.
pub drop_link : ℕ → Inode → Cmd (Unit {0})
drop_link i n = do
  put_inode i (record n { i_hard_links = n.i_hard_links - 1 })
  if n.i_hard_links == 1 then inode_delete i else pure tt

pub unlink_entry : CString → Inode → ℕ → Cmd Bool
unfolding unlock
unlink_entry name root i = do
  cleared ← clear_dir_entry root (drop 1 name)
  always_assert cleared
  unlock (inode_lock i)
  unlock (inode_lock root_dir_inum)
  pure true

pub unlink_found : CString → Inode → Option ℕ → Cmd Bool
unfolding link_fails drop_link unlink_entry lock unlock
unlink_found name root none = do unlock (inode_lock root_dir_inum); pure false
unlink_found name root (some i) = do
  is_open ← file_is_open i
  lock (inode_lock i) writing
  n ← inode_get i
  if is_directory n.i_node_type
      then link_fails i
      else if is_symlink n.i_node_type
      then (do inode_delete i; unlink_entry name root i)
      else if is_open
      then link_fails i
      else (do drop_link i n; unlink_entry name root i)

unfoldable pub tfs_unlink : Option CString → Cmd Bool
unfolding unlink_found lock unlock
tfs_unlink target = do
  root ← inode_get root_dir_inum
  lock (inode_lock root_dir_inum) writing
  unlink_found (path target) root (← tfs_lookup target root)
