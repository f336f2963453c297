-- ===== src/Tfs/Init.antt =====
-- Creation and destruction of the file system (p2/fs/operations.c, p2/fs/state.c).
pub mod Fresh
use mbroker_tfs.Base.{
  ℕ, Bool, true, false, ◌&&◌, Option, none, some, List, Array, ◌==◌, if◌then◌else◌,
}
use mbroker_tfs.Tfs.State.{
  t_directory, free, Params, Inode, OpenFile, bytes, Tfs, Cmd, done, panic, fault, pure, ◌>>=◌,
  ◌>>◌, root_dir_inum,
}
use mbroker_tfs.Tfs.Inodes.{inode_create}

-- What `malloc` gives: whether the table of inodes and the other tables could be allocated, and what
-- the memory holds.
pub record Memory : Type 0 where
  pub inode_table_ok : Bool
  pub others_ok : Bool
  pub inodes : Array Inode
  pub blocks : Array (List ℕ)
  pub open_files : Array OpenFile

abbrev pub tfs_default_params : Params
tfs_default_params = record {
  max_inode_count = 64;
  max_block_count = 1024;
  max_open_files_count = 16;
  block_size = 1024;
}

-- The parameters are overwritten before the test.
unfoldable pub state_init : Memory → Params → Cmd Bool
state_init m params s =
    if s.mounted
    then done false (record s { fs_params = params })
    else if m.inode_table_ok && m.others_ok
    then done true (record {
      fs_params = params;
      mounted = true;
      inode_table = m.inodes;
      freeinode_ts = λ _. free;
      fs_data = λ b. bytes (m.blocks b);
      free_blocks = λ _. free;
      open_file_table = m.open_files;
      free_open_file_entries = λ _. free;
    })
    else done false (record s { fs_params = params; mounted = m.inode_table_ok })

unfoldable pub state_destroy : Cmd Bool
state_destroy s = done true (record s { mounted = false })

abbrev pub is_root : Option ℕ → Bool
is_root none = false
is_root (some i) = i == root_dir_inum

abbrev pub params_or_default : Option Params → Params
params_or_default none = tfs_default_params
params_or_default (some p) = p

-- The results of the calls are 0 (`true`) or -1, or a number or -1.
unfoldable pub tfs_init : Memory → Option Params → Cmd Bool
unfolding state_init
tfs_init m params = do
  ready ← state_init m (params_or_default params)
  if ready then (do pure (is_root (← inode_create t_directory))) else pure false

unfoldable pub tfs_destroy : Cmd Bool
unfolding state_destroy
tfs_destroy = do (if (← state_destroy) then pure true else pure false)
