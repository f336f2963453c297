-- ===== src/Links/Init.antt =====
-- Creation and destruction of the file system with links (p1/fs/operations.c, p1/fs/state.c).
pub mod Fresh
use mbroker_tfs.Base.{
  ℕ, Bool, true, false, ◌&&◌, ◌||◌, Option, none, some, List, [], Array, ◌==◌, if◌then◌else◌,
}
use mbroker_tfs.Tfs.State.{free, Params, OpenFile, bytes}
use mbroker_tfs.Tfs.Init.{is_root}
use mbroker_tfs.Links.State.{
  t_directory, Inode, Held, inode_table_lock, dblock_lock, dir_lock, open_file_table_mutex, Cmd,
  done, panic, fault, pure, ◌>>=◌, is_held,
}
use mbroker_tfs.Links.Inodes.{inode_create}

-- What `malloc` gives: which of the tables could be allocated, and what the memory holds.
pub record Memory : Type 0 where
  pub inode_table_ok : Bool
  pub others_ok : Bool
  pub ftable_locks_ok : Bool
  pub inodes : Array Inode
  pub blocks : Array (List ℕ)
  pub open_files : Array OpenFile

abbrev pub tfs_default_params : Params
tfs_default_params = record {
  max_inode_count = 64;
  max_block_count = 1024;
  max_open_files_count = 16;
  block_size = 1024;
}

-- The parameters are overwritten before the first test. The allocation of `ftable_locks` is not tested:
-- the loop over its locks would write to NULL.
unfoldable pub state_init : Memory → Params → Cmd Bool
state_init m params s l =
    if s.mounted
    then done false (record s { fs_params = params }) l
    else if m.inode_table_ok && m.others_ok
    then if m.ftable_locks_ok || params.max_open_files_count == 0
      then done true
          (record {
            fs_params = params;
            mounted = true;
            inode_table = m.inodes;
            freeinode_ts = λ _. free;
            fs_data = λ b. bytes (m.blocks b);
            free_blocks = λ _. free;
            open_file_table = m.open_files;
            free_open_file_entries = λ _. free;
          })
          []
      else fault
    else done false (record s { fs_params = params; mounted = m.inode_table_ok }) l

-- Destroying a mutex that is held fails, and `mutex_kill` then ends the program. Without the tables the
-- locks to be destroyed are wild.
abbrev pub some_mutex_held : Held → Bool
some_mutex_held l =
    is_held open_file_table_mutex l
    || is_held dblock_lock l
    || is_held inode_table_lock l
    || is_held dir_lock l

unfoldable pub state_destroy : Cmd Bool
state_destroy s l =
    if s.mounted
    then if some_mutex_held l then panic else done true (record s { mounted = false }) []
    else fault

-- The results of the calls are 0 (`true`) or -1.
unfoldable pub tfs_init : Memory → Option Params → Cmd Bool
unfolding state_init
tfs_init m params = do
  ready ← state_init m (elim params [ none ↦ tfs_default_params | some p ↦ p ])
  if ready then (do pure (is_root (← inode_create t_directory))) else pure false

unfoldable pub tfs_destroy : Cmd Bool
unfolding state_destroy
tfs_destroy = do (if (← state_destroy) then pure true else pure false)
