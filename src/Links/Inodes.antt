-- ===== src/Links/Inodes.antt =====
-- The inode table with links: creation and deletion (p1/fs/state.c).
use mbroker_tfs.Base.{ℕ, Bool, true, false, Option, none, some, update, first, ltb, if◌then◌else◌}
use mbroker_tfs.Tfs.State.{free, taken, is_free, is_taken, entries}
use mbroker_tfs.Tfs.Inodes.{empty_entries}
use mbroker_tfs.Links.State.{
  InodeType, t_file, t_directory, t_symlink, Inode, Cmd, done, pure, ◌>>=◌, ◌>>◌, gets, modify,
  always_assert, valid_inumber, writing, inode_table_lock, lock, unlock, put_inode,
  data_block_alloc, data_block_free, data_block_get, put_block,
}

unfoldable pub inode_alloc : Cmd (Option ℕ)
inode_alloc s l = elim (first (λ i. is_free (s.freeinode_ts i)) s.fs_params.max_inode_count) [
  | none ↦ done none s l
  | some i ↦ done (some i) (record s { freeinode_ts = update s.freeinode_ts i taken }) l
]

-- `if (i_size > 0) data_block_free(i_data_block);`
unfoldable pub free_contents : Inode → Cmd (Unit {0})
free_contents n = if ltb 0 n.i_size then data_block_free n.i_data_block else pure tt

unfoldable pub inode_delete : ℕ → Cmd (Unit {0})
unfolding free_contents lock unlock
inode_delete i = do
  always_assert (← gets (valid_inumber i))
  lock inode_table_lock writing
  always_assert (← gets (λ s. is_taken (s.freeinode_ts i)))
  n ← gets (λ s. s.inode_table i)
  free_contents n
  modify (λ s. record s { freeinode_ts = update s.freeinode_ts i free })
  unlock inode_table_lock

-- The result of `inode_create_aux` is 0 (`true`) or -1. `b` is what `data_block_alloc` returned.
pub give_block : ℕ → Inode → Option ℕ → Cmd Bool
give_block i n none = do
  put_inode i (record n { i_size = 0; i_data_block = none })
  inode_delete i
  pure false
give_block i n (some b) = do
  size ← gets (λ s. s.fs_params.block_size)
  put_inode i (record n { i_size = size; i_data_block = some b })
  pure true

unfoldable pub inode_create_aux : ℕ → Inode → Cmd Bool
unfolding give_block
inode_create_aux i n = do give_block i n (← data_block_alloc)

-- The block of a new directory: the loop sets every `d_inumber` to -1.
unfoldable pub clear_entries : ℕ → Cmd (Unit {0})
unfolding empty_entries
clear_entries i = do
  n ← gets (λ s. s.inode_table i)
  b ← data_block_get n.i_data_block
  memory ← gets (λ s. s.fs_data b)
  put_block b (entries (empty_entries memory))

abbrev pub new_symlink : Inode
new_symlink = record { i_node_type = t_symlink; i_size = 0; i_data_block = none; i_hard_links = 1 }

-- The cases of the `switch`; the result is whether the inode was made.
unfoldable pub init_inode : InodeType → ℕ → Cmd Bool
unfolding clear_entries
init_inode t_directory i = do
  n ← gets (λ s. s.inode_table i)
  put_inode i (record n { i_node_type = t_directory })
  made ← inode_create_aux i (record n { i_node_type = t_directory })
  if made then (do clear_entries i; pure true) else pure false
init_inode t_file i = do
  put_inode i (record { i_node_type = t_file; i_size = 0; i_data_block = none; i_hard_links = 1 })
  pure true
init_inode t_symlink i = do put_inode i new_symlink; inode_create_aux i new_symlink

-- `inode_alloc` returned `none` or `some i`.
pub create_inode : InodeType → Option ℕ → Cmd (Option ℕ)
unfolding init_inode lock unlock
create_inode type none = do unlock inode_table_lock; pure none
create_inode type (some i) = do
  made ← init_inode type i
  unlock inode_table_lock
  pure (if made then some i else none)

unfoldable pub inode_create : InodeType → Cmd (Option ℕ)
unfolding create_inode lock unlock
inode_create type = do lock inode_table_lock writing; create_inode type (← inode_alloc)
