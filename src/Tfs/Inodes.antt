-- ===== src/Tfs/Inodes.antt =====
-- The inode table: creation and deletion (p2/fs/state.c).
use mbroker_tfs.Base.{
  ℕ, ◌*◌, Option, none, some, take, drop, Array, update, first, ltb, if◌then◌else◌,
}
use mbroker_tfs.Tfs.State.{
  InodeType, t_file, t_directory, free, taken, is_free, is_taken, DirEntry, Inode, Block, bytes,
  entries, Cmd, done, pure, ◌>>=◌, ◌>>◌, gets, modify, always_assert, max_file_name, dir_entry_size,
  valid_inumber, put_inode, data_block_alloc, data_block_free, data_block_get, put_block,
}

unfoldable pub inode_alloc : Cmd (Option ℕ)
inode_alloc s = elim (first (λ i. is_free (s.freeinode_ts i)) s.fs_params.max_inode_count) [
  | none ↦ done none s
  | some i ↦ done (some i) (record s { freeinode_ts = update s.freeinode_ts i taken })
]

-- `if (i_size > 0) data_block_free(i_data_block);`
free_contents : Inode → Cmd (Unit {0})
free_contents n = if ltb 0 n.i_size then data_block_free n.i_data_block else pure tt

unfoldable pub inode_delete : ℕ → Cmd (Unit {0})
unfolding free_contents
inode_delete i = do
  always_assert (← gets (valid_inumber i))
  always_assert (← gets (λ s. is_taken (s.freeinode_ts i)))
  n ← gets (λ s. s.inode_table i)
  free_contents n
  modify (λ s. record s { freeinode_ts = update s.freeinode_ts i free })

-- The block read as `dir_entry_t[]`, once the loop has set every `d_inumber` to -1. The names stay
-- what the memory held.
unfoldable pub empty_entries : Block → Array DirEntry
empty_entries (bytes xs) k = record {
  d_name = take max_file_name (drop (k * dir_entry_size) xs);
  d_inumber = none;
}
empty_entries (entries es) k = record (es k) { d_inumber = none }

unfoldable pub init_directory : ℕ → Inode → Option ℕ → Cmd (Option ℕ)
unfolding empty_entries
init_directory i n none = do
  put_inode i (record n { i_node_type = t_directory; i_size = 0; i_data_block = none })
  inode_delete i
  pure none
init_directory i n (some b) = do
  size ← gets (λ s. s.fs_params.block_size)
  put_inode i (record n { i_node_type = t_directory; i_size = size; i_data_block = some b })
  block ← data_block_get (some b)
  memory ← gets (λ s. s.fs_data block)
  put_block block (entries (empty_entries memory))
  pure (some i)

unfoldable pub init_inode : InodeType → Option ℕ → Cmd (Option ℕ)
unfolding init_directory
init_inode type none = pure none
init_inode t_directory (some i) = do
  n ← gets (λ s. s.inode_table i)
  init_directory i n (← data_block_alloc)
init_inode t_file (some i) = do
  put_inode i (record { i_node_type = t_file; i_size = 0; i_data_block = none })
  pure (some i)

unfoldable pub inode_create : InodeType → Cmd (Option ℕ)
unfolding init_inode
inode_create type = do init_inode type (← inode_alloc)
