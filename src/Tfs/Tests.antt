-- ===== src/Tfs/Tests.antt =====
-- Runs of the calls.
use mbroker_tfs.Base.{
  ℕ, ◌∷◌, [], ◌≡◌, refl, none, some, true, false, Option, List, replicate, CString, first, strlen,
  strncmp_eq, strcmp_eq, strncpy, memcpy_at,
}
use mbroker_tfs.Tfs.State.{
  Tfs, Run, Cmd, done, panic, fault, pure, ◌>>=◌, ◌>>◌, t_file, free, bytes, data_block_alloc,
  data_block_get, data_block_free, inode_get,
}
use mbroker_tfs.Tfs.Inodes.{inode_create, inode_delete, inode_alloc}
use mbroker_tfs.Tfs.Dir.{find_in_dir, add_dir_entry, clear_dir_entry}
use mbroker_tfs.Tfs.OpenFiles.{
  add_to_open_file_table, remove_from_open_file_table, get_open_file_entry,
}
use mbroker_tfs.Tfs.Init.{Memory, tfs_init}
use mbroker_tfs.Tfs.Open.{valid_pathname, tfs_lookup, tfs_open, tfs_close}
use mbroker_tfs.Tfs.ReadWrite.{tfs_write, tfs_read}
use mbroker_tfs.Tfs.Demo.{params}
use mbroker_tfs.Tfs.Unlink.{tfs_unlink}

abbrev pub unmounted : Tfs
unmounted = record {
  fs_params = record {
    max_inode_count = 0;
    max_block_count = 0;
    max_open_files_count = 0;
    block_size = 0;
  };
  mounted = false;
  inode_table = λ _. record { i_node_type = t_file; i_size = 0; i_data_block = none };
  freeinode_ts = λ _. free;
  fs_data = λ _. bytes [];
  free_blocks = λ _. free;
  open_file_table = λ _. record { of_inumber = 0; of_offset = 0 };
  free_open_file_entries = λ _. free;
}

abbrev pub zeroed : Memory
zeroed = record {
  inode_table_ok = true;
  others_ok = true;
  inodes = λ _. record { i_node_type = t_file; i_size = 0; i_data_block = none };
  blocks = λ _. replicate 88 0;
  open_files = λ _. record { of_inumber = 0; of_offset = 0 };
}

abbrev a : CString
a = b'/' ∷ b'a' ∷ []

abbrev result : Run (List ℕ) → List ℕ
result (done a s) = a
result panic = 777 ∷ []
result fault = 888 ∷ []

abbrev bytes_or : Option (List ℕ) → List ℕ
bytes_or none = 999 ∷ []
bytes_or (some xs) = xs

-- Write, append from a second handle, read from the start, remove.
session : Cmd (List ℕ)
unfolding tfs_init tfs_open tfs_close tfs_write tfs_read tfs_unlink inode_create inode_alloc
    inode_delete first data_block_alloc data_block_get data_block_free strlen strncmp_eq strcmp_eq
    strncpy memcpy_at find_in_dir add_dir_entry clear_dir_entry inode_get add_to_open_file_table
    remove_from_open_file_table get_open_file_entry
session = do
  tfs_init zeroed (some params)
  h ← tfs_open (some a) 1
  tfs_write h (5 ∷ 6 ∷ 7 ∷ []) 3
  k ← tfs_open (some a) 4
  tfs_write k (8 ∷ []) 1
  tfs_close h
  h ← tfs_open (some a) 0
  xs ← tfs_read h 10
  pure (bytes_or xs)

session_reads : result (session unmounted) ≡ 5 ∷ 6 ∷ 7 ∷ 8 ∷ []
unfolding session valid_pathname tfs_lookup
session_reads = refl
