-- ===== src/Tfs/Dir.antt =====
-- The entries of the root directory (p2/fs/state.c). Each function takes the directory's inode.
pub mod Lookup
use mbroker_tfs.Base.{
  ℕ, ◌+◌, ◌-◌, ◌<◌, Bool, true, false, not, ◌&&◌, ◌||◌, Option, none, some, [], ◌∷◌, replicate,
  Array, update, first, CString, strlen, strcmp_eq, strncmp_eq, strncpy, memcpy_at, ltb, ◌==◌,
  if◌then◌else◌,
}
use mbroker_tfs.Tfs.State.{
  InodeType, t_file, t_directory, DirEntry, Inode, Block, entries, Tfs, Cmd, done, panic, fault,
  pure, ◌>>=◌, ◌>>◌, gets, always_assert, max_file_name, max_dir_entries, data_block_get,
  entries_at, put_block,
}

abbrev pub is_directory : Inode → Bool
is_directory n = elim n.i_node_type [ t_directory ↦ true | t_file ↦ false ]

-- `d_inumber == -1`
abbrev pub is_empty : DirEntry → Bool
is_empty e = elim e.d_inumber [ none ↦ true | some i ↦ false ]

-- `d_inumber != -1 && strncmp(d_name, sub_name, MAX_FILE_NAME) == 0`
abbrev pub is_named : CString → DirEntry → Bool
is_named name e = not (is_empty e) && strncmp_eq e.d_name name max_file_name

-- The loop of `find_in_dir`
abbrev pub find_entry : Array DirEntry → CString → ℕ → Option ℕ
find_entry es name n = first (λ k. is_named name (es k)) n

unfoldable pub find_in_dir : Inode → CString → Cmd (Option ℕ)
find_in_dir dir name =
    if is_directory dir
    then (do
      b ← data_block_get dir.i_data_block
      es ← entries_at b
      n ← gets max_dir_entries
      pure (elim (find_entry es name n) [ none ↦ none | some k ↦ (es k).d_inumber ]))
    else pure none

-- The loop of `clear_dir_entry`, which does not look at `d_inumber`
abbrev pub find_name : Array DirEntry → CString → ℕ → Option ℕ
find_name es name n = first (λ k. strcmp_eq (es k).d_name name) n

-- `memset(d_name, 0, MAX_FILE_NAME)`
abbrev pub cleared_entry : DirEntry
cleared_entry = record { d_name = replicate max_file_name 0; d_inumber = none }

clear_at : ℕ → Array DirEntry → Option ℕ → Cmd Bool
clear_at b es none = pure false
clear_at b es (some k) = do put_block b (entries (update es k cleared_entry)); pure true

-- The result is 0 (`true`) or -1.
unfoldable pub clear_dir_entry : Inode → CString → Cmd Bool
unfolding clear_at
clear_dir_entry dir name =
    if is_directory dir
    then (do
      b ← data_block_get dir.i_data_block
      es ← entries_at b
      n ← gets max_dir_entries
      clear_at b es (find_name es name n))
    else pure false

-- `strncpy(d_name, sub_name, MAX_FILE_NAME - 1); d_name[MAX_FILE_NAME - 1] = '\0'`
abbrev pub fill_entry : DirEntry → CString → ℕ → DirEntry
fill_entry e name inumber = record {
  d_name = memcpy_at (max_file_name - 1) (0 ∷ []) (strncpy e.d_name name (max_file_name - 1));
  d_inumber = some inumber;
}

abbrev pub valid_name : CString → Bool
valid_name name = not (strlen name == 0 || ltb (max_file_name - 1) (strlen name))

fill_at : CString → ℕ → ℕ → Array DirEntry → Option ℕ → Cmd Bool
fill_at name inumber b es none = pure false
fill_at name inumber b es (some k) = do
  put_block b (entries (update es k (fill_entry (es k) name inumber)))
  pure true

unfoldable pub add_dir_entry : Inode → CString → ℕ → Cmd Bool
unfolding fill_at
add_dir_entry dir name inumber =
    if valid_name name
    then (if is_directory dir
        then (do
          b ← data_block_get dir.i_data_block
          es ← entries_at b
          n ← gets max_dir_entries
          fill_at name inumber b es (first (λ k. is_empty (es k)) n))
        else pure false)
    else pure false
