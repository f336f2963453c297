-- ===== src/Links/Dir.antt =====
-- The entries of the root directory, and the targets of symbolic links (p1/fs/state.c).
use mbroker_tfs.Base.{
  ℕ, Bool, true, false, ◌&&◌, Option, none, some, List, zero, suc, Array, update, drop, length,
  CString, strlen, strncmp_eq, ltb, if◌then◌else◌,
}
use mbroker_tfs.Tfs.State.{DirEntry, entries, max_file_name}
use mbroker_tfs.Tfs.Dir.{is_empty, find_entry, find_name, cleared_entry, fill_entry, valid_name}
use mbroker_tfs.Links.State.{
  InodeType, t_file, t_directory, t_symlink, Inode, Cmd, fault, pure, ◌>>=◌, ◌>>◌, gets,
  always_assert, max_dir_entries, writing, dir_lock, lock, unlock, inode_get, data_block_get,
  bytes_at, entries_at, put_block,
}

abbrev pub is_directory : InodeType → Bool
is_directory t_directory = true
is_directory t_file = false
is_directory t_symlink = false

abbrev pub is_symlink : InodeType → Bool
is_symlink t_directory = false
is_symlink t_file = false
is_symlink t_symlink = true

-- If `inode` is no directory, the function returns with `dir_lock` held.
unfoldable pub find_in_dir : Inode → CString → Cmd (Option ℕ)
unfolding lock unlock
find_in_dir dir name = do
  lock dir_lock writing
  if is_directory dir.i_node_type
      then (do
        b ← data_block_get dir.i_data_block
        es ← entries_at b
        n ← gets max_dir_entries
        unlock dir_lock
        pure (elim (find_entry es name n) [ none ↦ none | some k ↦ (es k).d_inumber ]))
      else pure none

-- `name + 1`
unfoldable pub fetch_file : List ℕ → Inode → Cmd (Option ℕ)
fetch_file name root = find_in_dir root (drop 1 name)

-- The name that a symbolic link holds. A block with no NUL is read past its end.
unfoldable pub link_name_at : ℕ → Cmd (List ℕ)
link_name_at b = do xs ← bytes_at b; if ltb (strlen xs) (length xs) then pure xs else (λ s l. fault)

unfoldable pub get_symlink_inumber : ℕ → Inode → Cmd (Option ℕ)
unfolding link_name_at
get_symlink_inumber i root = do
  n ← inode_get i
  always_assert (is_symlink n.i_node_type)
  b ← data_block_get n.i_data_block
  name ← link_name_at b
  fetch_file name root

clear_at : ℕ → Array DirEntry → Option ℕ → Cmd Bool
clear_at b es none = pure false
clear_at b es (some k) = do put_block b (entries (update es k cleared_entry)); pure true

-- The result is 0 (`true`) or -1.
unfoldable pub clear_dir_entry : Inode → CString → Cmd Bool
unfolding clear_at lock unlock
clear_dir_entry dir name =
    if is_directory dir.i_node_type
    then (do
      lock dir_lock writing
      b ← data_block_get dir.i_data_block
      es ← entries_at b
      n ← gets max_dir_entries
      cleared ← clear_at b es (find_name es name n)
      unlock dir_lock
      pure cleared)
    else pure false

-- What the loop of `add_dir_entry` finds: the first empty entry, or that the name is there
pub data Place : Type 0 where
  exists full : Place
  at_index : ℕ → Place

abbrev pub place : Option ℕ → Place
place none = full
place (some k) = at_index k

abbrev pub is_none : Option ℕ → Bool
is_none none = true
is_none (some k) = false

-- The loop: `n` rounds from index `k`, with `index` found so far. An empty entry past the first one is
-- compared like all others.
unfoldable pub find_place : Array DirEntry → CString → Option ℕ → ℕ → ℕ → Place
find_place es name index zero k = place index
find_place es name index (suc n) k =
    let empty_here = find_place es name (some k) n (suc k) in
    let onward = find_place es name index n (suc k) in
    if is_empty (es k) && is_none index
    then empty_here
    else if strncmp_eq (es k).d_name name max_file_name
    then exists
    else onward

fill_place : CString → ℕ → ℕ → Array DirEntry → Place → Cmd Bool
fill_place name inumber b es exists = pure false
fill_place name inumber b es full = pure false
fill_place name inumber b es (at_index k) = do
  put_block b (entries (update es k (fill_entry (es k) name inumber)))
  pure true

unfoldable pub add_dir_entry : Inode → CString → ℕ → Cmd Bool
unfolding fill_place lock unlock
add_dir_entry dir name inumber =
    if valid_name name
    then (do
      lock dir_lock writing
      if is_directory dir.i_node_type
          then (do
            b ← data_block_get dir.i_data_block
            es ← entries_at b
            n ← gets max_dir_entries
            added ← fill_place name inumber b es (find_place es name none n 0)
            unlock dir_lock
            pure added)
          else (do unlock dir_lock; pure false))
    else pure false
