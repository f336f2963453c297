-- ===== src/Tfs/Invariant.antt =====
-- What holds of the file system between calls.
use mbroker_tfs.Base.{
  ℕ, ◌^◌, ◌≤◌, ◌<◌, ◌≡◌, true, Option, none, some, List, [], Array, length, take, c_str, strlen,
}
use mbroker_tfs.Tfs.State.{
  t_file, t_directory, taken, DirEntry, Inode, Block, bytes, entries, OpenFile, Tfs, max_file_name,
  max_dir_entries,
}

-- A block read as entries, or as bytes
abbrev pub as_entries : Block → Array DirEntry
as_entries (bytes xs) k = record { d_name = []; d_inumber = none }
as_entries (entries es) k = es k

abbrev pub as_bytes : Block → List ℕ
as_bytes (bytes xs) = xs
as_bytes (entries es) = []

-- The entries of the root directory, whose block is number 0
abbrev pub dir : Tfs → Array DirEntry
dir s = as_entries (s.fs_data 0)

abbrev pub number : Option ℕ → ℕ
number none = 0
number (some b) = b

abbrev pub block_of : Inode → ℕ
block_of n = number n.i_data_block

-- The contents of file `i`
abbrev pub content : Tfs → ℕ → List ℕ
content s i = take (s.inode_table i).i_size (as_bytes (s.fs_data (block_of (s.inode_table i))))

-- Number `i` is in use by a file.
abbrev pub IsInUse : Tfs → ℕ → Type 0
IsInUse s i = (0 < i) × (i < s.fs_params.max_inode_count) × (s.freeinode_ts i ≡ taken)

-- Block `b` is in use, and is not the root directory's.
abbrev pub IsBlock : Tfs → ℕ → Type 0
IsBlock s b = (0 < b) × (b < s.fs_params.max_block_count) × (s.free_blocks b ≡ taken)

-- The inode is of a file whose block, if it is not empty, is in use.
abbrev pub IsFile : Tfs → Inode → Type 0
IsFile s n =
    (n.i_node_type ≡ t_file)
    × (n.i_size ≤ s.fs_params.block_size)
    × (0 < n.i_size → (n.i_data_block ≡ some (block_of n)) × IsBlock s (block_of n))

-- Inodes and blocks: the root directory has inode 0 and block 0, all other blocks hold bytes, and no
-- two files that are not empty share a block.
pub record IsStore (s : Tfs) : Type 0 where
  pub mounted : s.mounted ≡ true
  pub block_bound : s.fs_params.block_size < 2 ^ 63
  pub some_inode : 0 < s.fs_params.max_inode_count
  pub some_block : 0 < s.fs_params.max_block_count
  pub root_taken : s.freeinode_ts 0 ≡ taken
  pub root_type : (s.inode_table 0).i_node_type ≡ t_directory
  pub root_block : (s.inode_table 0).i_data_block ≡ some 0
  pub root_block_taken : s.free_blocks 0 ≡ taken
  pub root_entries : s.fs_data 0 ≡ entries (dir s)
  pub data_bytes :
      (b : ℕ)
      → 0 < b
      → (s.fs_data b ≡ bytes (as_bytes (s.fs_data b)))
        × (length (as_bytes (s.fs_data b)) ≡ s.fs_params.block_size)
  pub file : (i : ℕ) → IsInUse s i → IsFile s (s.inode_table i)
  pub apart :
      (i j : ℕ)
      → IsInUse s i
      → IsInUse s j
      → 0 < (s.inode_table i).i_size
      → 0 < (s.inode_table j).i_size
      → block_of (s.inode_table i) ≡ block_of (s.inode_table j)
      → i ≡ j

-- Entry `k` of the first `n` names the file `i`.
abbrev pub IsEntry : ℕ → Array DirEntry → ℕ → ℕ → Type 0
IsEntry n es k i = (k < n) × ((es k).d_inumber ≡ some i)

-- A directory: each entry is of a file, no two have one name or one file, and the name of an empty
-- entry is empty.
pub record IsDir (n : ℕ) (es : Array DirEntry) (InUse : ℕ → Type 0) : Type 0 where
  pub in_use : (k i : ℕ) → IsEntry n es k i → InUse i
  pub short : (k i : ℕ) → IsEntry n es k i → strlen (es k).d_name < max_file_name
  pub blank : (k : ℕ) → k < n → (es k).d_inumber ≡ none → c_str (es k).d_name ≡ []
  pub files_apart : (k l i : ℕ) → IsEntry n es k i → IsEntry n es l i → k ≡ l
  pub names_apart :
      (k l i j : ℕ)
      → IsEntry n es k i
      → IsEntry n es l j
      → c_str (es k).d_name ≡ c_str (es l).d_name
      → k ≡ l

-- Handle `h` is open.
abbrev pub IsHandle : Tfs → ℕ → Type 0
IsHandle s h = (h < s.fs_params.max_open_files_count) × (s.free_open_file_entries h ≡ taken)

-- Open files: each handle is of a file, at an offset within it.
pub record IsOpens (IsH : ℕ → Type 0) (table : Array OpenFile) (InUse : ℕ → Type 0)
    (inodes : Array Inode) : Type 0 where
  pub in_use : (h : ℕ) → IsH h → InUse (table h).of_inumber
  pub within : (h : ℕ) → IsH h → (table h).of_offset ≤ (inodes (table h).of_inumber).i_size

abbrev pub IsValid : Tfs → Type 0
IsValid s =
    IsStore s
    × IsDir (max_dir_entries s) (dir s) (IsInUse s)
    × IsOpens (IsHandle s) s.open_file_table (IsInUse s) s.inode_table
