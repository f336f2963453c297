-- ===== src/Links/Invariant.antt =====
-- What holds of the file system with links between calls.
use mbroker_tfs.Base.{
  ℕ, ◌^◌, ◌≤◌, ◌<◌, ◌≡◌, ◌≢◌, true, Option, none, some, List, [], Array, length, take, total, c_str,
  strlen, ◌==◌, if◌then◌else◌,
}
use mbroker_tfs.Tfs.State.{taken, DirEntry, bytes, entries, OpenFile, max_file_name}
use mbroker_tfs.Tfs.Invariant.{as_entries, as_bytes, number, IsEntry}
use mbroker_tfs.Links.State.{t_file, t_directory, t_symlink, Inode, Fs, max_dir_entries}

-- The entries of the root directory, whose block is number 0
abbrev pub dir : Fs → Array DirEntry
dir s = as_entries (s.fs_data 0)

abbrev pub block_of : Inode → ℕ
block_of n = number n.i_data_block

-- The contents of file `i`
abbrev pub content : Fs → ℕ → List ℕ
content s i = take (s.inode_table i).i_size (as_bytes (s.fs_data (block_of (s.inode_table i))))

-- Number `i` is in use by a file or a symbolic link.
abbrev pub IsInUse : Fs → ℕ → Type 0
IsInUse s i = (0 < i) × (i < s.fs_params.max_inode_count) × (s.freeinode_ts i ≡ taken)

-- Block `b` is in use, and is not the root directory's.
abbrev pub IsBlock : Fs → ℕ → Type 0
IsBlock s b = (0 < b) × (b < s.fs_params.max_block_count) × (s.free_blocks b ≡ taken)

-- The inode is of a file or a link whose block, if it is not empty, is in use.
abbrev pub IsFile : Fs → Inode → Type 0
IsFile s n =
    (n.i_node_type ≢ t_directory)
    × (n.i_size ≤ s.fs_params.block_size)
    × (0 < n.i_size → (n.i_data_block ≡ some (block_of n)) × IsBlock s (block_of n))

-- A symbolic link has one name, and a block with a target's name that ends in it.
abbrev pub IsTarget : Fs → Inode → Type 0
IsTarget s n =
    n.i_node_type ≡ t_symlink
    → (n.i_hard_links ≡ 1)
      × (0 < n.i_size)
      × (strlen (as_bytes (s.fs_data (block_of n))) < s.fs_params.block_size)

-- Inodes and blocks: the root directory has inode 0 and block 0, all other blocks hold bytes, and no
-- two files that are not empty share a block.
pub record IsStore (s : Fs) : Type 0 where
  pub mounted : s.mounted ≡ true
  pub block_bound : s.fs_params.block_size < 2 ^ 63
  pub some_inode : 0 < s.fs_params.max_inode_count
  pub some_block : 0 < s.fs_params.max_block_count
  pub root_taken : s.freeinode_ts 0 ≡ taken
  pub root_type : (s.inode_table 0).i_node_type ≡ t_directory
  pub root_block : (s.inode_table 0).i_data_block ≡ some 0
  pub root_block_taken : s.free_blocks 0 ≡ taken
  pub root_entries : s.fs_data 0 ≡ entries (dir s)
  pub data_bytes :
      (b : ℕ)
      → 0 < b
      → (s.fs_data b ≡ bytes (as_bytes (s.fs_data b)))
        × (length (as_bytes (s.fs_data b)) ≡ s.fs_params.block_size)
  pub file : (i : ℕ) → IsInUse s i → IsFile s (s.inode_table i)
  pub target : (i : ℕ) → IsInUse s i → IsTarget s (s.inode_table i)
  pub apart :
      (i j : ℕ)
      → IsInUse s i
      → IsInUse s j
      → 0 < (s.inode_table i).i_size
      → 0 < (s.inode_table j).i_size
      → block_of (s.inode_table i) ≡ block_of (s.inode_table j)
      → i ≡ j

-- A directory: each entry is of a file or a link, no two have one name, and the name of an empty entry
-- is empty.
pub record IsDir (n : ℕ) (es : Array DirEntry) (InUse : ℕ → Type 0) : Type 0 where
  pub in_use : (k i : ℕ) → IsEntry n es k i → InUse i
  pub short : (k i : ℕ) → IsEntry n es k i → strlen (es k).d_name < max_file_name
  pub blank : (k : ℕ) → k < n → (es k).d_inumber ≡ none → c_str (es k).d_name ≡ []
  pub names_apart :
      (k l i j : ℕ)
      → IsEntry n es k i
      → IsEntry n es l j
      → c_str (es k).d_name ≡ c_str (es l).d_name
      → k ≡ l

abbrev pub number_weight : ℕ → Option ℕ → ℕ
number_weight i none = 0
number_weight i (some j) = if j == i then 1 else 0

-- 1 if the entry has the number `i`
abbrev pub refers : ℕ → DirEntry → ℕ
refers i e = number_weight i e.d_inumber

-- How many names the directory has for number `i`
abbrev pub names_of : Fs → ℕ → ℕ
names_of s i = total (refers i) (max_dir_entries s) (dir s)

-- `i_hard_links` counts the names.
abbrev pub IsCounted : Fs → Type 0
IsCounted s = (i : ℕ) → IsInUse s i → (s.inode_table i).i_hard_links ≡ names_of s i

-- Handle `h` is open.
abbrev pub IsHandle : Fs → ℕ → Type 0
IsHandle s h = (h < s.fs_params.max_open_files_count) × (s.free_open_file_entries h ≡ taken)

-- Open files: each handle is of a file, which is no link, at an offset within it.
pub record IsOpens (IsH : ℕ → Type 0) (table : Array OpenFile) (InUse : ℕ → Type 0)
    (inodes : Array Inode) : Type 0 where
  pub in_use : (h : ℕ) → IsH h → InUse (table h).of_inumber
  pub type : (h : ℕ) → IsH h → (inodes (table h).of_inumber).i_node_type ≡ t_file
  pub within : (h : ℕ) → IsH h → (table h).of_offset ≤ (inodes (table h).of_inumber).i_size

pub record IsValid (s : Fs) : Type 0 where
  pub store : IsStore s
  pub names : IsDir (max_dir_entries s) (dir s) (IsInUse s)
  pub counted : IsCounted s
  pub opens : IsOpens (IsHandle s) s.open_file_table (IsInUse s) s.inode_table
