-- ===== src/Tfs/Open.antt =====
-- Path names, opening and closing (p2/fs/operations.c).
--
-- One mutex is held through each call of the file system, so a call is one step. The tests
-- `pthread_mutex_lock(...) == -1` never hold: the function returns 0 or a positive error number.
pub mod Paths
pub mod Handles
pub mod Existing
pub mod Create
pub mod Result
use Prim.Native.Nat.{bit_and}
use mbroker_tfs.Base.{
  ℕ, Bool, true, false, not, ◌&&◌, Option, none, some, [], ◌∷◌, CString, strlen, ltb, ◌==◌,
  if◌then◌else◌,
}
use mbroker_tfs.Tfs.State.{
  t_file, Inode, OpenFile, Tfs, Cmd, done, panic, fault, pure, ◌>>=◌, ◌>>◌, root_dir_inum,
  inode_get, put_inode, data_block_free,
}
use mbroker_tfs.Tfs.Inodes.{inode_create, inode_delete}
use mbroker_tfs.Tfs.Dir.{find_in_dir, add_dir_entry}
use mbroker_tfs.Tfs.OpenFiles.{
  add_to_open_file_table, remove_from_open_file_table, get_open_file_entry,
}

abbrev pub first_char : CString → ℕ
first_char [] = 0
first_char (c ∷ s) = c

-- `name + 1`
abbrev pub rest : CString → CString
rest [] = []
rest (c ∷ s) = s

-- A name that is `none` is NULL.
unfoldable pub valid_pathname : Option CString → Bool
valid_pathname none = false
valid_pathname (some name) = ltb 1 (strlen name) && first_char name == b'/'

abbrev pub path : Option CString → CString
path none = []
path (some name) = name

unfoldable pub tfs_lookup : Option CString → Inode → Cmd (Option ℕ)
unfolding valid_pathname
tfs_lookup name root =
    if valid_pathname name then find_in_dir root (rest (path name)) else pure none

abbrev pub tfs_o_creat : ℕ
tfs_o_creat = 1

abbrev pub tfs_o_trunc : ℕ
tfs_o_trunc = 2

abbrev pub tfs_o_append : ℕ
tfs_o_append = 4

-- `mode & flag`
abbrev pub has_flag : ℕ → ℕ → Bool
has_flag mode flag = not (bit_and mode flag == 0)

-- `if (mode & TFS_O_TRUNC) if (i_size > 0) { data_block_free(i_data_block); i_size = 0; }`
pub truncate : ℕ → ℕ → Inode → Cmd (Unit {0})
truncate mode i n =
    if has_flag mode tfs_o_trunc && ltb 0 n.i_size
    then (do data_block_free n.i_data_block; put_inode i (record n { i_size = 0 }))
    else pure tt

-- The file exists: it is number `i`.
pub open_existing : ℕ → ℕ → Cmd (Option ℕ)
unfolding truncate
open_existing mode i = do
  n ← inode_get i
  truncate mode i n
  n ← inode_get i
  add_to_open_file_table i (if has_flag mode tfs_o_append then n.i_size else 0)

-- The file is new: `inode_create` returned its number.
pub open_created : CString → Inode → Option ℕ → Cmd (Option ℕ)
open_created name root none = pure none
open_created name root (some i) = do
  added ← add_dir_entry root name i
  if added then add_to_open_file_table i 0 else (do inode_delete i; pure none)

pub open_found : CString → ℕ → Inode → Option ℕ → Cmd (Option ℕ)
unfolding open_existing open_created
open_found name mode root (some i) = open_existing mode i
open_found name mode root none =
    if has_flag mode tfs_o_creat
    then (do open_created name root (← inode_create t_file))
    else pure none

unfoldable pub tfs_open : Option CString → ℕ → Cmd (Option ℕ)
unfolding open_found
tfs_open name mode =
    if valid_pathname name
    then (do
      root ← inode_get root_dir_inum
      open_found (rest (path name)) mode root (← tfs_lookup name root))
    else pure none

pub close_entry : Option ℕ → Option (ℕ × OpenFile) → Cmd Bool
close_entry h none = pure false
close_entry h (some file) = do remove_from_open_file_table h; pure true

unfoldable pub tfs_close : Option ℕ → Cmd Bool
unfolding close_entry
tfs_close h = do close_entry h (← get_open_file_entry h)
