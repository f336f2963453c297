-- ===== src/Tfs/State.antt =====
-- The state of the file system and its accessors (p2/fs/state.h, p2/fs/state.c).
--
-- An `int` that is -1 or a number from 0 up is an `Option ℕ`, with `none` for -1. An array is a
-- function of the index; each access in the source stands behind a test of the index, which is kept.
-- A data block is read through the type that it was last written at: bytes, or directory entries.
use mbroker_tfs.Base.{
  ℕ, ◌/◌, Bool, true, false, Option, none, some, List, Array, update, first, ltb, if◌then◌else◌,
}

pub data InodeType : Type 0 where
  t_file t_directory : InodeType

pub data Allocation : Type 0 where
  free taken : Allocation

abbrev pub is_free : Allocation → Bool
is_free free = true
is_free taken = false

abbrev pub is_taken : Allocation → Bool
is_taken free = false
is_taken taken = true

pub record Params : Type 0 where
  pub max_inode_count : ℕ
  pub max_block_count : ℕ
  pub max_open_files_count : ℕ
  pub block_size : ℕ

pub record DirEntry : Type 0 where
  pub d_name : List ℕ
  pub d_inumber : Option ℕ

pub record Inode : Type 0 where
  pub i_node_type : InodeType
  pub i_size : ℕ
  pub i_data_block : Option ℕ

pub record OpenFile : Type 0 where
  pub of_inumber : ℕ
  pub of_offset : ℕ

pub data Block : Type 0 where
  bytes : List ℕ → Block
  entries : Array DirEntry → Block

-- The static variables of state.c. `mounted` is `inode_table != NULL`.
pub record Tfs : Type 0 where
  pub fs_params : Params
  pub mounted : Bool
  pub inode_table : Array Inode
  pub freeinode_ts : Array Allocation
  pub fs_data : Array Block
  pub free_blocks : Array Allocation
  pub open_file_table : Array OpenFile
  pub free_open_file_entries : Array Allocation

-- `panic` is the exit of ALWAYS_ASSERT, `fault` is undefined behaviour.
pub data Run (A : Type 0) : Type 0 where
  done : A → Tfs → Run A
  panic fault : Run A

abbrev pub Cmd : Type 0 → Type 0
Cmd A = Tfs → Run A

abbrev pub pure : {A : Type 0} → A → Cmd A
pure a s = done a s

abbrev pub and_then : {A B : Type 0} → Run A → (A → Cmd B) → Run B
and_then (done a s) k = k a s
and_then panic k = panic
and_then fault k = fault

infixl 5 ◌>>=◌ ◌>>◌
abbrev pub ◌>>=◌ : {A B : Type 0} → Cmd A → (A → Cmd B) → Cmd B
◌>>=◌ m k s = and_then (m s) k

abbrev pub ◌>>◌ : {A B : Type 0} → Cmd A → Cmd B → Cmd B
m >> k = m >>= λ _. k

abbrev pub gets : {A : Type 0} → (Tfs → A) → Cmd A
gets f s = done (f s) s

abbrev pub modify : (Tfs → Tfs) → Cmd (Unit {0})
modify f s = done tt (f s)

-- ALWAYS_ASSERT
abbrev pub always_assert : Bool → Cmd (Unit {0})
always_assert b s = if b then done tt s else panic

abbrev pub root_dir_inum : ℕ
root_dir_inum = 0

abbrev pub max_file_name : ℕ
max_file_name = 40

-- `sizeof(dir_entry_t)`: 40 characters and an `int`
abbrev pub dir_entry_size : ℕ
dir_entry_size = 44

abbrev pub max_dir_entries : Tfs → ℕ
max_dir_entries s = s.fs_params.block_size / dir_entry_size

abbrev pub valid_inumber : ℕ → Tfs → Bool
valid_inumber i s = ltb i s.fs_params.max_inode_count

abbrev pub valid_block_number : Option ℕ → Tfs → Bool
valid_block_number none s = false
valid_block_number (some b) s = ltb b s.fs_params.max_block_count

-- A negative handle is `none`.
abbrev pub valid_file_handle : Option ℕ → Tfs → Bool
valid_file_handle none s = false
valid_file_handle (some h) s = ltb h s.fs_params.max_open_files_count

-- Until the tables are allocated every pointer into them is wild.
unfoldable pub inode_get : ℕ → Cmd Inode
inode_get i s =
    if valid_inumber i s then (if s.mounted then done (s.inode_table i) s else fault) else panic

abbrev pub put_inode : ℕ → Inode → Cmd (Unit {0})
put_inode i n s = done tt (record s { inode_table = update s.inode_table i n })

unfoldable pub data_block_alloc : Cmd (Option ℕ)
data_block_alloc s = elim (first (λ b. is_free (s.free_blocks b)) s.fs_params.max_block_count) [
  | none ↦ done none s
  | some b ↦ done (some b) (record s { free_blocks = update s.free_blocks b taken })
]

unfoldable pub data_block_free : Option ℕ → Cmd (Unit {0})
data_block_free none s = panic
data_block_free (some b) s =
    if valid_block_number (some b) s
    then done tt (record s { free_blocks = update s.free_blocks b free })
    else panic

-- The pointer is the number of the block that it points to.
unfoldable pub data_block_get : Option ℕ → Cmd ℕ
data_block_get none s = panic
data_block_get (some b) s = if valid_block_number (some b) s then done b s else panic

-- Reading a block through a `char *`, or through a `dir_entry_t *`
abbrev pub bytes_at : ℕ → Cmd (List ℕ)
bytes_at b s = elim (s.fs_data b) [ bytes xs ↦ done xs s | entries es ↦ fault ]

abbrev pub entries_at : ℕ → Cmd (Array DirEntry)
entries_at b s = elim (s.fs_data b) [ bytes xs ↦ fault | entries es ↦ done es s ]

abbrev pub put_block : ℕ → Block → Cmd (Unit {0})
put_block b x s = done tt (record s { fs_data = update s.fs_data b x })
