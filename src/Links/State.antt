-- ===== src/Links/State.antt =====
-- The state of the file system with links, its locks and its accessors (p1/fs/state.h,
-- p1/fs/state.c, p1/fs/locks.c).
--
-- The types that p1/fs/state.h shares with p2/fs/state.h are those of Tfs.State, and so are the
-- conventions: an `int` that is -1 or a number from 0 up is an `Option ℕ`, an array is a function of the
-- index, and a block is read through the type that it was last written at.
--
-- A call runs in one thread. `Held` is the list of the locks that are held, the last one taken first.
-- `deadlock` is a wait for a lock that is held: nothing else runs that could release it.
use mbroker_tfs.Base.{
  ℕ, ◌/◌, Bool, true, false, ◌&&◌, ◌||◌, Option, none, some, List, [], ◌∷◌, Array, update, first,
  ltb, ◌==◌, if◌then◌else◌,
}
use mbroker_tfs.Tfs.State.{
  Allocation, free, taken, is_free, Params, DirEntry, OpenFile, Block, bytes, entries,
  dir_entry_size,
}

pub data InodeType : Type 0 where
  t_file t_directory t_symlink : InodeType

-- `i_lock`, which nothing uses, is left out.
pub record Inode : Type 0 where
  pub i_node_type : InodeType
  pub i_size : ℕ
  pub i_data_block : Option ℕ
  pub i_hard_links : ℕ

-- The static variables of state.c but the locks. `mounted` is `inode_table != NULL`.
pub record Fs : Type 0 where
  pub fs_params : Params
  pub mounted : Bool
  pub inode_table : Array Inode
  pub freeinode_ts : Array Allocation
  pub fs_data : Array Block
  pub free_blocks : Array Allocation
  pub open_file_table : Array OpenFile
  pub free_open_file_entries : Array Allocation

pub data Lock : Type 0 where
  inode_table_lock dblock_lock dir_lock open_file_table_mutex : Lock
  inode_lock ftable_lock : ℕ → Lock

-- A mutex is held in mode `writing`.
pub data Mode : Type 0 where
  reading writing : Mode

abbrev pub Held : Type 0
Held = List (Lock × Mode)

-- `panic` is the exit of ALWAYS_ASSERT, `fault` is undefined behaviour, and `looping` is a loop whose
-- rounds ran out.
pub data Run (A : Type 0) : Type 0 where
  done : A → Fs → Held → Run A
  panic fault deadlock looping : Run A

abbrev pub Cmd : Type 0 → Type 0
Cmd A = Fs → Held → Run A

abbrev pub pure : {A : Type 0} → A → Cmd A
pure a s l = done a s l

abbrev pub and_then : {A B : Type 0} → Run A → (A → Cmd B) → Run B
and_then (done a s l) k = k a s l
and_then panic k = panic
and_then fault k = fault
and_then deadlock k = deadlock
and_then looping k = looping

infixl 5 ◌>>=◌ ◌>>◌
abbrev pub ◌>>=◌ : {A B : Type 0} → Cmd A → (A → Cmd B) → Cmd B
◌>>=◌ m k s l = and_then (m s l) k

abbrev pub ◌>>◌ : {A B : Type 0} → Cmd A → Cmd B → Cmd B
m >> k = m >>= λ _. k

abbrev pub gets : {A : Type 0} → (Fs → A) → Cmd A
gets f s l = done (f s) s l

abbrev pub modify : (Fs → Fs) → Cmd (Unit {0})
modify f s l = done tt (f s) l

-- ALWAYS_ASSERT
abbrev pub always_assert : Bool → Cmd (Unit {0})
always_assert b s l = if b then done tt s l else panic

abbrev pub max_dir_entries : Fs → ℕ
max_dir_entries s = s.fs_params.block_size / dir_entry_size

abbrev pub valid_inumber : ℕ → Fs → Bool
valid_inumber i s = ltb i s.fs_params.max_inode_count

abbrev pub valid_block_number : Option ℕ → Fs → Bool
valid_block_number none s = false
valid_block_number (some b) s = ltb b s.fs_params.max_block_count

-- A negative handle is `none`.
abbrev pub valid_file_handle : Option ℕ → Fs → Bool
valid_file_handle none s = false
valid_file_handle (some h) s = ltb h s.fs_params.max_open_files_count

abbrev pub same_lock : Lock → Lock → Bool
same_lock inode_table_lock inode_table_lock = true
same_lock dblock_lock dblock_lock = true
same_lock dir_lock dir_lock = true
same_lock open_file_table_mutex open_file_table_mutex = true
same_lock (inode_lock i) (inode_lock j) = i == j
same_lock (ftable_lock i) (ftable_lock j) = i == j
same_lock _ _ = false

-- A lock that is held for reading may be taken for reading again.
abbrev pub excludes : Mode → Mode → Bool
excludes reading reading = false
excludes reading writing = true
excludes writing m = true

abbrev pub conflicts : Lock → Mode → Held → Bool
conflicts k m [] = false
conflicts k m ((k', m') ∷ l) = (same_lock k k' && excludes m m') || conflicts k m l

abbrev pub is_held : Lock → Held → Bool
is_held k [] = false
is_held k ((k', m) ∷ l) = same_lock k k' || is_held k l

abbrev pub without : Lock → Held → Held
without k [] = []
without k ((k', m) ∷ l) = let rest = without k l in if same_lock k k' then l else (k', m) ∷ rest

-- The locks of inodes and open files stand in arrays that `state_init` allocates.
abbrev pub is_lock : Lock → Fs → Bool
is_lock (inode_lock i) s = s.mounted && valid_inumber i s
is_lock (ftable_lock h) s = s.mounted && valid_file_handle (some h) s
is_lock _ s = true

-- `mutex_lock`, `rwlock_wrlock` (`writing`) and `rwlock_rdlock` (`reading`)
unfoldable pub lock : Lock → Mode → Cmd (Unit {0})
lock k m s l =
    if is_lock k s then (if conflicts k m l then deadlock else done tt s ((k, m) ∷ l)) else fault

-- `mutex_unlock` and `rwlock_unlock`
unfoldable pub unlock : Lock → Cmd (Unit {0})
unlock k s l = if is_held k l then done tt s (without k l) else fault

-- Until the tables are allocated every pointer into them is wild.
unfoldable pub inode_get : ℕ → Cmd Inode
inode_get i s l =
    if valid_inumber i s then (if s.mounted then done (s.inode_table i) s l else fault) else panic

abbrev pub put_inode : ℕ → Inode → Cmd (Unit {0})
put_inode i n s l = done tt (record s { inode_table = update s.inode_table i n }) l

-- The loop of `data_block_alloc`
take_block : Cmd (Option ℕ)
take_block s l = elim (first (λ b. is_free (s.free_blocks b)) s.fs_params.max_block_count) [
  | none ↦ done none s l
  | some b ↦ done (some b) (record s { free_blocks = update s.free_blocks b taken }) l
]

unfoldable pub data_block_alloc : Cmd (Option ℕ)
unfolding take_block lock unlock
data_block_alloc = do lock dblock_lock writing; b ← take_block; unlock dblock_lock; pure b

unfoldable pub data_block_free : Option ℕ → Cmd (Unit {0})
unfolding lock unlock
data_block_free none = λ s l. panic
data_block_free (some b) = do
  always_assert (← gets (valid_block_number (some b)))
  lock dblock_lock writing
  modify (λ s. record s { free_blocks = update s.free_blocks b free })
  unlock dblock_lock

-- The pointer is the number of the block that it points to.
unfoldable pub data_block_get : Option ℕ → Cmd ℕ
data_block_get none s l = panic
data_block_get (some b) s l = if valid_block_number (some b) s then done b s l else panic

-- Reading a block through a `char *`, or through a `dir_entry_t *`
abbrev pub bytes_at : ℕ → Cmd (List ℕ)
bytes_at b s l = elim (s.fs_data b) [ bytes xs ↦ done xs s l | entries es ↦ fault ]

abbrev pub entries_at : ℕ → Cmd (Array DirEntry)
entries_at b s l = elim (s.fs_data b) [ bytes xs ↦ fault | entries es ↦ done es s l ]

abbrev pub put_block : ℕ → Block → Cmd (Unit {0})
put_block b x s l = done tt (record s { fs_data = update s.fs_data b x }) l
