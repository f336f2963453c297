-- ===== src/Links/Steps.antt =====
-- What the helpers of the calls do on a valid file system, with locks held that they do not need.
use mbroker_tfs.Base.{
  ℕ, ◌+◌, ◌<◌, ◌∷◌, ◌≡◌, ◌≢◌, ◌⊎◌, refl, inl, inr, Bool, true, false, Option, none, some, update,
  first, first-some, first-none, CString, arith, Bool-cases, Option-cases, total-update, ◌==◌,
  if◌then◌else◌,
}
use mbroker_tfs.Tfs.State.{taken, is_free, root_dir_inum}
use mbroker_tfs.Tfs.Dir.{fill_entry, cleared_entry, find_name, valid_name}
use mbroker_tfs.Tfs.Changes.Entries.{IsName}
use mbroker_tfs.Links.State.{
  Inode, Fs, Held, Lock, Mode, done, writing, dir_lock, inode_table_lock, dblock_lock,
  open_file_table_mutex, inode_lock, ftable_lock, same_lock, conflicts, is_lock, lock, unlock,
  max_dir_entries, inode_get, data_block_get, data_block_free, data_block_alloc,
}
use mbroker_tfs.Links.Inodes.{inode_delete, inode_alloc}
use mbroker_tfs.Links.Dir.{
  Place, exists, full, at_index, find_place, add_dir_entry, clear_dir_entry,
}
use mbroker_tfs.Links.OpenFiles.{is_open_as, file_is_open}
use mbroker_tfs.Links.Returns.{Returns, returns}
use mbroker_tfs.Links.Invariant.{dir, IsInUse, IsStore, IsDir, IsHandle, refers, names_of}
use mbroker_tfs.Links.Lookup.{Names, PlaceFound, find_place-PlaceFound}
use mbroker_tfs.Links.Changes.{with_dir, deleted}

abbrev pub IsFreeOf : Lock → Held → Type 0
IsFreeOf k l = conflicts k writing l ≡ false

pub inode_get-done :
    (s : Fs) (l : Held) (i : ℕ)
    → IsStore s
    → i < s.fs_params.max_inode_count
    → inode_get i s l ≡ done (s.inode_table i) s l
unfolding inode_get
inode_get-done s l i v h = ground (arith, v.mounted)

pub lock-done :
    (s : Fs) (l : Held) (k : Lock) (m : Mode)
    → is_lock k s ≡ true
    → conflicts k m l ≡ false
    → lock k m s l ≡ done tt s ((k, m) ∷ l)
unfolding lock
lock-done s l k m e f = rw (e, f) refl

same_lock_self : (k : Lock) → same_lock k k ≡ true
same_lock_self inode_table_lock = refl
same_lock_self dblock_lock = refl
same_lock_self dir_lock = refl
same_lock_self open_file_table_mutex = refl
same_lock_self (inode_lock i) = ground arith
same_lock_self (ftable_lock h) = ground arith

-- Releasing the lock taken last
pub unlock-done : (s : Fs) (l : Held) (k : Lock) (m : Mode) → unlock k s ((k, m) ∷ l) ≡ done tt s l
unfolding unlock
unlock-done s l k m = rw (same_lock_self k) refl

pub inode_delete-done :
    (s : Fs) (l : Held) (i : ℕ) (v : IsStore s)
    → IsInUse s i
    → IsFreeOf inode_table_lock l
    → IsFreeOf dblock_lock l
    → inode_delete i s l ≡ done tt (deleted s v i) l
unfolding inode_delete data_block_free
inode_delete-done s l i v u e f = ground (arith, v.file i u, e, f)

-- Every entry of the directory is in use.
abbrev pub IsDirFull : Fs → Type 0
IsDirFull s = (k : ℕ) → k < max_dir_entries s → (i : ℕ) × ((dir s k).d_inumber ≡ some i)

-- Why a name cannot be entered: it is too short or too long, it is there, or there is no room.
abbrev pub CannotEnter : Fs → CString → Type 0
CannotEnter s name = (¬ IsName name) ⊎ ((i : ℕ) × Names s name i) ⊎ IsDirFull s

-- Entry `k` is empty, and can take the name.
abbrev pub CanEnter : Fs → CString → ℕ → Type 0
CanEnter s name k =
    IsName name
    × (k < max_dir_entries s)
    × ((dir s k).d_inumber ≡ none)
    × ((i : ℕ) → ¬ Names s name i)

module _ (s : Fs) (v : IsStore s) where
  abbrev pub filled : ℕ → CString → ℕ → Fs
  filled k name i = with_dir s v (update (dir s) k (fill_entry (dir s k) name i))

  abbrev pub cleared : ℕ → Fs
  cleared k = with_dir s v (update (dir s) k cleared_entry)

  -- What `add_dir_entry` does
  abbrev pub EntryMade : CString → ℕ → Held → Bool → Fs → Held → Type 0
  EntryMade name i l r t l' =
      (l' ≡ l)
      × (((k : ℕ) × (r ≡ true) × CanEnter s name k × (t ≡ filled k name i))
          ⊎ ((r ≡ false) × (t ≡ s) × CannotEnter s name))

  module _ (d : IsDir (max_dir_entries s) (dir s) (IsInUse s)) (name : CString) (i : ℕ) (l : Held)
      (unlocked : IsFreeOf dir_lock l) where
    abbrev found : Place
    found = find_place (dir s) name none (max_dir_entries s) 0

    add_dir_entry-done :
        (k : ℕ)
        → valid_name name ≡ true
        → found ≡ at_index k
        → add_dir_entry (s.inode_table root_dir_inum) name i s l ≡ done true (filled k name i) l
    unfolding add_dir_entry data_block_get
    add_dir_entry-done k good e =
        ground (arith, good, e, unlocked, v.root_type, v.root_block, v.root_entries, v.some_block)

    add_dir_entry-fails :
        valid_name name ≡ true
        → (found ≡ exists) ⊎ (found ≡ full)
        → add_dir_entry (s.inode_table root_dir_inum) name i s l ≡ done false s l
    unfolding add_dir_entry data_block_get
    add_dir_entry-fails good (inl e) =
        ground (arith, good, e, unlocked, v.root_type, v.root_block, v.root_entries, v.some_block)
    add_dir_entry-fails good (inr e) =
        ground (arith, good, e, unlocked, v.root_type, v.root_block, v.root_entries, v.some_block)

    add_dir_entry-bad_name :
        valid_name name ≡ false
        → add_dir_entry (s.inode_table root_dir_inum) name i s l ≡ done false s l
    unfolding add_dir_entry
    add_dir_entry-bad_name bad = rw bad refl

    found-cases : (p : Place) → (p ≡ exists) ⊎ (p ≡ full) ⊎ ((k : ℕ) × (p ≡ at_index k))
    found-cases exists = inl refl
    found-cases full = inr (inl refl)
    found-cases (at_index k) = inr (inr (k, refl))

    can_enter : (k : ℕ) → IsName name → PlaceFound s name (at_index k) → CanEnter s name k
    can_enter k good (h, e, absent) = (good, h, e, absent)

    pub add_dir_entry-EntryMade :
        Returns (EntryMade name i l) (add_dir_entry (s.inode_table root_dir_inum) name i s l)
    add_dir_entry-EntryMade = elim (Bool-cases (valid_name name)) [
      | inr bad ↦
          rw (add_dir_entry-bad_name bad)
            (returns (refl, inr (refl, refl, inl (λ g. ground (arith, bad)))))
      | inl good ↦
          let is_name : IsName name = ground (arith, good) in
          let there = find_place-PlaceFound s name d is_name.0 in
          elim (found-cases found) [
            | inl e ↦
                rw (add_dir_entry-fails good (inl e))
                  (returns (refl, inr (refl, refl, inr (inl (rw e at there)))))
            | inr (inl e) ↦
                rw (add_dir_entry-fails good (inr e))
                  (returns (refl, inr (refl, refl, inr (inr (rw e at there)))))
            | inr (inr (k, e)) ↦
                rw (add_dir_entry-done k good e)
                  (returns (refl, inl (k, refl, can_enter k is_name (rw e at there), refl)))
          ]
    ]

  pub clear_dir_entry-done :
      (root : Inode) (name : CString) (k : ℕ) (l : Held)
      → root ≡ s.inode_table root_dir_inum
      → IsFreeOf dir_lock l
      → find_name (dir s) name (max_dir_entries s) ≡ some k
      → clear_dir_entry root name s l ≡ done true (cleared k) l
  unfolding clear_dir_entry data_block_get
  clear_dir_entry-done root name k l same unlocked e =
      rw same (ground (arith, v.root_type, v.root_block, v.root_entries, v.some_block, e, unlocked))

  -- How the numbers of names change with an entry
  pub names_of-filled :
      (k : ℕ) (name : CString) (i j : ℕ)
      → k < max_dir_entries s
      → (dir s k).d_inumber ≡ none
      → names_of (filled k name i) j ≡ names_of s j + (if i == j then 1 else 0)
  names_of-filled k name i j h e =
      let moved =
        total-update (refers j) (max_dir_entries s) k (dir s) (fill_entry (dir s k) name i) h in
      ground (arith, moved, e)

  pub names_of-cleared :
      (k i j : ℕ)
      → k < max_dir_entries s
      → (dir s k).d_inumber ≡ some i
      → names_of (cleared k) j + (if i == j then 1 else 0) ≡ names_of s j
  names_of-cleared k i j h e =
      let moved = total-update (refers j) (max_dir_entries s) k (dir s) cleared_entry h in
      ground (arith, moved, e)

-- No handle is of file `i`.
abbrev pub IsClosed : Fs → ℕ → Type 0
IsClosed s i = (h : ℕ) → IsHandle s h → (s.open_file_table h).of_inumber ≢ i

abbrev pub IsOpen : Fs → ℕ → Type 0
IsOpen s i = (h : ℕ) × IsHandle s h × ((s.open_file_table h).of_inumber ≡ i)

-- `file_is_open` returns whether a handle is of the file.
abbrev pub OpenTest : Fs → ℕ → Held → Bool → Fs → Held → Type 0
OpenTest s i l r t l' =
    (t ≡ s) × (l' ≡ l) × (((r ≡ true) × IsOpen s i) ⊎ ((r ≡ false) × IsClosed s i))

pub file_is_open-OpenTest :
    (s : Fs) (i : ℕ) (l : Held)
    → IsFreeOf open_file_table_mutex l
    → Returns (OpenTest s i l) (file_is_open i s l)
unfolding file_is_open
file_is_open-OpenTest s i l unlocked =
    rw unlocked (elim (Option-cases (first (is_open_as i s) s.fs_params.max_open_files_count)) [
      | inl e ↦
          rw e
            (returns (refl, refl, inr (refl, λ h o same. ground (arith, first-none _ _ e h o.0))))
      | inr (h, e) ↦
          let (hit, within, _) = first-some _ _ h e in
          rw e (
            returns
              (refl, refl, inl (refl, (h, (within, ground (arith, hit)), ground (arith, hit)))))
    ])

abbrev pub free_inode : Fs → Option ℕ
free_inode s = first (λ i. is_free (s.freeinode_ts i)) s.fs_params.max_inode_count

abbrev pub free_block : Fs → Option ℕ
free_block s = first (λ b. is_free (s.free_blocks b)) s.fs_params.max_block_count

pub inode_alloc-done :
    (s : Fs) (l : Held) (i : ℕ)
    → free_inode s ≡ some i
    → inode_alloc s l ≡ done (some i) (record s { freeinode_ts = update s.freeinode_ts i taken }) l
unfolding inode_alloc
inode_alloc-done s l i e = rw (e, inode_alloc) refl

pub inode_alloc-none : (s : Fs) (l : Held) → free_inode s ≡ none → inode_alloc s l ≡ done none s l
unfolding inode_alloc
inode_alloc-none s l e = rw (e, inode_alloc) refl

module _ (s : Fs) (l : Held) (unlocked : IsFreeOf dblock_lock l) where
  pub data_block_alloc-done :
      (b : ℕ)
      → free_block s ≡ some b
      → data_block_alloc s l
        ≡ done (some b) (record s { free_blocks = update s.free_blocks b taken }) l
  unfolding data_block_alloc
  data_block_alloc-done b e = ground (arith, e, unlocked)

  pub data_block_alloc-none : free_block s ≡ none → data_block_alloc s l ≡ done none s l
  unfolding data_block_alloc
  data_block_alloc-none e = ground (arith, e, unlocked)
