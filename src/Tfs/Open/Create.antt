-- ===== src/Tfs/Open/Create.antt =====
-- `tfs_open` of a new name: the states in which the file and its entry are made.
use mbroker_tfs.Base.{
  ℕ, ◌<◌, ◌≡◌, ◌≢◌, ◌⊎◌, ◌↔◌, refl, ap, ◌∙◌, inl, inr, Bool, true, false, Option, none, some, [],
  update, first, first-some, first-none, CString, c_str, arith, Bool-cases, Option-cases, take,
}
use mbroker_tfs.Tfs.State.{
  t_file, free, taken, is_free, Tfs, done, data_block_get, root_dir_inum, max_dir_entries,
}
use mbroker_tfs.Tfs.Invariant.{as_bytes, dir, content, block_of, IsInUse, IsValid}
use mbroker_tfs.Tfs.Returns.{Returns, returns}
use mbroker_tfs.Tfs.Inodes.{inode_alloc, inode_create}
use mbroker_tfs.Tfs.Dir.{fill_entry, is_empty, valid_name, add_dir_entry}
use mbroker_tfs.Tfs.Dir.Lookup.{Names}
use mbroker_tfs.Tfs.Changes.{created, created-IsInUse, created-IsValid, created-IsUnnamed}
use mbroker_tfs.Tfs.Changes.Entries.{
  IsName, filled, filled-IsValid, content-put_dir, c_str-fill_entry,
}
use mbroker_tfs.Tfs.Open.Existing.{Holds, Opened}

-- Every inode is in use; every entry of the directory is in use.
abbrev pub IsTakenUp : Tfs → Type 0
IsTakenUp s = (i : ℕ) → i < s.fs_params.max_inode_count → s.freeinode_ts i ≡ taken

abbrev pub IsDirFull : Tfs → Type 0
IsDirFull s = (k : ℕ) → k < max_dir_entries s → (i : ℕ) × ((dir s k).d_inumber ≡ some i)

-- What `inode_create` does for a file
abbrev pub FileMade : (s : Tfs) → IsValid s → Option ℕ → Tfs → Type 0
FileMade s v r t =
    ((i : ℕ) × (r ≡ some i)
      × (i < s.fs_params.max_inode_count)
      × (s.freeinode_ts i ≡ free)
      × (t ≡ created s v i))
    ⊎ ((r ≡ none) × (t ≡ s) × IsTakenUp s)

pub inode_create-FileMade :
    (s : Tfs) (v : IsValid s) → Returns (FileMade s v) (inode_create t_file s)
unfolding inode_create inode_alloc
inode_create-FileMade s v =
    elim (Option-cases (first (λ i. is_free (s.freeinode_ts i)) s.fs_params.max_inode_count)) [
      | inl e ↦
          rw (e, inode_alloc)
            (returns (inr (refl, refl, λ i p. ground (arith, first-none _ _ e i p))))
      | inr (i, e) ↦
          let (hit, within, _) = first-some _ _ i e in
          rw (e, inode_alloc) (returns (inl (i, refl, within, ground (arith, hit), refl)))
    ]

-- What `add_dir_entry` does
abbrev pub EntryMade : (s : Tfs) → IsValid s → CString → ℕ → Bool → Tfs → Type 0
EntryMade s v name i r t =
    ((k : ℕ) × (r ≡ true)
      × IsName name
      × (k < max_dir_entries s)
      × ((dir s k).d_inumber ≡ none)
      × (t ≡ filled s v k name i))
    ⊎ ((r ≡ false) × (t ≡ s) × ((¬ IsName name) ⊎ IsDirFull s))

abbrev first_empty : Tfs → Option ℕ
first_empty s = first (λ k. is_empty (dir s k)) (max_dir_entries s)

module _ (s : Tfs) (v : IsValid s) (name : CString) (i : ℕ) where
  add_dir_entry-done :
      (k : ℕ)
      → valid_name name ≡ true
      → first_empty s ≡ some k
      → add_dir_entry (s.inode_table root_dir_inum) name i s ≡ done true (filled s v k name i)
  unfolding add_dir_entry data_block_get
  add_dir_entry-done k good e =
      ground (arith, good, e, v.0.root_type, v.0.root_block, v.0.root_entries, v.0.some_block)

  add_dir_entry-full :
      valid_name name ≡ true
      → first_empty s ≡ none
      → add_dir_entry (s.inode_table root_dir_inum) name i s ≡ done false s
  unfolding add_dir_entry data_block_get
  add_dir_entry-full good e =
      ground (arith, good, e, v.0.root_type, v.0.root_block, v.0.root_entries, v.0.some_block)

  add_dir_entry-bad_name :
      valid_name name ≡ false → add_dir_entry (s.inode_table root_dir_inum) name i s ≡ done false s
  unfolding add_dir_entry
  add_dir_entry-bad_name bad = rw bad

  pub add_dir_entry-EntryMade :
      Returns (EntryMade s v name i) (add_dir_entry (s.inode_table root_dir_inum) name i s)
  add_dir_entry-EntryMade = elim (Bool-cases (valid_name name)) [
    | inr bad ↦
        rw (add_dir_entry-bad_name bad) (returns (inr (refl, refl, inl (λ g. ground (arith, bad)))))
    | inl good ↦ elim (Option-cases (first_empty s)) [
      | inl e ↦
          rw (add_dir_entry-full good e)
            (returns (inr (refl, refl, inr (λ k h. entry_of_full k (first-none _ _ e k h)))))
      | inr (k, e) ↦
          let (hit, within, _) = first-some _ _ k e in
          rw (add_dir_entry-done k good e)
            (returns (inl (k, refl, ground (arith, good), within, ground (arith, hit), refl)))
    ]
  ]
    where
      entry_of_full :
          (k : ℕ) → is_empty (dir s k) ≡ false → (j : ℕ) × ((dir s k).d_inumber ≡ some j)
      entry_of_full k e = elim (Option-cases (dir s k).d_inumber) [
        | inl z ↦ absurd (ground (arith, e, z))
        | inr (j, z) ↦ (j, z)
      ]

-- Why a file could not be created
abbrev pub CannotCreate : Tfs → CString → Type 0
CannotCreate s name = IsTakenUp s ⊎ ((¬ IsName name) ⊎ IsDirFull s)

-- Nothing that was there has changed.
pub record Unchanged (s t : Tfs) : Type 0 where
  pub valid : IsValid t
  pub files : (j : ℕ) → IsInUse s j → IsInUse t j × (content t j ≡ content s j)
  pub names : (other : CString) (j : ℕ) → Names s other j ↔ Names t other j
  pub handles : t.open_file_table ≡ s.open_file_table
  pub is_open : t.free_open_file_entries ≡ s.free_open_file_entries

-- A new file of the name, empty and opened at its start; or -1 and nothing has changed
abbrev pub Created : Tfs → CString → Option ℕ → Tfs → Type 0
Created s name r t =
    ((i : ℕ) × (¬ IsInUse s i) × Opened s name i [] 0 r t)
    ⊎ ((r ≡ none) × Unchanged s t × CannotCreate s name)

module _ (s : Tfs) (v : IsValid s) (name : CString) (absent : (j : ℕ) → ¬ Names s name j) (i : ℕ)
    (in_table : i < s.fs_params.max_inode_count) (unused : s.freeinode_ts i ≡ free) where
  abbrev pub made : Tfs
  made = created s v i

  pub made-IsValid : IsValid made
  made-IsValid = created-IsValid s v i in_table unused

  module _ (k : ℕ) (good : IsName name) (in_dir : k < max_dir_entries s)
      (empty : (dir s k).d_inumber ≡ none) where
    abbrev pub entered : Tfs
    entered = filled made made-IsValid k name i

    called : c_str (dir entered k).d_name ≡ c_str name
    called =
        let e : dir entered k ≡ fill_entry (dir made k) name i = ground arith in
        ap (λ x. c_str x.d_name) e ∙ c_str-fill_entry (dir made k) name i (omega arith)

    elsewhere : (l : ℕ) → l ≢ k → dir entered l ≡ dir s l
    elsewhere l ne = ground arith

    others_named-entered :
        (other : CString) (j : ℕ)
        → c_str other ≢ c_str name
        → Names s other j ↔ Names entered other j
    others_named-entered other j ne = (
      (λ (l, e, same). (l, ground (arith, empty, elsewhere l), ground (arith, empty, elsewhere l))),
      (λ (l, e, same).
          (l, ground (arith, called, elsewhere l), ground (arith, called, elsewhere l))),
    )

    others-entered :
        (j : ℕ) → IsInUse s j → j ≢ i → IsInUse entered j × (content entered j ≡ content s j)
    others-entered j u ne =
        let same : made.inode_table j ≡ s.inode_table j = ground arith in
        (
          ground arith,
          content-put_dir made made-IsValid k (update (dir made) k (fill_entry (dir made k) name i))
                j (ground arith)
              ∙ ap (λ n. take n.i_size (as_bytes (s.fs_data (block_of n)))) same,
        )

    pub entered-Holds : Holds s name i [] entered
    entered-Holds = record {
      valid =
          filled-IsValid made made-IsValid k name i (created-IsInUse s v i in_table unused) good
            (created-IsUnnamed s v i in_table unused) absent;
      in_use = created-IsInUse s v i in_table unused;
      named = (k, ground arith, called);
      holds = let e : (entered.inode_table i).i_size ≡ 0 = ground arith in rw e;
      others = others-entered;
      others_named = others_named-entered;
    }
