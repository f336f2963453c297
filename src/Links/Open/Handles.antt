-- ===== src/Links/Open/Handles.antt =====
-- Handles: adding one to the table of open files, and `tfs_close`.
use mbroker_tfs.Base.{
  ℕ, ◌≤◌, ◌<◌, ◌≡◌, ◌≢◌, ◌⊎◌, refl, inl, inr, Bool, true, false, Option, none, some, [], ◌∷◌, Array,
  update, first-some, first-none, arith, Option-cases,
}
use mbroker_tfs.Tfs.State.{free, taken, Allocation, OpenFile}
use mbroker_tfs.Links.State.{
  t_file, Fs, Held, done, deadlock, writing, open_file_table_mutex, ftable_lock, conflicts, lock,
  unlock,
}
use mbroker_tfs.Links.OpenFiles.{
  free_handle, fill_open_file, add_to_open_file_table, remove_from_open_file_table, close_found,
  close_entry,
}
use mbroker_tfs.Links.Open.{tfs_close}
use mbroker_tfs.Links.Returns.{Returns, returns}
use mbroker_tfs.Links.Invariant.{IsInUse, IsStore, IsHandle, IsValid}
use mbroker_tfs.Links.Steps.{IsFreeOf}
use mbroker_tfs.Links.ReadWrite.Steps.{
  get_open_file_entry-open, get_open_file_entry-closed, IsHandle-dec,
}

-- Every handle is open.
abbrev pub IsTableFull : Fs → Type 0
IsTableFull s = (h : ℕ) → h < s.fs_params.max_open_files_count → s.free_open_file_entries h ≡ taken

module _ (s : Fs) (v : IsValid s) where
  abbrev pub opened : ℕ → ℕ → ℕ → Fs
  opened h i offset = record s {
    free_open_file_entries = update s.free_open_file_entries h taken;
    open_file_table = update s.open_file_table h (record { of_inumber = i; of_offset = offset });
  }

  abbrev pub closed : ℕ → Fs
  closed h = record s { free_open_file_entries = update s.free_open_file_entries h free }

  -- Only the table of open files differs.
  IsStore-same_disk :
      (frees : Array Allocation) (table : Array OpenFile)
      → IsStore (record s { free_open_file_entries = frees; open_file_table = table })
  IsStore-same_disk frees table = record {
    mounted = v.store.mounted;
    block_bound = v.store.block_bound;
    some_inode = v.store.some_inode;
    some_block = v.store.some_block;
    root_taken = v.store.root_taken;
    root_type = v.store.root_type;
    root_block = v.store.root_block;
    root_block_taken = v.store.root_block_taken;
    root_entries = v.store.root_entries;
    data_bytes = v.store.data_bytes;
    file = v.store.file;
    target = v.store.target;
    apart = v.store.apart;
  }

  pub opened-IsValid :
      (h i offset : ℕ)
      → IsInUse s i
      → (s.inode_table i).i_node_type ≡ t_file
      → offset ≤ (s.inode_table i).i_size
      → IsValid (opened h i offset)
  opened-IsValid h i offset u type within = record {
    store = IsStore-same_disk _ _;
    names = v.names;
    counted = v.counted;
    opens = record {
      in_use = λ k o. ground (arith, v.opens.in_use k);
      type = λ k o. ground (arith, v.opens.type k);
      within = λ k o. ground (arith, v.opens.within k);
    };
  }

  pub closed-IsValid : (h : ℕ) → IsValid (closed h)
  closed-IsValid h = record {
    store = IsStore-same_disk _ _;
    names = v.names;
    counted = v.counted;
    opens = record {
      in_use = λ k o. ground (arith, v.opens.in_use k);
      type = λ k o. ground (arith, v.opens.type k);
      within = λ k o. ground (arith, v.opens.within k);
    };
  }

-- Handle `h` was free and is now of file `i`, or every handle is open.
abbrev pub Added : (s : Fs) → IsValid s → ℕ → ℕ → Held → Option ℕ → Fs → Held → Type 0
Added s v i offset l r t l' =
    (l' ≡ l)
    × (((h : ℕ) × (r ≡ some h)
          × (¬ IsHandle s h)
          × (h < s.fs_params.max_open_files_count)
          × (t ≡ opened s v h i offset))
        ⊎ ((r ≡ none) × (t ≡ s) × IsTableFull s))

module _ (s : Fs) (i offset : ℕ) (l : Held) (unlocked : IsFreeOf open_file_table_mutex l) where
  -- Handle `h` is the first one that is free.
  pub add_to_open_file_table-done :
      (v : IsValid s) (h : ℕ)
      → free_handle s ≡ some h
      → h < s.fs_params.max_open_files_count
      → IsFreeOf (ftable_lock h) l
      → add_to_open_file_table i offset s l ≡ done (some h) (opened s v h i offset) l
  unfolding add_to_open_file_table fill_open_file lock unlock
  add_to_open_file_table-done v h e within free_lock =
      ground (arith, e, unlocked, free_lock, v.store.mounted)

  pub add_to_open_file_table-none :
      free_handle s ≡ none → add_to_open_file_table i offset s l ≡ done none s l
  unfolding add_to_open_file_table fill_open_file lock unlock
  add_to_open_file_table-none e = ground (arith, e, unlocked)

  -- The lock of the first free handle is held.
  pub add_to_open_file_table-deadlock :
      (v : IsStore s) (h : ℕ)
      → free_handle s ≡ some h
      → h < s.fs_params.max_open_files_count
      → conflicts (ftable_lock h) writing l ≡ true
      → add_to_open_file_table i offset s l ≡ deadlock
  unfolding add_to_open_file_table fill_open_file lock unlock
  add_to_open_file_table-deadlock v h e within locked =
      ground (arith, e, unlocked, locked, v.mounted)

  pub add_to_open_file_table-Added :
      (v : IsValid s)
      → ((h : ℕ) → IsFreeOf (ftable_lock h) l)
      → Returns (Added s v i offset l) (add_to_open_file_table i offset s l)
  add_to_open_file_table-Added v free_locks = elim (Option-cases (free_handle s)) [
    | inl e ↦
        rw (add_to_open_file_table-none e)
          (returns (refl, inr (refl, refl, λ h p. ground (arith, first-none _ _ e h p))))
    | inr (h, e) ↦
        let (hit, within, _) = first-some _ _ h e in
        rw (add_to_open_file_table-done v h e within (free_locks h))
          (returns (refl, inl (h, refl, (λ o. ground (arith, hit)), within, refl)))
  ]

-- The handle is closed, or was not open. No lock stays held.
abbrev pub HandleClosed : Fs → ℕ → Bool → Fs → Held → Type 0
HandleClosed s h r t l =
    (l ≡ [])
    × (((r ≡ true)
          × IsHandle s h
          × IsValid t
          × (¬ IsHandle t h)
          × ((k : ℕ) → k ≢ h → IsHandle s k → IsHandle t k)
          × (t ≡ record s { free_open_file_entries = t.free_open_file_entries }))
        ⊎ ((r ≡ false) × (¬ IsHandle s h) × (t ≡ s)))

module _ (s : Fs) (v : IsValid s) (h : ℕ) where
  close_found-done :
      IsHandle s h
      → close_found (some (h, s.open_file_table h)) s ((open_file_table_mutex, writing) ∷ [])
        ≡ done true (closed s v h) []
  unfolding close_found remove_from_open_file_table lock unlock
  close_found-done o = ground (arith, v.store.mounted)

  close_found-none : close_found none s ((open_file_table_mutex, writing) ∷ []) ≡ done false s []
  unfolding close_found unlock
  close_found-none = refl

-- On a valid file system with links and no lock held, `tfs_close` of any handle ends without a failed
-- assertion or a deadlock, and with no lock held. If the handle is open the call returns 0, closes it and
-- no other, changes nothing else, and the file system is valid; if not, it returns -1 and changes nothing.
pub tfs_close-HandleClosed :
    (s : Fs) (h : ℕ) → IsValid s → Returns (HandleClosed s h) (tfs_close (some h) s [])
unfolding tfs_close close_entry
tfs_close-HandleClosed s h v = elim (IsHandle-dec s h) [
  | inl o ↦
      rw
        (
          get_open_file_entry-open s ((open_file_table_mutex, writing) ∷ []) h v.store o,
          close_found-done s v h o,
        )
        (returns (
          refl,
          inl (refl, o, closed-IsValid s v h, (λ c. ground arith), (λ k ne c. ground arith), refl),
        ))
  | inr o ↦
      rw
        (
          get_open_file_entry-closed s ((open_file_table_mutex, writing) ∷ []) h v.store o,
          close_found-none s v h,
        )
        (returns (refl, inr (refl, o, refl)))
]
