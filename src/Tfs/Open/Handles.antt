-- ===== src/Tfs/Open/Handles.antt =====
-- Handles: adding one to the table of open files, and `tfs_close`.
use mbroker_tfs.Base.{
  ℕ, ◌<◌, ◌≡◌, ◌≢◌, ◌⊎◌, refl, inl, inr, Bool, true, false, Option, none, some, first, first-some,
  first-none, arith, Option-cases, Bool-cases, ◌&&◌, ltb,
}
use mbroker_tfs.Tfs.State.{taken, is_free, is_taken, Tfs, done}
use mbroker_tfs.Tfs.Invariant.{IsHandle, IsValid}
use mbroker_tfs.Tfs.Returns.{Returns, returns}
use mbroker_tfs.Tfs.OpenFiles.{add_to_open_file_table, remove_from_open_file_table}
use mbroker_tfs.Tfs.Changes.{opened, closed, closed-IsValid}
use mbroker_tfs.Tfs.Open.{close_entry, tfs_close}
use mbroker_tfs.Tfs.ReadWrite.Steps.{get_open_file_entry-open, get_open_file_entry-closed}

-- Every handle is open.
abbrev pub IsTableFull : Tfs → Type 0
IsTableFull s = (h : ℕ) → h < s.fs_params.max_open_files_count → s.free_open_file_entries h ≡ taken

-- Handle `h` was free and is now of file `i`, or every handle is open.
abbrev pub Added : (s : Tfs) → IsValid s → ℕ → ℕ → Option ℕ → Tfs → Type 0
Added s v i offset r t =
    ((h : ℕ) × (r ≡ some h)
      × (¬ IsHandle s h)
      × (h < s.fs_params.max_open_files_count)
      × (t ≡ opened s v h i offset))
    ⊎ ((r ≡ none) × (t ≡ s) × IsTableFull s)

pub add_to_open_file_table-Added :
    (s : Tfs) (v : IsValid s) (i offset : ℕ)
    → Returns (Added s v i offset) (add_to_open_file_table i offset s)
unfolding add_to_open_file_table
add_to_open_file_table-Added s v i offset =
    elim (Option-cases
      (first (λ h. is_free (s.free_open_file_entries h)) s.fs_params.max_open_files_count)) [
        | inl e ↦
            rw (e, add_to_open_file_table)
              (returns (inr (refl, refl, λ h p. ground (arith, first-none _ _ e h p))))
        | inr (h, e) ↦
            let (hit, within, _) = first-some _ _ h e in
            rw (e, add_to_open_file_table)
              (returns (inl (h, refl, (λ o. ground (arith, hit)), within, refl)))
      ]

-- The handle is closed, or was not open.
abbrev pub CloseResult : Tfs → ℕ → Bool → Tfs → Type 0
CloseResult s h r t =
    ((r ≡ true)
      × IsHandle s h
      × IsValid t
      × (¬ IsHandle t h)
      × ((k : ℕ) → k ≢ h → IsHandle s k → IsHandle t k)
      × (t ≡ record s { free_open_file_entries = t.free_open_file_entries }))
    ⊎ ((r ≡ false) × (¬ IsHandle s h) × (t ≡ s))

remove-done :
    (s : Tfs) (v : IsValid s) (h : ℕ)
    → IsHandle s h
    → close_entry (some h) (some (h, s.open_file_table h)) s ≡ done true (closed s v h)
unfolding close_entry remove_from_open_file_table
remove-done s v h o = ground arith

IsHandle-dec : (s : Tfs) (h : ℕ) → IsHandle s h ⊎ (¬ IsHandle s h)
IsHandle-dec s h =
    elim (Bool-cases
      (ltb h s.fs_params.max_open_files_count && is_taken (s.free_open_file_entries h))) [
        | inl e ↦ inl (ground arith)
        | inr e ↦ inr (λ o. ground arith)
      ]

pub tfs_close-done :
    (s : Tfs) (v : IsValid s) (h : ℕ)
    → IsHandle s h
    → tfs_close (some h) s ≡ done true (closed s v h)
unfolding tfs_close
tfs_close-done s v h o = rw (get_open_file_entry-open s h v.0 o, remove-done s v h o) refl

-- On a valid file system, `tfs_close` of any handle ends without a failed assertion. If the handle is
-- open the call returns 0, closes it and no other, changes nothing else, and the file system is valid;
-- if not, it returns -1 and changes nothing.
pub tfs_close-CloseResult :
    (s : Tfs) (h : ℕ) → IsValid s → Returns (CloseResult s h) (tfs_close (some h) s)
unfolding tfs_close
tfs_close-CloseResult s h v = elim (IsHandle-dec s h) [
  | inl o ↦
      rw (get_open_file_entry-open s h v.0 o, remove-done s v h o)
        (returns (
          inl (refl, o, closed-IsValid s v h, (λ c. ground arith), (λ k ne c. ground arith), refl)))
  | inr o ↦ rw (get_open_file_entry-closed s h v.0 o) (returns (inr (refl, o, refl)))
]
