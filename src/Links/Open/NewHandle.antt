-- ===== src/Links/Open/NewHandle.antt =====
-- The handle that `tfs_open` makes, and what it leaves of the file.
use mbroker_tfs.Base.{
  ℕ, ◌≡◌, ◌⊎◌, refl, ap, inl, inr, Option, none, some, List, [], ◌∷◌, length, arith, if◌then◌else◌,
}
use mbroker_tfs.Tfs.State.{root_dir_inum}
use mbroker_tfs.Tfs.Open.{has_flag, tfs_o_trunc, tfs_o_append}
use mbroker_tfs.Links.State.{Fs, Held, and_then, pure, writing, inode_lock, unlock}
use mbroker_tfs.Links.Open.{open_at}
use mbroker_tfs.Links.Returns.{Returns, returns, bind}
use mbroker_tfs.Links.Invariant.{content, IsHandle, IsValid}
use mbroker_tfs.Links.Open.Handles.{IsTableFull, opened, Added, add_to_open_file_table-Added}

-- No open handle of file `i` has moved from the file's start.
abbrev pub IsUnmoved : Fs → ℕ → Type 0
IsUnmoved s i =
    (h : ℕ)
    → IsHandle s h
    → (s.open_file_table h).of_inumber ≡ i
    → (s.open_file_table h).of_offset ≡ 0

-- Handle `h` is new, of file `i` and at the offset, and the handles that were open are as before.
pub record HasHandle (s : Fs) (i offset h : ℕ) (t : Fs) : Type 0 where
  pub is_new : ¬ IsHandle s h
  pub is_open : IsHandle t h
  pub handle : t.open_file_table h ≡ record { of_inumber = i; of_offset = offset }
  pub handles : (k : ℕ) → IsHandle s k → IsHandle t k × (t.open_file_table k ≡ s.open_file_table k)

-- There is a new handle of the file, or -1 is returned since every handle is open.
abbrev pub HandleMade : Fs → ℕ → ℕ → Option ℕ → Fs → Type 0
HandleMade s i offset r t =
    ((h : ℕ) × (r ≡ some h) × HasHandle s i offset h t)
    ⊎ ((r ≡ none) × (t.open_file_table ≡ s.open_file_table) × IsTableFull s)

-- The lock of the root directory, which `tfs_open` holds
abbrev pub root_lock : Held
root_lock = (inode_lock root_dir_inum, writing) ∷ []

-- The end of the call, in a state `t` in which the file is ready
module _ (t : Fs) (v : IsValid t) (i offset : ℕ) where
  pub open_at-Added : Returns (Added t v i offset []) (open_at i offset t root_lock)
  unfolding open_at
  open_at-Added =
      bind (add_to_open_file_table-Added t i offset root_lock refl v (λ h. refl))
        (λ r u l p. released r u l p)
    where
      released :
          (r : Option ℕ) (u : Fs) (l : Held)
          → Added t v i offset root_lock r u l
          → Returns
              (Added t v i offset [])
              (and_then (unlock (inode_lock root_dir_inum) u l) (λ _. pure r))
      released r u l (el, p) = rw el (returns (refl, p))

  pub opened-HandleMade :
      (s : Fs) (r : Option ℕ) (u : Fs) (l : Held)
      → t.fs_params ≡ s.fs_params
      → t.open_file_table ≡ s.open_file_table
      → t.free_open_file_entries ≡ s.free_open_file_entries
      → Added t v i offset [] r u l
      → HandleMade s i offset r u
  opened-HandleMade s r u l params table frees (el, inl (h, er, closed, in_table, eu)) = rw eu (
      inl (
        h,
        er,
        record {
          is_new = λ o. closed (rw (params, frees) o);
          is_open = ground arith;
          handle = ground arith;
          handles = λ k o. kept k (rw (params, frees) o);
        },
      ))
    where
      kept :
          (k : ℕ)
          → IsHandle t k
          → IsHandle (opened t v h i offset) k
            × ((opened t v h i offset).open_file_table k ≡ s.open_file_table k)
      kept k o = ground (arith, ap (λ f. f k) table)
  opened-HandleMade s r u l params table frees (el, inr (er, eu, full)) =
      rw eu (inr (er, table, rw (params, frees) at full))

-- What the file holds after the call, and the offset of the new handle
abbrev pub text_after : Fs → ℕ → ℕ → List ℕ
text_after s mode i = if has_flag mode tfs_o_trunc then [] else content s i

abbrev pub offset_after : Fs → ℕ → ℕ → ℕ
offset_after s mode i = if has_flag mode tfs_o_append then length (text_after s mode i) else 0
