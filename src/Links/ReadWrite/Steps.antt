-- ===== src/Links/ReadWrite/Steps.antt =====
-- The parts of the two calls: looking up the handle, and the locks.
use mbroker_tfs.Base.{
  ℕ, ◌<◌, ◌≡◌, ◌⊎◌, inl, inr, true, none, some, [], ◌∷◌, length, length-take, arith, Bool-cases,
  ltb, ◌&&◌,
}
use mbroker_tfs.Tfs.State.{is_taken}
use mbroker_tfs.Links.State.{
  Fs, Held, Mode, done, reading, inode_lock, ftable_lock, is_lock, unlock,
}
use mbroker_tfs.Links.OpenFiles.{get_open_file_entry}
use mbroker_tfs.Links.ReadWrite.{unlock_file}
use mbroker_tfs.Tfs.Invariant.{as_bytes}
use mbroker_tfs.Links.Invariant.{block_of, content, IsInUse, IsStore, IsHandle}

pub get_open_file_entry-open :
    (s : Fs) (l : Held) (h : ℕ)
    → IsStore s
    → IsHandle s h
    → get_open_file_entry (some h) s l ≡ done (some (h, s.open_file_table h)) s l
unfolding get_open_file_entry
get_open_file_entry-open s l h v o = ground (arith, v.mounted)

pub get_open_file_entry-closed :
    (s : Fs) (l : Held) (h : ℕ)
    → IsStore s
    → ¬ (IsHandle s h)
    → get_open_file_entry (some h) s l ≡ done none s l
unfolding get_open_file_entry
get_open_file_entry-closed s l h v o = ground (arith, v.mounted)

pub IsHandle-dec : (s : Fs) (h : ℕ) → IsHandle s h ⊎ (¬ IsHandle s h)
IsHandle-dec s h =
    elim (Bool-cases
      (ltb h s.fs_params.max_open_files_count && is_taken (s.free_open_file_entries h))) [
        | inl e ↦ inl (ground arith)
        | inr e ↦ inr (λ o. ground arith)
      ]

-- The locks of the two calls exist.
pub ftable_lock-is_lock :
    (s : Fs) (h : ℕ)
    → IsStore s
    → h < s.fs_params.max_open_files_count
    → is_lock (ftable_lock h) s ≡ true
ftable_lock-is_lock s h v o = ground (arith, v.mounted)

pub inode_lock-is_lock :
    (s : Fs) (i : ℕ) → IsStore s → IsInUse s i → is_lock (inode_lock i) s ≡ true
inode_lock-is_lock s i v u = ground (arith, v.mounted)

-- Both locks are released.
pub unlock_file-done :
    (s : Fs) (h i : ℕ) (m : Mode)
    → unlock_file h i s ((inode_lock i, m) ∷ (ftable_lock h, reading) ∷ []) ≡ done tt s []
unfolding unlock_file unlock
unlock_file-done s h i m = ground arith

-- The contents are as long as the size says.
pub length-content :
    (s : Fs) (v : IsStore s) (i : ℕ) → IsInUse s i → length (content s i) ≡ (s.inode_table i).i_size
length-content s v i u = ground (
  arith,
  length-take {0} (s.inode_table i).i_size (as_bytes (s.fs_data (block_of (s.inode_table i)))),
  v.file i u,
  v.data_bytes (block_of (s.inode_table i)),
)
