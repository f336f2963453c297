-- ===== src/Links/Open/Leak.antt =====
-- Reading from or writing to a handle that is not open, and then opening a file.
use mbroker_tfs.Base.{
  ℕ, ◌≤◌, ◌<◌, ◌≡◌, refl, inl, inr, true, ◌&&◌, none, some, List, [], ◌∷◌, first-some, drop,
  CString, arith, Bool-cases, ltb,
}
use mbroker_tfs.Tfs.State.{root_dir_inum}
use mbroker_tfs.Tfs.Open.{valid_pathname, has_flag, tfs_o_trunc}
use mbroker_tfs.Links.State.{
  t_file, Fs, Held, done, deadlock, and_then, reading, writing, inode_lock, ftable_lock,
}
use mbroker_tfs.Links.OpenFiles.{free_handle}
use mbroker_tfs.Links.Open.{open_at, open_existing, open_found, tfs_open}
use mbroker_tfs.Links.ReadWrite.{write_open, read_open, tfs_write, tfs_read}
use mbroker_tfs.Links.Invariant.{IsInUse, IsStore, IsHandle, IsValid}
use mbroker_tfs.Links.Lookup.{Names, file_named_of_Names}
use mbroker_tfs.Links.Steps.{IsFreeOf, inode_get-done, lock-done}
use mbroker_tfs.Links.Names.Link.{tfs_lookup-done}
use mbroker_tfs.Links.ReadWrite.Steps.{get_open_file_entry-closed, ftable_lock-is_lock}
use mbroker_tfs.Links.Open.Handles.{add_to_open_file_table-deadlock}
use mbroker_tfs.Links.Open.Resolve.{Leads, resolve-Leads}
use mbroker_tfs.Links.Open.Rounds.{Leads-bound, Leads-file}
use mbroker_tfs.Links.Open.NewHandle.{offset_after}
use mbroker_tfs.Links.Open.Existing.{
  truncated, truncated-IsStore, open_resolved-truncated, open_resolved-kept,
}

-- The lock that stays held
abbrev pub leaked : ℕ → Held
leaked h = (ftable_lock h, reading) ∷ []

module _ (s : Fs) (v : IsStore s) (h : ℕ) (in_table : h < s.fs_params.max_open_files_count)
    (closed : ¬ IsHandle s h) where
  pub tfs_write-leaked :
      (buffer : List ℕ) (n : ℕ) → tfs_write (some h) buffer n s [] ≡ done none s (leaked h)
  unfolding tfs_write write_open
  tfs_write-leaked buffer n =
      rw
        (
          lock-done s [] (ftable_lock h) reading (ftable_lock-is_lock s h v in_table) refl,
          get_open_file_entry-closed s (leaked h) h v closed,
        )
        refl

  pub tfs_read-leaked : (n : ℕ) → tfs_read (some h) n s [] ≡ done none s (leaked h)
  unfolding tfs_read read_open
  tfs_read-leaked n =
      rw
        (
          lock-done s [] (ftable_lock h) reading (ftable_lock-is_lock s h v in_table) refl,
          get_open_file_entry-closed s (leaked h) h v closed,
        )
        refl

-- `tfs_open` when the lock of the first free handle has leaked
module _ (s : Fs) (v : IsValid s) (h : ℕ) (first_free : free_handle s ≡ some h) where
  abbrev held : Held
  held = (inode_lock root_dir_inum, writing) ∷ leaked h

  within : h < s.fs_params.max_open_files_count
  within = let (hit, below, _) = first-some _ _ h first_free in below

  not_open : ¬ IsHandle s h
  not_open o = let (hit, below, _) = first-some _ _ h first_free in ground (arith, hit)

  open_at-deadlock :
      (t : Fs) (i offset : ℕ)
      → IsStore t
      → free_handle t ≡ some h
      → h < t.fs_params.max_open_files_count
      → open_at i offset t held ≡ deadlock
  unfolding open_at
  open_at-deadlock t i offset w e below =
      rw (add_to_open_file_table-deadlock t i offset held refl w h e below (ground arith)) refl

  open_existing-deadlock :
      (mode j : ℕ)
      → IsInUse s j
      → (s.inode_table j).i_node_type ≡ t_file
      → open_existing mode j s held ≡ deadlock
  unfolding open_existing
  open_existing-deadlock mode j u file =
      let other : IsFreeOf (inode_lock j) held = ground (arith, u) in
      elim (Bool-cases (has_flag mode tfs_o_trunc && ltb 0 (s.inode_table j).i_size)) [
        | inl e ↦
            let full : 0 < (s.inode_table j).i_size = ground (arith, e) in
            rw (open_resolved-truncated s v j u file full mode held other refl (ground (arith, e)))
              (open_at-deadlock (truncated s v j u file) j (offset_after s mode j)
                (truncated-IsStore s v j u file full) first_free within)
        | inr e ↦
            rw (open_resolved-kept s v j u file mode held other e)
              (open_at-deadlock s j _ v.store first_free within)
      ]

  module _ (path : CString) (mode fuel i j n : ℕ) (ok : valid_pathname (some path) ≡ true)
      (named : Names s (drop 1 path) i) (leads : Leads s i (some j) n)
      (enough : s.fs_params.max_inode_count ≤ fuel) where
    tfs_open-deadlock : tfs_open fuel (some path) mode s (leaked h) ≡ deadlock
    unfolding tfs_open open_found
    tfs_open-deadlock =
        let u : IsInUse s i = v.names.in_use named.0 i named.1 in
        let (used, file) = Leads-file s v u leads in
        rw
          (
            ok,
            inode_get-done s (leaked h) root_dir_inum v.store v.store.some_inode,
            lock-done s (leaked h) (inode_lock 0) writing
                (ground (arith, v.store.mounted, v.store.some_inode)) refl,
            tfs_lookup-done s held path v.store refl ok,
            file_named_of_Names s (drop 1 path) v.names i named,
            resolve-Leads s v held refl fuel i n (some j) u leads
                (omega (arith, Leads-bound s v u leads, enough)),
          )
          (open_existing-deadlock mode j used file)

-- On a valid file system with links and no lock held, `tfs_write` to and `tfs_read` from the first handle that is not
-- open return -1 and keep the handle's lock: a `tfs_open` of a name from which the links lead to a file,
-- whatever its flags, is then given this handle and never returns.
pub tfs_open-leak :
    (s : Fs) (h n : ℕ) (buffer : List ℕ) (path : CString) (mode fuel i j steps : ℕ)
    → IsValid s
    → free_handle s ≡ some h
    → valid_pathname (some path) ≡ true
    → Names s (drop 1 path) i
    → Leads s i (some j) steps
    → s.fs_params.max_inode_count ≤ fuel
    → (and_then (tfs_write (some h) buffer n s []) (λ r. tfs_open fuel (some path) mode) ≡ deadlock)
      × (and_then (tfs_read (some h) n s []) (λ r. tfs_open fuel (some path) mode) ≡ deadlock)
tfs_open-leak s h n buffer path mode fuel i j steps v first_free ok named leads enough =
    let stuck = tfs_open-deadlock s v h first_free path mode fuel i j steps ok named leads enough in
    let below = within s v h first_free in
    let closed = not_open s v h first_free in
    (
      rw (tfs_write-leaked s v.store h below closed buffer n) stuck,
      rw (tfs_read-leaked s v.store h below closed n) stuck,
    )
