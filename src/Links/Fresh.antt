-- ===== src/Links/Fresh.antt =====
-- A free inode: no entry and no handle is of it.
use mbroker_tfs.Base.{
  ℕ, ◌<◌, ◌≡◌, ◌≢◌, refl, ap, ◌∙◌, inl, inr, some, total_none, arith, Option-cases,
}
use mbroker_tfs.Tfs.State.{free}
use mbroker_tfs.Tfs.Invariant.{IsEntry}
use mbroker_tfs.Links.State.{Fs, max_dir_entries}
use mbroker_tfs.Links.Invariant.{dir, IsHandle, IsValid, refers, names_of}

module _ (s : Fs) (v : IsValid s) (i : ℕ) (unused : s.freeinode_ts i ≡ free) where
  pub unnamed : (k : ℕ) → ¬ IsEntry (max_dir_entries s) (dir s) k i
  unnamed k e = ground (arith, v.names.in_use k i e, unused)

  pub unopened : (h : ℕ) → IsHandle s h → (s.open_file_table h).of_inumber ≢ i
  unopened h o e = ground (arith, v.opens.in_use h o, unused)

  pub no_names : names_of s i ≡ 0
  no_names = total_none (refers i) (max_dir_entries s) (dir s) (λ k h. weightless k h)
    where
      weightless : (k : ℕ) → k < max_dir_entries s → refers i (dir s k) ≡ 0
      weightless k h = elim (Option-cases (dir s k).d_inumber) [
        | inl z ↦ rw z refl
        | inr (j, z) ↦
            let ne : j ≢ i = λ e. unnamed k (h, z ∙ ap some e) in rw z (ground (arith, ne))
      ]
