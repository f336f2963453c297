-- ===== src/Links/Entry.antt =====
-- A directory with one entry more or one less: its names, and the files.
use mbroker_tfs.Base.{
  ℕ, ◌<◌, ◌≡◌, ◌≢◌, ◌↔◌, refl, ap, ap₂, ◌∙◌, Array, update, CString, c_str, arith, ℕ_discrete, take,
}
use mbroker_tfs.Tfs.State.{DirEntry, entries}
use mbroker_tfs.Tfs.Dir.{fill_entry}
use mbroker_tfs.Tfs.Invariant.{as_bytes, number, IsEntry}
use mbroker_tfs.Tfs.Changes.Entries.{c_str-fill_entry, strlen-eq}
use mbroker_tfs.Links.State.{Fs, max_dir_entries}
use mbroker_tfs.Links.Invariant.{dir, block_of, content, IsInUse, IsStore, IsDir}
use mbroker_tfs.Links.Lookup.{Names}
use mbroker_tfs.Links.Changes.{IsDir-put, with_dir, with_links}
use mbroker_tfs.Links.Steps.{CanEnter, filled, cleared}

-- All names but one are as before.
abbrev pub OthersNamed : Fs → CString → Fs → Type 0
OthersNamed s name t =
    (other : CString) (j : ℕ) → c_str other ≢ c_str name → Names s other j ↔ Names t other j

-- The files that are in use stay so, with their contents.
abbrev pub Keeps : Fs → Fs → Type 0
Keeps s t = (j : ℕ) → IsInUse s j → IsInUse t j × (content t j ≡ content s j)

module _ (s : Fs) (v : IsStore s) where
  -- The contents of files do not change with the directory.
  pub content-with_dir :
      (es : Array DirEntry) (j : ℕ) → IsInUse s j → content (with_dir s v es) j ≡ content s j
  content-with_dir es j u = elim (ℕ_discrete (s.inode_table j).i_size 0) [
    | yes e ↦ rw e refl
    | no e ↦ rw (away (omega arith)) refl
  ]
    where
      away :
          0 < (s.inode_table j).i_size
          → update s.fs_data 0 (entries es) (block_of (s.inode_table j))
            ≡ s.fs_data (block_of (s.inode_table j))
      away p = ground (arith, v.file j u)

  pub content-with_links : (i m j : ℕ) → content (with_links s v i m) j ≡ content s j
  content-with_links i m j =
      let size : ((with_links s v i m).inode_table j).i_size ≡ (s.inode_table j).i_size =
        ground arith in
      let block : ((with_links s v i m).inode_table j).i_data_block
          ≡ (s.inode_table j).i_data_block =
        ground arith in
      ap₂ (λ n b. take n (as_bytes (s.fs_data (number b)))) size block

  module _ (k : ℕ) (name : CString) (i : ℕ) (can : CanEnter s name k) where
    called : c_str (fill_entry (dir s k) name i).d_name ≡ c_str name
    called = c_str-fill_entry (dir s k) name i (omega (arith, can.0))

    at_entry : dir (filled s v k name i) k ≡ fill_entry (dir s k) name i
    at_entry = ground arith

    elsewhere : (l : ℕ) → l ≢ k → dir (filled s v k name i) l ≡ dir s l
    elsewhere l ne = ground arith

    pub filled-IsDir :
        {InUse : ℕ → Type 0}
        → IsDir (max_dir_entries s) (dir s) InUse
        → InUse i
        → IsDir (max_dir_entries s) (dir (filled s v k name i)) InUse
    filled-IsDir d u =
        IsDir-put d k (fill_entry (dir s k) name i) i refl u
          (omega (arith, strlen-eq (fill_entry (dir s k) name i).d_name name called, can.0))
          (λ l j e same. can.3 j (l, e, same ∙ called))

    pub filled-Names : Names (filled s v k name i) name i
    filled-Names = (k, ground (arith, can.1), ap (λ e. c_str e.d_name) at_entry ∙ called)

    pub filled-OthersNamed : OthersNamed s name (filled s v k name i)
    filled-OthersNamed other j ne = (
      (λ (l, e, same). (l, ground (arith, can.2, elsewhere l), ground (arith, can.2, elsewhere l))),
      (λ (l, e, same).
          (l, ground (arith, called, elsewhere l), ground (arith, called, elsewhere l))),
    )

  module _ (k : ℕ) (name : CString) (i : ℕ) {InUse : ℕ → Type 0}
      (d : IsDir (max_dir_entries s) (dir s) InUse)
      (entry : IsEntry (max_dir_entries s) (dir s) k i)
      (same_name : c_str (dir s k).d_name ≡ c_str name) where
    pub cleared-gone : (j : ℕ) → ¬ Names (cleared s v k) name j
    cleared-gone j (l, e, same) = ground (arith, d.names_apart l k j i, entry, same_name)

    pub cleared-OthersNamed : OthersNamed s name (cleared s v k)
    cleared-OthersNamed other j ne = (
      (λ (l, e, same). (l, ground (arith, same_name), ground (arith, same_name))),
      (λ (l, e, same). (l, ground arith, ground arith)),
    )
