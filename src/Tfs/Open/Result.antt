-- ===== src/Tfs/Open/Result.antt =====
-- `tfs_open`: the whole call.
use mbroker_tfs.Base.{ℕ, ◌<◌, ◌≡◌, ◌⊎◌, true, false, Option, none, CString}
use mbroker_tfs.Tfs.State.{free, Tfs, ◌>>◌}
use mbroker_tfs.Tfs.Invariant.{IsValid}
use mbroker_tfs.Tfs.Returns.{Returns}
use mbroker_tfs.Tfs.Dir.Lookup.{Names}
use mbroker_tfs.Tfs.Changes.{deleted}
use mbroker_tfs.Tfs.Open.{has_flag, tfs_o_creat}
use mbroker_tfs.Tfs.Open.Existing.{Opened, text_after, offset_after}
use mbroker_tfs.Tfs.Open.Create.{Created, made, made-IsValid}

module _ (s : Tfs) (v : IsValid s) (name : CString) (absent : (j : ℕ) → ¬ Names s name j) where
  module _ (i : ℕ) (in_table : i < s.fs_params.max_inode_count)
      (unused : s.freeinode_ts i ≡ free) where
    abbrev after : Tfs
    after = made s v name absent i in_table unused

    after-IsValid : IsValid after
    after-IsValid = made-IsValid s v name absent i in_table unused

    -- Giving the inode back after a failed `add_dir_entry`
    abbrev undone : Tfs
    undone = deleted after after-IsValid i

-- The three ways in which a call of `tfs_open` ends.
abbrev pub OpenResult : Tfs → CString → ℕ → Option ℕ → Tfs → Type 0
OpenResult s name mode r t =
    ((i : ℕ) × Names s name i × Opened s name i (text_after s mode i) (offset_after s mode i) r t)
    ⊎ (((i : ℕ) → ¬ Names s name i) × (has_flag mode tfs_o_creat ≡ true) × Created s name r t)
    ⊎ (((i : ℕ) → ¬ Names s name i) × (has_flag mode tfs_o_creat ≡ false) × (r ≡ none) × (t ≡ s))
