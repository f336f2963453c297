-- ===== src/Tfs/Unlink/Remove.antt =====
-- `tfs_unlink` on a valid file system.
use mbroker_tfs.Base.{ℕ, ◌≡◌, ◌≢◌, ◌⊎◌, ◌↔◌, Bool, true, false, CString, c_str, arith}
use mbroker_tfs.Tfs.State.{free, data_block_free, Tfs, done}
use mbroker_tfs.Tfs.Invariant.{content, IsInUse, IsValid}
use mbroker_tfs.Tfs.Returns.{Returns}
use mbroker_tfs.Tfs.Inodes.{inode_delete}
use mbroker_tfs.Tfs.Dir.Lookup.{Names}
use mbroker_tfs.Tfs.Changes.{IsClosed, deleted}
use mbroker_tfs.Tfs.Changes.Entries.{cleared, cleared-IsValid}

pub inode_delete-done :
    (s : Tfs) (i : ℕ) (v : IsValid s) → IsInUse s i → inode_delete i s ≡ done tt (deleted s v i)
unfolding inode_delete data_block_free
inode_delete-done s i v u = ground (arith, v.0.file i u)

-- File `i` of name `name` is gone, and all else is as before.
pub record Removed (s : Tfs) (name : CString) (i : ℕ) (t : Tfs) : Type 0 where
  pub valid : IsValid t
  pub unused : t.freeinode_ts i ≡ free
  pub gone : (j : ℕ) → ¬ Names t name j
  pub others_named :
      (other : CString) (j : ℕ) → c_str other ≢ c_str name → Names s other j ↔ Names t other j
  pub others : (j : ℕ) → IsInUse s j → j ≢ i → IsInUse t j × (content t j ≡ content s j)
  pub handles : t.open_file_table ≡ s.open_file_table

module _ (s : Tfs) (v : IsValid s) (name : CString) (i : ℕ) (named : Names s name i)
    (closed : IsClosed s i) where
  abbrev k : ℕ
  k = named.0

  abbrev without_name : Tfs
  without_name = cleared s v k

  abbrev without_file : Tfs
  without_file = deleted without_name (cleared-IsValid s v k) i

-- The file of the name is removed, or there is none and nothing changes.
abbrev pub UnlinkResult : Tfs → CString → Bool → Tfs → Type 0
UnlinkResult s name r t =
    ((r ≡ true) × (i : ℕ) × Names s name i × Removed s name i t)
    ⊎ ((r ≡ false) × (t ≡ s) × ((i : ℕ) → ¬ Names s name i))
