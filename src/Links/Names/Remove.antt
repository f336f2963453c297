-- ===== src/Links/Names/Remove.antt =====
-- The states in which a name, and with the last name the file, is removed.
use mbroker_tfs.Base.{
  ℕ, ◌+◌, ◌<◌, ◌≡◌, ◌≢◌, ◌⊎◌, refl, inl, weight-le-total, CString, c_str, arith, ℕ_discrete,
}
use mbroker_tfs.Tfs.State.{free}
use mbroker_tfs.Tfs.Invariant.{IsEntry}
use mbroker_tfs.Links.State.{Fs, max_dir_entries}
use mbroker_tfs.Links.Invariant.{
  dir, content, IsInUse, IsStore, IsDir, IsOpens, IsHandle, IsValid, refers, names_of,
}
use mbroker_tfs.Links.Lookup.{Names}
use mbroker_tfs.Links.Changes.{IsDir-map, IsDir-clear, with_dir-IsStore, deleted, deleted-IsStore}
use mbroker_tfs.Links.Steps.{cleared, names_of-cleared, IsClosed}
use mbroker_tfs.Links.Entry.{OthersNamed, content-with_dir, cleared-gone, cleared-OthersNamed}

-- Only entry `k` has the number `i`, if this has one name.
pub entry_alone :
    (s : Fs) (v : IsStore s) (k l i : ℕ)
    → names_of s i ≡ 1
    → IsEntry (max_dir_entries s) (dir s) k i
    → IsEntry (max_dir_entries s) (dir s) l i
    → l ≡ k
entry_alone s v k l i one e f = elim (ℕ_discrete l k) [
  | yes same ↦ same
  | no ne ↦
      let less = names_of-cleared s v k i i e.0 e.1 in
      let some_weight =
        weight-le-total (refers i) (max_dir_entries s) l (dir (cleared s v k)) f.0 in
      absurd (ground (arith, less, some_weight, f.1, one))
]

-- The name is gone. The other names, and the files but `i`, are as before.
pub record Unnamed (s : Fs) (name : CString) (i : ℕ) (t : Fs) : Type 0 where
  pub valid : IsValid t
  pub gone : (j : ℕ) → ¬ Names t name j
  pub others_named : OthersNamed s name t
  pub files : (j : ℕ) → IsInUse s j → j ≢ i → IsInUse t j × (content t j ≡ content s j)
  pub handles : t.open_file_table ≡ s.open_file_table
  pub is_open : t.free_open_file_entries ≡ s.free_open_file_entries

-- What becomes of the file: it is deleted with its last name, and else has one link less.
abbrev pub Dropped : Fs → ℕ → Fs → Type 0
Dropped s i t =
    ((names_of s i ≡ 1) × (t.freeinode_ts i ≡ free))
    ⊎ ((1 < names_of s i)
        × IsInUse t i
        × (content t i ≡ content s i)
        × ((t.inode_table i).i_hard_links + 1 ≡ (s.inode_table i).i_hard_links))

-- A valid file system, but for the count of links of `i`
pub record IsValidBut (i : ℕ) (s : Fs) : Type 0 where
  pub store : IsStore s
  pub names : IsDir (max_dir_entries s) (dir s) (IsInUse s)
  pub opens : IsOpens (IsHandle s) s.open_file_table (IsInUse s) s.inode_table
  pub counted : (j : ℕ) → IsInUse s j → j ≢ i → (s.inode_table j).i_hard_links ≡ names_of s j

pub IsValid-IsValidBut : (s : Fs) (i : ℕ) → IsValid s → IsValidBut i s
IsValid-IsValidBut s i v = record {
  store = v.store;
  names = v.names;
  opens = v.opens;
  counted = λ j u ne. v.counted j u;
}

-- The last name of `i`, in entry `k`, is removed, and `i` is deleted.
module _ (s : Fs) (i : ℕ) (b : IsValidBut i s) (u : IsInUse s i) (k : ℕ)
    (entry : IsEntry (max_dir_entries s) (dir s) k i) (one : names_of s i ≡ 1)
    (closed : IsClosed s i) where
  abbrev pub without_file : Fs
  without_file = deleted s b.store i

  pub without_file-IsStore : IsStore without_file
  without_file-IsStore = deleted-IsStore s b.store i u

  abbrev pub removed : Fs
  removed = cleared without_file without_file-IsStore k

  elsewhere : (l j : ℕ) → IsEntry (max_dir_entries s) (dir removed) l j → j ≢ i
  elsewhere l j e same = let here = entry_alone s b.store k l i one entry in ground (arith, here)

  pub removed-IsValid : IsValid removed
  removed-IsValid = record {
    store = with_dir-IsStore without_file without_file-IsStore _;
    names = IsDir-map (IsDir-clear b.names k) (λ l j e w. ground (arith, elsewhere l j e));
    counted = λ j w.
        let ne : j ≢ i = ground arith in
        let less = names_of-cleared s b.store k i j entry.0 entry.1 in
        ground (arith, less, b.counted j, ne);
    opens = record {
      in_use = λ h o. ground (arith, b.opens.in_use h o, closed h o);
      type = b.opens.type;
      within = b.opens.within;
    };
  }

  removed-content : (j : ℕ) → IsInUse s j → j ≢ i → content removed j ≡ content s j
  removed-content j w ne = content-with_dir without_file without_file-IsStore _ j (ground arith)

  pub removed-Unnamed :
      (name : CString) → c_str (dir s k).d_name ≡ c_str name → Unnamed s name i removed
  removed-Unnamed name same = record {
    valid = removed-IsValid;
    gone = cleared-gone without_file without_file-IsStore k name i b.names entry same;
    others_named =
        cleared-OthersNamed without_file without_file-IsStore k name i b.names entry same;
    files = λ j w ne. (ground arith, removed-content j w ne);
    handles = refl;
    is_open = refl;
  }

  pub removed-Dropped : Dropped s i removed
  removed-Dropped = inl (one, ground arith)
