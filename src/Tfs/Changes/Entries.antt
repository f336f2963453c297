-- ===== src/Tfs/Changes/Entries.antt =====
-- Filling and clearing an entry of the directory keep it valid.
use mbroker_tfs.Base.{
  ℕ, ◌≤◌, ◌<◌, ◌≡◌, ◌≢◌, refl, ap, ◌∙◌, some, [], length, Array, update, CString, c_str, strlen,
  c_str-strncpy, arith, ℕ_discrete,
}
use mbroker_tfs.Tfs.State.{DirEntry, entries, Tfs, max_dir_entries, max_file_name}
use mbroker_tfs.Tfs.Invariant.{dir, content, block_of, IsInUse, IsStore, IsDir, IsEntry, IsValid}
use mbroker_tfs.Tfs.Dir.{fill_entry, cleared_entry}
use mbroker_tfs.Tfs.Dir.Lookup.{Names}
use mbroker_tfs.Tfs.Changes.{IsUnnamed}

pub c_str-fill_entry :
    (e : DirEntry) (name : CString) (i : ℕ)
    → strlen name ≤ 39
    → c_str (fill_entry e name i).d_name ≡ c_str name
c_str-fill_entry e name i h = c_str-strncpy 39 e.d_name name h

pub c_str-cleared_entry : c_str cleared_entry.d_name ≡ []
unfolding c_str
c_str-cleared_entry = refl

pub strlen-eq : (s t : CString) → c_str s ≡ c_str t → strlen s ≡ strlen t
unfolding strlen
strlen-eq s t e = ap (λ x. length x) e

module _ {n : ℕ} {es : Array DirEntry} {InUse : ℕ → Type 0} (d : IsDir n es InUse) (k : ℕ) where
  -- A new entry, with a name and a number that no other entry has
  IsDir-put :
      (new : DirEntry) (i : ℕ)
      → new.d_inumber ≡ some i
      → InUse i
      → strlen new.d_name < max_file_name
      → ((l : ℕ) → ¬ IsEntry n es l i)
      → ((l j : ℕ) → IsEntry n es l j → c_str (es l).d_name ≢ c_str new.d_name)
      → IsDir n (update es k new) InUse
  IsDir-put new i number u short unnamed fresh = record {
    in_use = λ l j e. ground (arith, d.in_use l j);
    short = λ l j e. ground (arith, d.short l j);
    blank = λ l h e. ground (arith, d.blank l h);
    files_apart = λ l m j e f. ground (arith, d.files_apart l m j, unnamed l, unnamed m);
    names_apart = λ l m j x e f same. ground (arith, d.names_apart l m j x, fresh l j, fresh m x);
  }

  IsDir-clear : IsDir n (update es k cleared_entry) InUse
  IsDir-clear = record {
    in_use = λ l j e. ground (arith, d.in_use l j);
    short = λ l j e. ground (arith, d.short l j);
    blank = λ l h e. ground (arith, d.blank l h, c_str-cleared_entry);
    files_apart = λ l m j e f. ground (arith, d.files_apart l m j);
    names_apart = λ l m j x e f same. ground (arith, d.names_apart l m j x);
  }

-- `name` may stand in the directory: it has between 1 and 39 characters.
abbrev pub IsName : CString → Type 0
IsName name = (0 < strlen name) × (strlen name < max_file_name)

module _ (s : Tfs) (v : IsValid s) (k : ℕ) where
  abbrev pub filled : CString → ℕ → Tfs
  filled name i = record s {
    fs_data = update s.fs_data 0 (entries (update (dir s) k (fill_entry (dir s k) name i)));
  }

  abbrev pub cleared : Tfs
  cleared = record s { fs_data = update s.fs_data 0 (entries (update (dir s) k cleared_entry)) }

  IsStore-put_dir :
      (es : Array DirEntry) → IsStore (record s { fs_data = update s.fs_data 0 (entries es) })
  IsStore-put_dir es = record {
    mounted = v.0.mounted;
    block_bound = v.0.block_bound;
    some_inode = v.0.some_inode;
    some_block = v.0.some_block;
    root_taken = v.0.root_taken;
    root_type = v.0.root_type;
    root_block = v.0.root_block;
    root_block_taken = v.0.root_block_taken;
    root_entries = refl;
    data_bytes = λ b p. ground (arith, v.0.data_bytes b p);
    file = v.0.file;
    apart = v.0.apart;
  }

  pub filled-IsValid :
      (name : CString) (i : ℕ)
      → IsInUse s i
      → IsName name
      → IsUnnamed s i
      → ((j : ℕ) → ¬ Names s name j)
      → IsValid (filled name i)
  filled-IsValid name i u good unnamed fresh =
      let called = c_str-fill_entry (dir s k) name i (omega arith) in
      (
        IsStore-put_dir (update (dir s) k (fill_entry (dir s k) name i)),
        IsDir-put v.1 k (fill_entry (dir s k) name i) i refl u
            (omega (arith, strlen-eq (fill_entry (dir s k) name i).d_name name called)) unnamed
            (λ l j e same. fresh j (l, e, same ∙ called)),
        v.2,
      )

  pub cleared-IsValid : IsValid cleared
  cleared-IsValid = (IsStore-put_dir (update (dir s) k cleared_entry), IsDir-clear v.1 k, v.2)

  -- The contents of files do not change with the directory.
  pub content-put_dir :
      (es : Array DirEntry) (i : ℕ)
      → IsInUse s i
      → content (record s { fs_data = update s.fs_data 0 (entries es) }) i ≡ content s i
  content-put_dir es i u = elim (ℕ_discrete (s.inode_table i).i_size 0) [
    | yes e ↦ rw e
    | no e ↦ rw (away (omega arith))
  ]
    where
      away :
          0 < (s.inode_table i).i_size
          → update s.fs_data 0 (entries es) (block_of (s.inode_table i))
            ≡ s.fs_data (block_of (s.inode_table i))
      away p = ground (arith, v.0.file i u)

  -- A name of the directory after a change of entry `k`: at `k` the new one, elsewhere the old ones.
  pub cleared-IsUnnamed : (i : ℕ) → IsEntry (max_dir_entries s) (dir s) k i → IsUnnamed cleared i
  cleared-IsUnnamed i e l f = ground (arith, v.1.files_apart k l i e)
