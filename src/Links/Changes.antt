-- ===== src/Links/Changes.antt =====
-- The changes of state that making and removing links consist of, and what they keep.
use mbroker_tfs.Base.{
  ℕ, ◌<◌, ◌≡◌, ◌≢◌, refl, some, Array, update, c_str, strlen, arith, if◌then◌else◌, ltb,
}
use mbroker_tfs.Tfs.State.{free, DirEntry, entries, max_file_name}
use mbroker_tfs.Tfs.Dir.{cleared_entry}
use mbroker_tfs.Tfs.Invariant.{IsEntry}
use mbroker_tfs.Tfs.Changes.Entries.{c_str-cleared_entry}
use mbroker_tfs.Links.State.{t_file, Fs}
use mbroker_tfs.Links.Invariant.{block_of, IsInUse, IsStore, IsDir}

pub IsDir-map :
    {n : ℕ} {es : Array DirEntry} {P Q : ℕ → Type 0}
    → IsDir n es P
    → ((k i : ℕ) → IsEntry n es k i → P i → Q i)
    → IsDir n es Q
IsDir-map d f = record {
  in_use = λ k i e. f k i e (d.in_use k i e);
  short = d.short;
  blank = d.blank;
  names_apart = d.names_apart;
}

module _ {n : ℕ} {es : Array DirEntry} {InUse : ℕ → Type 0} (d : IsDir n es InUse) (k : ℕ) where
  -- A new entry, with a name that no other entry has
  pub IsDir-put :
      (new : DirEntry) (i : ℕ)
      → new.d_inumber ≡ some i
      → InUse i
      → strlen new.d_name < max_file_name
      → ((l j : ℕ) → IsEntry n es l j → c_str (es l).d_name ≢ c_str new.d_name)
      → IsDir n (update es k new) InUse
  IsDir-put new i number u short fresh = record {
    in_use = λ l j e. ground (arith, d.in_use l j);
    short = λ l j e. ground (arith, d.short l j);
    blank = λ l h e. ground (arith, d.blank l h);
    names_apart = λ l m j x e f same. ground (arith, d.names_apart l m j x, fresh l j, fresh m x);
  }

  pub IsDir-clear : IsDir n (update es k cleared_entry) InUse
  IsDir-clear = record {
    in_use = λ l j e. ground (arith, d.in_use l j);
    short = λ l j e. ground (arith, d.short l j);
    blank = λ l h e. ground (arith, d.blank l h, c_str-cleared_entry);
    names_apart = λ l m j x e f same. ground (arith, d.names_apart l m j x);
  }

module _ (s : Fs) (v : IsStore s) where
  -- The directory's block is written.
  abbrev pub with_dir : Array DirEntry → Fs
  with_dir es = record s { fs_data = update s.fs_data 0 (entries es) }

  pub with_dir-IsStore : (es : Array DirEntry) → IsStore (with_dir es)
  with_dir-IsStore es = record {
    mounted = v.mounted;
    block_bound = v.block_bound;
    some_inode = v.some_inode;
    some_block = v.some_block;
    root_taken = v.root_taken;
    root_type = v.root_type;
    root_block = v.root_block;
    root_block_taken = v.root_block_taken;
    root_entries = refl;
    data_bytes = λ b p. ground (arith, v.data_bytes b p);
    file = v.file;
    target = λ i u e. ground (arith, v.target i u e, v.file i u);
    apart = v.apart;
  }

  -- Only the number of links of `i` changes.
  abbrev pub with_links : ℕ → ℕ → Fs
  with_links i m = record s {
    inode_table = update s.inode_table i (record (s.inode_table i) { i_hard_links = m });
  }

  pub with_links-IsStore :
      (i m : ℕ) → (s.inode_table i).i_node_type ≡ t_file → IsStore (with_links i m)
  with_links-IsStore i m type = record {
    mounted = v.mounted;
    block_bound = v.block_bound;
    some_inode = v.some_inode;
    some_block = v.some_block;
    root_taken = v.root_taken;
    root_type = ground (arith, v.root_type);
    root_block = ground (arith, v.root_block);
    root_block_taken = v.root_block_taken;
    root_entries = v.root_entries;
    data_bytes = v.data_bytes;
    file = λ j u. ground (arith, v.file j u);
    target = λ j u. ground (arith, v.target j u);
    apart = λ j k u w p q e. ground (arith, v.apart j k u w);
  }

  -- The inode is given back, and its block if it has one.
  abbrev pub deleted : ℕ → Fs
  deleted i = record s {
    free_blocks =
        if ltb 0 (s.inode_table i).i_size
        then update s.free_blocks (block_of (s.inode_table i)) free
        else s.free_blocks;
    freeinode_ts = update s.freeinode_ts i free;
  }

  pub deleted-IsStore : (i : ℕ) → IsInUse s i → IsStore (deleted i)
  deleted-IsStore i u = record {
    mounted = v.mounted;
    block_bound = v.block_bound;
    some_inode = v.some_inode;
    some_block = v.some_block;
    root_taken = ground (arith, v.root_taken);
    root_type = v.root_type;
    root_block = v.root_block;
    root_block_taken = ground (arith, v.root_block_taken, v.file i u);
    root_entries = v.root_entries;
    data_bytes = v.data_bytes;
    file = λ j w. ground (arith, v.file j, v.file i u, v.apart i j u);
    target = λ j w. ground (arith, v.target j);
    apart = λ j k w x p q e. ground (arith, v.apart j k);
  }
