-- ===== src/Tfs/Changes.antt =====
-- The changes of state that opening and removing files are made of, and that they keep the file
-- system valid.
pub mod Entries
use mbroker_tfs.Base.{
  ℕ, zero, ◌+◌, ◌-◌, ◌≤◌, ◌<◌, ◌≡◌, ◌≢◌, refl, sym, ap, ◌∙◌, true, Option, none, some, List, Array,
  update, arith, ◌==◌, if◌then◌else◌, take, ltb, ℕ_discrete,
}
use mbroker_tfs.Tfs.State.{
  t_file, Allocation, free, taken, DirEntry, Inode, OpenFile, entries, Tfs, max_dir_entries,
}
use mbroker_tfs.Tfs.Invariant.{
  as_bytes, dir, block_of, content, IsInUse, IsFile, IsBlock, IsStore, IsDir, IsEntry, IsHandle,
  IsOpens, IsValid,
}

-- No open handle of file `i` has moved from the start.
abbrev pub IsUnmoved : Tfs → ℕ → Type 0
IsUnmoved s i =
    (h : ℕ)
    → IsHandle s h
    → (s.open_file_table h).of_inumber ≡ i
    → (s.open_file_table h).of_offset ≡ 0

-- File `i` is not open.
abbrev pub IsClosed : Tfs → ℕ → Type 0
IsClosed s i = (h : ℕ) → IsHandle s h → (s.open_file_table h).of_inumber ≢ i

-- No entry of the directory is of file `i`.
abbrev pub IsUnnamed : Tfs → ℕ → Type 0
IsUnnamed s i = (k : ℕ) → ¬ IsEntry (max_dir_entries s) (dir s) k i

pub IsDir-map :
    {n : ℕ} {es : Array DirEntry} {P Q : ℕ → Type 0}
    → IsDir n es P
    → ((k i : ℕ) → IsEntry n es k i → P i → Q i)
    → IsDir n es Q
IsDir-map d f = record {
  in_use = λ k i e. f k i e (d.in_use k i e);
  short = d.short;
  blank = d.blank;
  files_apart = d.files_apart;
  names_apart = d.names_apart;
}

module _ (s : Tfs) (v : IsValid s) where
  abbrev pub opened : ℕ → ℕ → ℕ → Tfs
  opened h i offset = record s {
    free_open_file_entries = update s.free_open_file_entries h taken;
    open_file_table = update s.open_file_table h (record { of_inumber = i; of_offset = offset });
  }

  abbrev pub closed : ℕ → Tfs
  closed h = record s { free_open_file_entries = update s.free_open_file_entries h free }

  abbrev pub truncated : ℕ → Tfs
  truncated i = record s {
    free_blocks = update s.free_blocks (block_of (s.inode_table i)) free;
    inode_table = update s.inode_table i (record (s.inode_table i) { i_size = 0 });
  }

  abbrev pub created : ℕ → Tfs
  created i = record s {
    freeinode_ts = update s.freeinode_ts i taken;
    inode_table =
        update s.inode_table i (record { i_node_type = t_file; i_size = 0; i_data_block = none });
  }

  -- The block is given back only if the file is not empty.
  abbrev pub deleted : ℕ → Tfs
  deleted i = record s {
    free_blocks =
        if ltb 0 (s.inode_table i).i_size
        then update s.free_blocks (block_of (s.inode_table i)) free
        else s.free_blocks;
    freeinode_ts = update s.freeinode_ts i free;
  }

  IsStore-same_disk :
      (table : Array OpenFile) (frees : Array Allocation)
      → IsStore (record s { open_file_table = table; free_open_file_entries = frees })
  IsStore-same_disk table frees = record {
    mounted = v.0.mounted;
    block_bound = v.0.block_bound;
    some_inode = v.0.some_inode;
    some_block = v.0.some_block;
    root_taken = v.0.root_taken;
    root_type = v.0.root_type;
    root_block = v.0.root_block;
    root_block_taken = v.0.root_block_taken;
    root_entries = v.0.root_entries;
    data_bytes = v.0.data_bytes;
    file = v.0.file;
    apart = v.0.apart;
  }

  pub opened-IsValid :
      (h i offset : ℕ)
      → IsInUse s i
      → offset ≤ (s.inode_table i).i_size
      → IsValid (opened h i offset)
  opened-IsValid h i offset u within = (
    IsStore-same_disk _ _,
    v.1,
    record {
      in_use = λ k o. ground (arith, v.2.in_use k);
      within = λ k o. ground (arith, v.2.within k);
    },
  )

  pub closed-IsValid : (h : ℕ) → IsValid (closed h)
  closed-IsValid h = (
    IsStore-same_disk _ _,
    v.1,
    record {
      in_use = λ k o. ground (arith, v.2.in_use k);
      within = λ k o. ground (arith, v.2.within k);
    },
  )

  module _ (i : ℕ) (u : IsInUse s i) (full : 0 < (s.inode_table i).i_size) where
    truncated-IsStore : IsStore (truncated i)
    truncated-IsStore = record {
      mounted = v.0.mounted;
      block_bound = v.0.block_bound;
      some_inode = v.0.some_inode;
      some_block = v.0.some_block;
      root_taken = v.0.root_taken;
      root_type = ground (arith, v.0.root_type);
      root_block = ground (arith, v.0.root_block);
      root_block_taken = ground (arith, v.0.root_block_taken, v.0.file i u);
      root_entries = v.0.root_entries;
      data_bytes = v.0.data_bytes;
      file = λ j w. ground (arith, v.0.file j w, v.0.apart i j u w);
      apart = λ j k w x p q e. ground (arith, v.0.apart j k w x);
    }

    pub truncated-IsValid : IsUnmoved s i → IsValid (truncated i)
    truncated-IsValid unmoved = (
      truncated-IsStore,
      v.1,
      record { in_use = v.2.in_use; within = λ h o. ground (arith, v.2.within h o, unmoved h o) },
    )

  module _ (i : ℕ) (in_table : i < s.fs_params.max_inode_count)
      (unused : s.freeinode_ts i ≡ free) where
    created-IsStore : IsStore (created i)
    created-IsStore = record {
      mounted = v.0.mounted;
      block_bound = v.0.block_bound;
      some_inode = v.0.some_inode;
      some_block = v.0.some_block;
      root_taken = ground (arith, v.0.root_taken);
      root_type = ground (arith, v.0.root_type, v.0.root_taken);
      root_block = ground (arith, v.0.root_block, v.0.root_taken);
      root_block_taken = v.0.root_block_taken;
      root_entries = v.0.root_entries;
      data_bytes = v.0.data_bytes;
      file = λ j w. ground (arith, v.0.file j);
      apart = λ j k w x p q e. ground (arith, v.0.apart j k);
    }

    pub created-IsInUse : IsInUse (created i) i
    created-IsInUse = ground (arith, v.0.root_taken)

    pub created-IsValid : IsValid (created i)
    created-IsValid = (
      created-IsStore,
      IsDir-map v.1 (λ k j e w. ground arith),
      record {
        in_use = λ h o. ground (arith, v.2.in_use h o);
        within = λ h o. ground (arith, v.2.within h o, v.2.in_use h o);
      },
    )

    -- The new file has no entry, and is not open.
    pub created-IsUnnamed : IsUnnamed (created i) i
    created-IsUnnamed k e = ground (arith, v.1.in_use k i e)

    pub created-IsClosed : IsClosed (created i) i
    created-IsClosed h o e = ground (arith, v.2.in_use h o)

  module _ (i : ℕ) (u : IsInUse s i) (unnamed : IsUnnamed s i) (unopened : IsClosed s i) where
    deleted-IsStore : IsStore (deleted i)
    deleted-IsStore = record {
      mounted = v.0.mounted;
      block_bound = v.0.block_bound;
      some_inode = v.0.some_inode;
      some_block = v.0.some_block;
      root_taken = ground (arith, v.0.root_taken);
      root_type = v.0.root_type;
      root_block = v.0.root_block;
      root_block_taken = ground (arith, v.0.root_block_taken, v.0.file i u);
      root_entries = v.0.root_entries;
      data_bytes = v.0.data_bytes;
      file = λ j w. ground (arith, v.0.file j, v.0.file i u, v.0.apart i j u);
      apart = λ j k w x p q e. ground (arith, v.0.apart j k);
    }

    pub deleted-IsValid : IsValid (deleted i)
    deleted-IsValid = (
      deleted-IsStore,
      IsDir-map v.1 (λ k j e w. ground (arith, unnamed k)),
      record { in_use = λ h o. ground (arith, v.2.in_use h o, unopened h o); within = v.2.within },
    )
