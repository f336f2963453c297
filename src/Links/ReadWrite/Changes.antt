-- ===== src/Links/ReadWrite/Changes.antt =====
-- What a write changes in the state, and what it keeps.
use mbroker_tfs.Base.{
  ℕ, ◌+◌, ◌≤◌, ◌<◌, ◌≡◌, ◌≢◌, ap, sym, ◌∙◌, inl, inr, some, List, [], ◌∷◌, update, length, take,
  memcpy_at, length-memcpy_at, take-memcpy_at, ℕ_discrete, arith, ltb, ◌==◌, if◌then◌else◌,
  Bool-cases, total,
}
use mbroker_tfs.Tfs.State.{taken, free, OpenFile, bytes}
use mbroker_tfs.Tfs.Invariant.{as_entries, as_bytes}
use mbroker_tfs.Links.State.{
  t_file, Inode, Fs, Held, done, reading, writing, inode_lock, ftable_lock, unlock, max_dir_entries,
  data_block_get,
}
use mbroker_tfs.Links.Invariant.{
  dir, block_of, content, IsInUse, IsBlock, IsStore, IsHandle, IsOpens, IsValid, refers, names_of,
}
use mbroker_tfs.Links.ReadWrite.{copy_in, advance_write, write_block, unlock_file}

-- The locks that `tfs_write` holds when it writes
abbrev pub write_locks : ℕ → ℕ → Held
write_locks h i = (inode_lock i, writing) ∷ (ftable_lock h, reading) ∷ []

-- Block `b` belongs to file `i` alone.
abbrev pub Owns : Fs → ℕ → ℕ → Type 0
Owns s i b =
    ((s.inode_table i).i_data_block ≡ some b)
    × IsBlock s b
    × ((j : ℕ)
        → IsInUse s j
        → 0 < (s.inode_table j).i_size
        → block_of (s.inode_table j) ≡ b
        → j ≡ i)

module _ (s : Fs) (v : IsValid s) (i b : ℕ) (used : IsInUse s i)
    (type : (s.inode_table i).i_node_type ≡ t_file) (empty : (s.inode_table i).i_size ≡ 0)
    (in_disk : b < s.fs_params.max_block_count) (is_new : s.free_blocks b ≡ free) where
  abbrev pub assigned : Fs
  assigned = record s {
    free_blocks = update s.free_blocks b taken;
    inode_table = update s.inode_table i (record (s.inode_table i) { i_data_block = some b });
  }

  assigned-IsStore : IsStore assigned
  assigned-IsStore = record {
    mounted = v.store.mounted;
    block_bound = v.store.block_bound;
    some_inode = v.store.some_inode;
    some_block = v.store.some_block;
    root_taken = v.store.root_taken;
    root_type = ground (arith, v.store.root_type);
    root_block = ground (arith, v.store.root_block);
    root_block_taken = ground (arith, v.store.root_block_taken);
    root_entries = v.store.root_entries;
    data_bytes = v.store.data_bytes;
    file = λ j u. ground (arith, v.store.file j u);
    target = λ j u t. ground (arith, v.store.target j u, v.store.file j u, type);
    apart = λ j k u w p q e. ground (
      arith,
      v.store.file j u,
      v.store.file k w,
      v.store.apart j k u w,
      v.store.root_block_taken,
    );
  }

  pub assigned-IsValid : IsValid assigned
  assigned-IsValid = record {
    store = assigned-IsStore;
    names = v.names;
    counted = λ j u. ground (arith, v.counted j u);
    opens = record {
      in_use = v.opens.in_use;
      type = λ h o. ground (arith, v.opens.type h o);
      within = λ h o. ground (arith, v.opens.within h o);
    };
  }

  pub assigned-Owns : Owns assigned i b
  assigned-Owns = (
    ground arith,
    ground (arith, v.store.root_block_taken),
    λ j u p e. ground (arith, v.store.file j u),
  )

  pub content-assigned : (j : ℕ) → content assigned j ≡ content s j
  content-assigned j = elim (Bool-cases (i == j)) [
    | inl same ↦ let e : (s.inode_table j).i_size ≡ 0 = ground (arith, empty) in rw (same, e, empty)
    | inr other ↦ rw other
  ]

module _ (s : Fs) (v : IsValid s) (h b count : ℕ) (new : List ℕ) where
  abbrev pub file : OpenFile
  file = s.open_file_table h

  abbrev pub inode : Inode
  inode = s.inode_table file.of_inumber

  abbrev pub written : Fs
  written = record s {
    fs_data = update s.fs_data b (bytes (memcpy_at file.of_offset new (as_bytes (s.fs_data b))));
    open_file_table =
        update s.open_file_table h (record file { of_offset = file.of_offset + count });
    inode_table =
        if ltb inode.i_size (file.of_offset + count)
        then update s.inode_table file.of_inumber (record inode { i_size = file.of_offset + count })
        else s.inode_table;
  }

  module _ (is_open : IsHandle s h) (owns : Owns s file.of_inumber b)
      (fits : file.of_offset + count ≤ s.fs_params.block_size) (all_new : length new ≡ count) where
    written-IsStore : IsStore written
    written-IsStore = record {
      mounted = v.store.mounted;
      block_bound = v.store.block_bound;
      some_inode = v.store.some_inode;
      some_block = v.store.some_block;
      root_taken = v.store.root_taken;
      root_type = ground (arith, v.store.root_type, v.opens.in_use h is_open);
      root_block = ground (arith, v.store.root_block, v.opens.in_use h is_open);
      root_block_taken = v.store.root_block_taken;
      root_entries = ground (arith, v.store.root_entries);
      data_bytes = λ k p. ground (
        arith,
        v.store.data_bytes k p,
        length-memcpy_at file.of_offset new (as_bytes (s.fs_data b)),
      );
      file = λ j u. ground (arith, v.store.file j u);
      target = λ j u t.
          ground (arith, v.store.target j u, v.store.file j u, v.opens.type h is_open, owns.2 j u);
      apart = λ j k u w p q e. ground (arith, v.store.apart j k u w, owns.2 j u, owns.2 k w);
    }

    written-IsOpens : IsOpens (IsHandle s) written.open_file_table (IsInUse s) written.inode_table
    written-IsOpens = record {
      in_use = λ k o. ground (arith, v.opens.in_use k o, v.opens.in_use h is_open);
      type = λ k o. ground (arith, v.opens.type k o, v.opens.type h is_open);
      within = λ k o. ground (arith, v.opens.within k o, v.opens.within h is_open);
    }

    pub dir-written : dir written ≡ dir s
    dir-written = ap as_entries data-root
      where
        data-root : written.fs_data 0 ≡ s.fs_data 0
        data-root = ground (arith, owns.1)

    same_names : (j : ℕ) → names_of written j ≡ names_of s j
    same_names j = ap (total (refers j) (max_dir_entries s)) dir-written

    same_links : (j : ℕ) → (written.inode_table j).i_hard_links ≡ (s.inode_table j).i_hard_links
    same_links j = ground arith

    pub written-IsValid : IsValid written
    written-IsValid = record {
      store = written-IsStore;
      names = rw dir-written v.names;
      counted = λ j u. same_links j ∙ v.counted j u ∙ sym (same_names j);
      opens = written-IsOpens;
    }

    -- The code reaches this state, and releases its locks.
    pub write_block-done :
        (buffer : List ℕ)
        → count ≤ length buffer
        → new ≡ take count buffer
        → write_block h file buffer count (some inode) s (write_locks h file.of_inumber)
          ≡ done (some count) written []
    unfolding write_block copy_in advance_write data_block_get unlock_file unlock
    write_block-done buffer long e = ground (arith, owns.0, v.store.data_bytes b owns.1.0, e)

    inode-written :
        ((written.inode_table file.of_inumber).i_size ≡ (
          if ltb inode.i_size (file.of_offset + count)
          then file.of_offset + count
          else inode.i_size))
        × (block_of (written.inode_table file.of_inumber) ≡ b)
        × (block_of inode ≡ b)
    inode-written = ground (arith, owns.0)

    block-written :
        as_bytes (written.fs_data b) ≡ memcpy_at file.of_offset new (as_bytes (s.fs_data b))
    block-written = ground arith

    grown :
        take
          (if ltb inode.i_size (file.of_offset + count)
            then file.of_offset + count
            else inode.i_size)
          (memcpy_at file.of_offset new (as_bytes (s.fs_data b)))
        ≡ memcpy_at file.of_offset new (take inode.i_size (as_bytes (s.fs_data b)))
    grown = rw all_new at (
        take-memcpy_at inode.i_size file.of_offset new (as_bytes (s.fs_data b))
          (v.opens.within h is_open)
          (omega (
            arith,
            v.store.data_bytes b owns.1.0,
            v.store.file file.of_inumber (v.opens.in_use h is_open),
          ))
          (omega (arith, v.store.data_bytes b owns.1.0)))

    -- The file holds its bytes, with the new ones copied in at the offset.
    pub content-written :
        content written file.of_inumber ≡ memcpy_at file.of_offset new (content s file.of_inumber)
    content-written = rw (inode-written.0, inode-written.1, block-written, inode-written.2) grown

    -- Every other file holds what it held.
    pub content-written_ne :
        (j : ℕ) → IsInUse s j → j ≢ file.of_inumber → content written j ≡ content s j
    content-written_ne j u ne = elim (ℕ_discrete (s.inode_table j).i_size 0) [
      | yes e ↦ rw (same, e)
      | no e ↦ rw (same, away (ground arith))
    ]
      where
        same : written.inode_table j ≡ s.inode_table j
        same = ground arith

        away :
            0 < (s.inode_table j).i_size
            → written.fs_data (block_of (s.inode_table j)) ≡ s.fs_data (block_of (s.inode_table j))
        away p = ground (arith, owns.2 j u p)
