-- ===== src/Tfs/ReadWrite/Steps.antt =====
-- The parts of `tfs_write`, each with what it leaves behind.
use mbroker_tfs.Base.{
  ℕ, ◌+◌, ◌≤◌, ◌<◌, ◌≡◌, ◌≢◌, ap, inl, inr, none, some, List, update, length, take, length-take,
  memcpy_at, length-memcpy_at, take-memcpy_at, ℕ_discrete, arith, ltb, ◌==◌, if◌then◌else◌,
  Bool-cases,
}
use mbroker_tfs.Tfs.State.{
  taken, free, Inode, OpenFile, bytes, Tfs, done, inode_get, data_block_get,
}
use mbroker_tfs.Tfs.Invariant.{
  as_entries, as_bytes, dir, block_of, content, IsInUse, IsBlock, IsStore, IsHandle, IsOpens,
  IsValid,
}
use mbroker_tfs.Tfs.OpenFiles.{get_open_file_entry}
use mbroker_tfs.Tfs.ReadWrite.{copy_in, advance_write, write_block}

pub get_open_file_entry-open :
    (s : Tfs) (h : ℕ)
    → IsStore s
    → IsHandle s h
    → get_open_file_entry (some h) s ≡ done (some (h, s.open_file_table h)) s
unfolding get_open_file_entry
get_open_file_entry-open s h v o = ground arith

pub get_open_file_entry-closed :
    (s : Tfs) (h : ℕ) → IsStore s → ¬ (IsHandle s h) → get_open_file_entry (some h) s ≡ done none s
unfolding get_open_file_entry
get_open_file_entry-closed s h v o = ground arith

pub inode_get-done :
    (s : Tfs) (i : ℕ)
    → IsStore s
    → i < s.fs_params.max_inode_count
    → inode_get i s ≡ done (s.inode_table i) s
unfolding inode_get
inode_get-done s i v h = ground arith

-- The contents are as long as the size says.
pub length-content :
    (s : Tfs) (v : IsValid s) (i : ℕ)
    → IsInUse s i
    → length (content s i) ≡ (s.inode_table i).i_size
length-content s v i u = ground (
  arith,
  length-take {0} (s.inode_table i).i_size (as_bytes (s.fs_data (block_of (s.inode_table i)))),
  v.0.file i u,
  v.0.data_bytes (block_of (s.inode_table i)),
)

-- Block `b` belongs to file `i` alone.
abbrev pub Owns : Tfs → ℕ → ℕ → Type 0
Owns s i b =
    ((s.inode_table i).i_data_block ≡ some b)
    × IsBlock s b
    × ((j : ℕ)
        → IsInUse s j
        → 0 < (s.inode_table j).i_size
        → block_of (s.inode_table j) ≡ b
        → j ≡ i)

module _ (s : Tfs) (v : IsValid s) (i b : ℕ) (used : IsInUse s i)
    (empty : (s.inode_table i).i_size ≡ 0) (in_disk : b < s.fs_params.max_block_count)
    (is_new : s.free_blocks b ≡ free) where
  abbrev pub assigned : Tfs
  assigned = record s {
    free_blocks = update s.free_blocks b taken;
    inode_table = update s.inode_table i (record (s.inode_table i) { i_data_block = some b });
  }

  assigned-IsStore : IsStore assigned
  assigned-IsStore = record {
    mounted = v.0.mounted;
    block_bound = v.0.block_bound;
    some_inode = v.0.some_inode;
    some_block = v.0.some_block;
    root_taken = v.0.root_taken;
    root_type = ground (arith, v.0.root_type);
    root_block = ground (arith, v.0.root_block);
    root_block_taken = ground (arith, v.0.root_block_taken);
    root_entries = v.0.root_entries;
    data_bytes = v.0.data_bytes;
    file = λ j u. ground (arith, v.0.file j u);
    apart = λ j k u w p q e.
        ground (arith, v.0.file j u, v.0.file k w, v.0.apart j k u w, v.0.root_block_taken);
  }

  pub assigned-IsValid : IsValid assigned
  assigned-IsValid = (
    assigned-IsStore,
    v.1,
    record { in_use = v.2.in_use; within = λ h o. ground (arith, v.2.within h o) },
  )

  pub assigned-Owns : Owns assigned i b
  assigned-Owns =
      (ground arith, ground (arith, v.0.root_block_taken), λ j u p e. ground (arith, v.0.file j u))

  pub content-assigned : (j : ℕ) → content assigned j ≡ content s j
  content-assigned j = elim (Bool-cases (i == j)) [
    | inl same ↦ let e : (s.inode_table j).i_size ≡ 0 = ground (arith, empty) in rw (same, e, empty)
    | inr other ↦ rw other
  ]

module _ (s : Tfs) (v : IsValid s) (h b count : ℕ) (new : List ℕ) where
  abbrev pub file : OpenFile
  file = s.open_file_table h

  abbrev pub inode : Inode
  inode = s.inode_table file.of_inumber

  abbrev pub written : Tfs
  written = record s {
    fs_data = update s.fs_data b (bytes (memcpy_at file.of_offset new (as_bytes (s.fs_data b))));
    open_file_table =
        update s.open_file_table h (record file { of_offset = file.of_offset + count });
    inode_table =
        if ltb inode.i_size (file.of_offset + count)
        then update s.inode_table file.of_inumber (record inode { i_size = file.of_offset + count })
        else s.inode_table;
  }

  module _ (is_open : IsHandle s h) (owns : Owns s file.of_inumber b)
      (fits : file.of_offset + count ≤ s.fs_params.block_size) (all_new : length new ≡ count) where
    written-IsStore : IsStore written
    written-IsStore = record {
      mounted = v.0.mounted;
      block_bound = v.0.block_bound;
      some_inode = v.0.some_inode;
      some_block = v.0.some_block;
      root_taken = v.0.root_taken;
      root_type = ground (arith, v.0.root_type, v.2.in_use h is_open);
      root_block = ground (arith, v.0.root_block, v.2.in_use h is_open);
      root_block_taken = v.0.root_block_taken;
      root_entries = ground (arith, v.0.root_entries);
      data_bytes = λ k p.
          ground (
            arith,
            v.0.data_bytes k p,
            length-memcpy_at file.of_offset new (as_bytes (s.fs_data b)),
          );
      file = λ j u. ground (arith, v.0.file j u);
      apart = λ j k u w p q e. ground (arith, v.0.apart j k u w, owns.2 j u, owns.2 k w);
    }

    written-IsOpens : IsOpens (IsHandle s) written.open_file_table (IsInUse s) written.inode_table
    written-IsOpens = record {
      in_use = λ k o. ground (arith, v.2.in_use k o, v.2.in_use h is_open);
      within = λ k o. ground (arith, v.2.within k o, v.2.within h is_open);
    }

    pub dir-written : dir written ≡ dir s
    dir-written = ap as_entries data-root
      where
        data-root : written.fs_data 0 ≡ s.fs_data 0
        data-root = ground (arith, owns.1)

    pub written-IsValid : IsValid written
    written-IsValid = (written-IsStore, rw dir-written v.1, written-IsOpens)

    -- The code reaches this state.
    pub write_block-done :
        (buffer : List ℕ)
        → count ≤ length buffer
        → new ≡ take count buffer
        → write_block h file buffer count (some inode) s ≡ done (some count) written
    unfolding write_block copy_in advance_write data_block_get
    write_block-done buffer long e = ground (arith, owns.0, v.0.data_bytes b owns.1.0, e)

    inode-written :
        ((written.inode_table file.of_inumber).i_size ≡ (
          if ltb inode.i_size (file.of_offset + count)
          then file.of_offset + count
          else inode.i_size))
        × (block_of (written.inode_table file.of_inumber) ≡ b)
        × (block_of inode ≡ b)
    inode-written = ground (arith, owns.0)

    block-written :
        as_bytes (written.fs_data b) ≡ memcpy_at file.of_offset new (as_bytes (s.fs_data b))
    block-written = ground arith

    grown :
        take
          (if ltb inode.i_size (file.of_offset + count)
            then file.of_offset + count
            else inode.i_size)
          (memcpy_at file.of_offset new (as_bytes (s.fs_data b)))
        ≡ memcpy_at file.of_offset new (take inode.i_size (as_bytes (s.fs_data b)))
    grown = rw all_new at (
        take-memcpy_at inode.i_size file.of_offset new (as_bytes (s.fs_data b))
          (v.2.within h is_open)
          (omega
            (arith, v.0.data_bytes b owns.1.0, v.0.file file.of_inumber (v.2.in_use h is_open)))
          (omega (arith, v.0.data_bytes b owns.1.0)))

    -- The file holds its bytes, with the new ones copied in at the offset.
    pub content-written :
        content written file.of_inumber ≡ memcpy_at file.of_offset new (content s file.of_inumber)
    content-written = rw (inode-written.0, inode-written.1, block-written, inode-written.2) grown

    -- Every other file holds what it held.
    pub content-written_ne :
        (j : ℕ) → IsInUse s j → j ≢ file.of_inumber → content written j ≡ content s j
    content-written_ne j u ne = elim (ℕ_discrete (s.inode_table j).i_size 0) [
      | yes e ↦ rw (same, e)
      | no e ↦ rw (same, away (ground arith))
    ]
      where
        same : written.inode_table j ≡ s.inode_table j
        same = ground arith

        away :
            0 < (s.inode_table j).i_size
            → written.fs_data (block_of (s.inode_table j)) ≡ s.fs_data (block_of (s.inode_table j))
        away p = ground (arith, owns.2 j u p)
