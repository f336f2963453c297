-- ===== src/Links/Names/Pointed.antt =====
-- The state in which a new symbolic link has its inode, its block and its target, and no name yet.
use mathlib.Core.Path.{subst}
use mbroker_tfs.Base.{
  ℕ, ◌<◌, ◌≡◌, ◌≢◌, refl, sym, ap, update, length, total, CString, strlen, arith, ℕ_discrete,
}
use mbroker_tfs.Tfs.State.{free, bytes}
use mbroker_tfs.Tfs.Invariant.{as_bytes, as_entries}
use mbroker_tfs.Links.State.{t_symlink, Fs, max_dir_entries}
use mbroker_tfs.Links.Invariant.{
  dir, block_of, content, IsInUse, IsFile, IsTarget, IsStore, IsDir, IsOpens, IsHandle, IsValid,
  refers, names_of,
}
use mbroker_tfs.Links.Changes.{IsDir-map}
use mbroker_tfs.Links.Entry.{Keeps}
use mbroker_tfs.Links.Fresh.{unopened}
use mbroker_tfs.Links.Names.Make.{
  link_inode, link_made, target_block, c_str-target_block, length-target_block,
}

-- Inode `i` and block `b` are free, and a target's name fits into a block.
pub record IsRoom (s : Fs) (target : CString) (i b : ℕ) : Type 0 where
  pub in_table : i < s.fs_params.max_inode_count
  pub unused : s.freeinode_ts i ≡ free
  pub in_blocks : b < s.fs_params.max_block_count
  pub block_free : s.free_blocks b ≡ free
  pub fits : strlen target < s.fs_params.block_size

module _ (s : Fs) (v : IsValid s) (target : CString) (i b : ℕ) (r : IsRoom s target i b) where
  abbrev pub pointed : Fs
  pointed = record (link_made s i b) {
    fs_data = update s.fs_data b (bytes (target_block target (as_bytes (s.fs_data b))));
  }

  pub not_root : 0 < i
  not_root = ground (arith, v.store.root_taken, r.unused)

  pub not_root_block : 0 < b
  not_root_block = ground (arith, v.store.root_block_taken, r.block_free)

  pub size : length (as_bytes (s.fs_data b)) ≡ s.fs_params.block_size
  size = (v.store.data_bytes b not_root_block).1

  pub same_block : pointed.fs_data 0 ≡ s.fs_data 0
  same_block = ground (arith, not_root_block)

  pub same_dir : dir pointed ≡ dir s
  same_dir = ap as_entries same_block

  pub same_inode : (j : ℕ) → j ≢ i → pointed.inode_table j ≡ s.inode_table j
  same_inode j ne = ground arith

  pub new_inode : pointed.inode_table i ≡ link_inode s b
  new_inode = ground arith

  in_use_before : (j : ℕ) → IsInUse pointed j → j ≢ i → IsInUse s j
  in_use_before j u ne = ground arith

  pointed-file : (j : ℕ) → IsInUse pointed j → IsFile pointed (pointed.inode_table j)
  pointed-file j u = elim (ℕ_discrete j i) [
    | yes e ↦ ground (arith, e, new_inode, not_root_block, r.in_blocks)
    | no ne ↦ ground (arith, same_inode j ne, v.store.file j (in_use_before j u ne))
  ]

  strlen-target_block :
      strlen (target_block target (as_bytes (s.fs_data b))) < s.fs_params.block_size
  unfolding strlen
  strlen-target_block =
      let same = ap (λ xs. length xs) (c_str-target_block target (as_bytes (s.fs_data b))) in
      omega (arith, same, r.fits)

  -- The blocks of the other files are not the new one.
  other_block :
      (j : ℕ)
      → IsInUse s j
      → 0 < (s.inode_table j).i_size
      → pointed.fs_data (block_of (s.inode_table j)) ≡ s.fs_data (block_of (s.inode_table j))
  other_block j u p = ground (arith, v.store.file j u, r.block_free)

  pointed-IsTarget : (j : ℕ) → IsInUse pointed j → IsTarget pointed (pointed.inode_table j)
  pointed-IsTarget j u link = elim (ℕ_discrete j i) [
    | yes e ↦
        let here : pointed.inode_table j ≡ link_inode s b = ground (arith, e) in
        rw here (refl, omega (arith, r.fits), new_target)
    | no ne ↦
        let w = in_use_before j u ne in
        let was : (s.inode_table j).i_node_type ≡ t_symlink =
          ground (arith, same_inode j ne, link) in
        let (links, some_size, ended) = v.store.target j w was in
        let kept = other_block j w some_size in
        (
          ground (arith, same_inode j ne, links),
          ground (arith, same_inode j ne, some_size),
          rw (same_inode j ne, kept) ended,
        )
  ]
    where
      new_target : strlen (as_bytes (pointed.fs_data b)) < s.fs_params.block_size
      new_target =
          let here : pointed.fs_data b ≡ bytes (target_block target (as_bytes (s.fs_data b))) =
            ground arith in
          rw here strlen-target_block

  pub pointed-IsStore : IsStore pointed
  pointed-IsStore = record {
    mounted = v.store.mounted;
    block_bound = v.store.block_bound;
    some_inode = v.store.some_inode;
    some_block = v.store.some_block;
    root_taken = ground (arith, v.store.root_taken);
    root_type = ground (arith, v.store.root_type, not_root);
    root_block = ground (arith, v.store.root_block, not_root);
    root_block_taken = ground (arith, v.store.root_block_taken);
    root_entries = ground (arith, v.store.root_entries, not_root_block);
    data_bytes = λ c p.
        let new_size = length-target_block target (as_bytes (s.fs_data b)) in
        ground (arith, v.store.data_bytes c p, new_size, size, r.fits);
    file = pointed-file;
    target = pointed-IsTarget;
    apart = λ j k u w x y e. one_block j k u w x y e;
  }
    where
      one_block :
          (j k : ℕ)
          → IsInUse pointed j
          → IsInUse pointed k
          → 0 < (pointed.inode_table j).i_size
          → 0 < (pointed.inode_table k).i_size
          → block_of (pointed.inode_table j) ≡ block_of (pointed.inode_table k)
          → j ≡ k
      one_block j k u w x y e = ground (
        arith,
        v.store.apart j k,
        v.store.file j,
        v.store.file k,
        same_inode j,
        same_inode k,
        new_inode,
        r.block_free,
      )

  pub pointed-IsDir : IsDir (max_dir_entries pointed) (dir pointed) (IsInUse pointed)
  pointed-IsDir =
      IsDir-map (subst (λ es. IsDir (max_dir_entries s) es (IsInUse s)) (sym same_dir) v.names)
        (λ k j e u. ground arith)

  pub pointed-Keeps : Keeps s pointed
  pointed-Keeps j u = (ground arith, text)
    where
      ne : j ≢ i
      ne e = ground (arith, r.unused)

      text : content pointed j ≡ content s j
      text = elim (ℕ_discrete (s.inode_table j).i_size 0) [
        | yes e ↦ rw (same_inode j ne, e) refl
        | no e ↦ rw (same_inode j ne, other_block j u (omega arith)) refl
      ]

  pub pointed-IsOpens :
      IsOpens (IsHandle pointed) pointed.open_file_table (IsInUse pointed) pointed.inode_table
  pointed-IsOpens = record {
    in_use = λ h o. ground (arith, v.opens.in_use h o);
    type = λ h o. ground (arith, v.opens.type h o, unopened s v i r.unused h o);
    within = λ h o. ground (arith, v.opens.within h o, unopened s v i r.unused h o);
  }

  pub same_names : (j : ℕ) → names_of pointed j ≡ names_of s j
  same_names j = ap (λ es. total (refers j) (max_dir_entries s) es) same_dir
