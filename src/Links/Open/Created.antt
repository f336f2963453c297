-- ===== src/Links/Open/Created.antt =====
-- `tfs_open` of a new name: the states in which the file and its entry are made.
use mbroker_tfs.Base.{
  ℕ, ◌<◌, ◌≡◌, ◌≢◌, ◌⊎◌, refl, ap, ◌∙◌, inl, inr, Option, none, some, ◌∷◌, take, update, first-some,
  first-none, CString, arith, Option-cases, ℕ_discrete,
}
use mbroker_tfs.Tfs.State.{free, taken, root_dir_inum}
use mbroker_tfs.Tfs.Invariant.{as_bytes, IsEntry}
use mbroker_tfs.Links.State.{t_file, Inode, Fs, Held, writing, inode_table_lock, max_dir_entries}
use mbroker_tfs.Links.Inodes.{inode_create}
use mbroker_tfs.Links.Returns.{Returns, returns}
use mbroker_tfs.Links.Invariant.{
  dir, block_of, IsInUse, IsStore, IsDir, IsCounted, IsOpens, IsHandle, IsValid,
}
use mbroker_tfs.Links.Lookup.{Names}
use mbroker_tfs.Links.Changes.{IsDir-map, with_dir-IsStore, deleted, deleted-IsStore}
use mbroker_tfs.Links.Steps.{
  free_inode, inode_alloc-done, inode_alloc-none, CanEnter, filled, names_of-filled,
}
use mbroker_tfs.Links.Entry.{
  OthersNamed, Keeps, content-with_dir, filled-IsDir, filled-Names, filled-OthersNamed,
}
use mbroker_tfs.Links.Fresh.{unnamed, unopened, no_names}
use mbroker_tfs.Links.Names.Entered.{Unchanged}
use mbroker_tfs.Links.Names.SymLink.{IsTakenUp}
use mbroker_tfs.Links.Open.NewHandle.{root_lock}

abbrev pub new_file : Inode
new_file = record { i_node_type = t_file; i_size = 0; i_data_block = none; i_hard_links = 1 }

-- Inode `i` is taken for a file.
abbrev pub file_made : Fs → ℕ → Fs
file_made s i = record s {
  freeinode_ts = update s.freeinode_ts i taken;
  inode_table = update s.inode_table i new_file;
}

-- What `inode_create` does for a file
abbrev pub FileMade : Fs → Option ℕ → Fs → Held → Type 0
FileMade s r t l =
    (l ≡ root_lock)
    × (((i : ℕ) × (r ≡ some i)
          × (i < s.fs_params.max_inode_count)
          × (s.freeinode_ts i ≡ free)
          × (t ≡ file_made s i))
        ⊎ ((r ≡ none) × (t ≡ s) × IsTakenUp s))

abbrev create_locks : Held
create_locks = (inode_table_lock, writing) ∷ root_lock

pub inode_create-FileMade : (s : Fs) → Returns (FileMade s) (inode_create t_file s root_lock)
unfolding inode_create
inode_create-FileMade s = elim (Option-cases (free_inode s)) [
  | inl e ↦
      rw (inode_alloc-none s create_locks e)
        (returns (refl, inr (refl, refl, λ i p. ground (arith, first-none _ _ e i p))))
  | inr (i, e) ↦
      let (hit, within, _) = first-some _ _ i e in
      rw (inode_alloc-done s create_locks i e)
        (returns (refl, inl (i, refl, within, ground (arith, hit), refl)))
]

module _ (s : Fs) (v : IsValid s) (i : ℕ) (in_table : i < s.fs_params.max_inode_count)
    (unused : s.freeinode_ts i ≡ free) where
  abbrev pub made : Fs
  made = file_made s i

  not_root : 0 < i
  not_root = ground (arith, v.store.root_taken, unused)

  pub made-IsInUse : IsInUse made i
  made-IsInUse = ground (arith, not_root, in_table)

  pub same_root : s.inode_table root_dir_inum ≡ made.inode_table root_dir_inum
  same_root = ground (arith, not_root)

  pub made-IsStore : IsStore made
  made-IsStore = record {
    mounted = v.store.mounted;
    block_bound = v.store.block_bound;
    some_inode = v.store.some_inode;
    some_block = v.store.some_block;
    root_taken = ground (arith, v.store.root_taken);
    root_type = ground (arith, v.store.root_type, not_root);
    root_block = ground (arith, v.store.root_block, not_root);
    root_block_taken = v.store.root_block_taken;
    root_entries = v.store.root_entries;
    data_bytes = v.store.data_bytes;
    file = λ j w. ground (arith, v.store.file j);
    target = λ j w t. ground (arith, v.store.target j);
    apart = λ j k w x p q e. ground (arith, v.store.apart j k);
  }

  pub made-IsDir : IsDir (max_dir_entries made) (dir made) (IsInUse made)
  made-IsDir = IsDir-map v.names (λ k j e u. ground arith)

  made-IsOpens : IsOpens (IsHandle made) made.open_file_table (IsInUse made) made.inode_table
  made-IsOpens = record {
    in_use = λ h o. ground (arith, v.opens.in_use h o);
    type = λ h o. ground (arith, v.opens.type h o, unopened s v i unused h o);
    within = λ h o. ground (arith, v.opens.within h o, unopened s v i unused h o);
  }

  same_inode : (j : ℕ) → IsInUse s j → made.inode_table j ≡ s.inode_table j
  same_inode j u = ground (arith, unused)

  made-Keeps : Keeps s made
  made-Keeps j u =
      (ground arith, ap (λ n. take n.i_size (as_bytes (s.fs_data (block_of n)))) (same_inode j u))

  -- The inode is given back.
  abbrev pub undone : Fs
  undone = deleted made made-IsStore i

  undone-IsValid : IsValid undone
  undone-IsValid = record {
    store = deleted-IsStore made made-IsStore i made-IsInUse;
    names = IsDir-map made-IsDir (λ k j e u. ground (arith, named_before k j e));
    counted =
        λ j u. let was : IsInUse s j = ground arith in rw (same_inode j was) (v.counted j was);
    opens = record {
      in_use = λ h o. ground (arith, made-IsOpens.in_use h o, unopened s v i unused h o);
      type = made-IsOpens.type;
      within = made-IsOpens.within;
    };
  }
    where
      named_before : (k j : ℕ) → IsEntry (max_dir_entries s) (dir s) k j → j ≢ i
      named_before k j e same = unnamed s v i unused k (e.0, e.1 ∙ ap some same)

  pub undone-Unchanged : Unchanged s undone
  undone-Unchanged = record {
    valid = undone-IsValid;
    files = λ j u. let (w, e) = made-Keeps j u in (ground (arith, w, unused), e);
    names = λ other j. (λ x. x, λ x. x);
    handles = refl;
    is_open = refl;
  }

  module _ (name : CString) (k : ℕ) (can : CanEnter made name k) where
    abbrev pub entered : Fs
    entered = filled made made-IsStore k name i

    entered-IsCounted : IsCounted entered
    entered-IsCounted j u =
        let more = names_of-filled made made-IsStore k name i j can.1 can.2 in
        elim (ℕ_discrete j i) [
          | yes e ↦ ground (arith, e, more, no_names s v i unused)
          | no ne ↦
              let was : IsInUse s j = ground (arith, ne) in
              ground (arith, more, same_inode j was, v.counted j was, ne)
        ]

    pub entered-IsValid : IsValid entered
    entered-IsValid = record {
      store = with_dir-IsStore made made-IsStore _;
      names = filled-IsDir made made-IsStore k name i can made-IsDir made-IsInUse;
      counted = entered-IsCounted;
      opens = made-IsOpens;
    }

    pub entered-Names : Names entered name i
    entered-Names = filled-Names made made-IsStore k name i can

    pub entered-OthersNamed : OthersNamed s name entered
    entered-OthersNamed = filled-OthersNamed made made-IsStore k name i can

    pub entered-Keeps : Keeps s entered
    entered-Keeps j u =
        let (w, e) = made-Keeps j u in (w, content-with_dir made made-IsStore _ j w ∙ e)

    pub entered-new_file : entered.inode_table i ≡ new_file
    entered-new_file = ground arith
