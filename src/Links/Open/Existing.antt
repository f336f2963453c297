-- ===== src/Links/Open/Existing.antt =====
-- `tfs_open` of a file that is there: it may be emptied, and gets a handle.
use mbroker_tfs.Base.{
  ℕ, ◌≤◌, ◌<◌, ◌≡◌, ◌≢◌, ◌↔◌, refl, sym, ap, ◌∙◌, inl, inr, true, false, ◌&&◌, Option, some, [],
  length, update, CString, arith, Bool-cases, if◌then◌else◌, ltb,
}
use mbroker_tfs.Tfs.State.{free}
use mbroker_tfs.Tfs.Open.{has_flag, tfs_o_trunc, tfs_o_append}
use mbroker_tfs.Links.State.{
  t_file, Fs, Held, done, inode_lock, dblock_lock, lock, unlock, inode_get, data_block_free,
}
use mbroker_tfs.Links.Open.{truncate, open_resolved, open_at, open_existing}
use mbroker_tfs.Links.Returns.{Returns, weaken}
use mbroker_tfs.Links.Invariant.{block_of, content, IsInUse, IsStore, IsValid}
use mbroker_tfs.Links.Lookup.{Names}
use mbroker_tfs.Links.Steps.{IsFreeOf}
use mbroker_tfs.Links.Open.Handles.{opened-IsValid, Added}
use mbroker_tfs.Links.ReadWrite.Steps.{length-content}
use mbroker_tfs.Links.Open.NewHandle.{
  IsUnmoved, HandleMade, root_lock, open_at-Added, opened-HandleMade, text_after, offset_after,
}

-- File `i` is opened: it holds what the flags ask for and has a new handle, if one is free; names and other
-- files are as before.
pub record FileOpened (s : Fs) (mode i : ℕ) (r : Option ℕ) (t : Fs) : Type 0 where
  pub valid : IsValid t
  pub text : content t i ≡ text_after s mode i
  pub files : (j : ℕ) → IsInUse s j → IsInUse t j × (j ≢ i → content t j ≡ content s j)
  pub names : (other : CString) (j : ℕ) → Names s other j ↔ Names t other j
  pub handle : HandleMade s i (offset_after s mode i) r t

module _ (s : Fs) (v : IsValid s) (i : ℕ) (u : IsInUse s i)
    (file : (s.inode_table i).i_node_type ≡ t_file) where
  abbrev pub truncated : Fs
  truncated = record s {
    free_blocks = update s.free_blocks (block_of (s.inode_table i)) free;
    inode_table = update s.inode_table i (record (s.inode_table i) { i_size = 0 });
  }

  module _ (full : 0 < (s.inode_table i).i_size) where
    pub truncated-IsStore : IsStore truncated
    truncated-IsStore = record {
      mounted = v.store.mounted;
      block_bound = v.store.block_bound;
      some_inode = v.store.some_inode;
      some_block = v.store.some_block;
      root_taken = v.store.root_taken;
      root_type = ground (arith, v.store.root_type);
      root_block = ground (arith, v.store.root_block);
      root_block_taken = ground (arith, v.store.root_block_taken, v.store.file i u);
      root_entries = v.store.root_entries;
      data_bytes = v.store.data_bytes;
      file = λ j w. ground (arith, v.store.file j w, v.store.file i u, v.store.apart i j u w);
      target = λ j w t. ground (arith, v.store.target j w, file);
      apart = λ j k w x p q e. ground (arith, v.store.apart j k w x);
    }

    truncated-IsValid : IsUnmoved s i → IsValid truncated
    truncated-IsValid unmoved = record {
      store = truncated-IsStore;
      names = v.names;
      counted = λ j w. ground (arith, v.counted j w);
      opens = record {
        in_use = v.opens.in_use;
        type = λ h o. ground (arith, v.opens.type h o);
        within = λ h o. ground (arith, v.opens.within h o, unmoved h o);
      };
    }

    pub open_resolved-truncated :
        (mode : ℕ) (l : Held)
        → IsFreeOf (inode_lock i) l
        → IsFreeOf dblock_lock l
        → has_flag mode tfs_o_trunc ≡ true
        → open_resolved mode i s l ≡ done (some (offset_after s mode i)) truncated l
    unfolding open_resolved truncate data_block_free inode_get lock unlock
    open_resolved-truncated mode l free_inode free_blocks trunc =
        ground
          (arith, v.store.mounted, v.store.file i u, file, trunc, full, free_inode, free_blocks)

  pub open_resolved-kept :
      (mode : ℕ) (l : Held)
      → IsFreeOf (inode_lock i) l
      → (has_flag mode tfs_o_trunc && ltb 0 (s.inode_table i).i_size) ≡ false
      → open_resolved mode i s l
        ≡ done (some (if has_flag mode tfs_o_append then (s.inode_table i).i_size else 0)) s l
  unfolding open_resolved truncate inode_get lock unlock
  open_resolved-kept mode l free_inode keep =
      ground (arith, v.store.mounted, file, keep, free_inode)

  content_none : (t : Fs) → (t.inode_table i).i_size ≡ 0 → [] ≡ content t i
  content_none t e = rw e refl

  -- The end of the call, once the file is ready in state `t`
  abbrev FileReady : ℕ → Fs → Type 0
  FileReady mode t =
      IsValid t
      × IsInUse t i
      × ((t.inode_table i).i_node_type ≡ t_file)
      × (content t i ≡ text_after s mode i)
      × ((j : ℕ) → IsInUse s j → IsInUse t j × (j ≢ i → content t j ≡ content s j))
      × ((other : CString) (j : ℕ) → Names s other j ↔ Names t other j)

  -- The result of the call, with no lock held
  abbrev pub FileOpenedUnlocked : ℕ → Option ℕ → Fs → Held → Type 0
  FileOpenedUnlocked mode r t l = (l ≡ []) × FileOpened s mode i r t

  opened-FileOpened :
      (mode : ℕ) (t : Fs) (ready : FileReady mode t)
      → t.fs_params ≡ s.fs_params
      → t.open_file_table ≡ s.open_file_table
      → t.free_open_file_entries ≡ s.free_open_file_entries
      → Returns (FileOpenedUnlocked mode) (open_at i (offset_after s mode i) t root_lock)
  opened-FileOpened mode t (valid, used, type, text, files, names) params table frees =
      weaken (open_at-Added t valid i (offset_after s mode i)) (λ r w l x. ended r w l x)
    where
      within : offset_after s mode i ≤ (t.inode_table i).i_size
      within = ground (arith, length-content t valid.store i used, ap (λ xs. length xs) text)

      ended :
          (r : Option ℕ) (w : Fs) (l : Held)
          → Added t valid i (offset_after s mode i) [] r w l
          → FileOpenedUnlocked mode r w l
      ended r w l (el, inl (h, er, is_new, in_table, ew)) =
          let made =
            opened-HandleMade t valid i (offset_after s mode i) s r w l params table frees
              (el, inl (h, er, is_new, in_table, ew)) in
          (
            el,
            rw ew (record {
              valid = opened-IsValid t valid h i (offset_after s mode i) used type within;
              text = text;
              files = files;
              names = names;
              handle = rw ew at made;
            }),
          )
      ended r w l (el, inr (er, ew, all)) =
          let made =
            opened-HandleMade t valid i (offset_after s mode i) s r w l params table frees
              (el, inr (er, ew, all)) in
          (
            el,
            rw ew (record {
              valid = valid;
              text = text;
              files = files;
              names = names;
              handle = rw ew at made;
            }),
          )

  truncated-FileReady :
      (mode : ℕ)
      → 0 < (s.inode_table i).i_size
      → has_flag mode tfs_o_trunc ≡ true
      → IsUnmoved s i
      → FileReady mode truncated
  truncated-FileReady mode full trunc unmoved = (
    truncated-IsValid full unmoved,
    u,
    ground (arith, file),
    rw trunc (sym (content_none truncated (ground arith))),
    (λ j w. (w, same j)),
    (λ other j. (λ x. x, λ x. x)),
  )
    where
      same : (j : ℕ) → j ≢ i → content truncated j ≡ content s j
      same j ne = let e : truncated.inode_table j ≡ s.inode_table j = ground arith in rw e refl

  kept-FileReady : (mode : ℕ) → content s i ≡ text_after s mode i → FileReady mode s
  kept-FileReady mode text =
      (v, u, file, text, (λ j w. (w, λ ne. refl)), (λ other j. (λ x. x, λ x. x)))

  untouched :
      (mode : ℕ)
      → (has_flag mode tfs_o_trunc && ltb 0 (s.inode_table i).i_size) ≡ false
      → content s i ≡ text_after s mode i
  untouched mode e = elim (Bool-cases (has_flag mode tfs_o_trunc)) [
    | inl trunc ↦ rw trunc (sym (content_none s (ground (arith, e, trunc))))
    | inr keep ↦ rw keep refl
  ]

  other : IsFreeOf (inode_lock i) root_lock
  other = ground (arith, u)

  pub open_existing-FileOpened :
      (mode : ℕ)
      → (has_flag mode tfs_o_trunc ≡ true → IsUnmoved s i)
      → Returns (FileOpenedUnlocked mode) (open_existing mode i s root_lock)
  unfolding open_existing
  open_existing-FileOpened mode unmoved =
      elim (Bool-cases (has_flag mode tfs_o_trunc && ltb 0 (s.inode_table i).i_size)) [
        | inl e ↦
            let trunc : has_flag mode tfs_o_trunc ≡ true = ground (arith, e) in
            let full : 0 < (s.inode_table i).i_size = ground (arith, e) in
            rw (open_resolved-truncated full mode root_lock other refl trunc) (
              opened-FileOpened mode truncated (truncated-FileReady mode full trunc (unmoved trunc))
                refl refl refl)
        | inr e ↦
            let text = untouched mode e in
            let size : (s.inode_table i).i_size ≡ length (text_after s mode i) =
              sym (length-content s v.store i u) ∙ ap (λ xs. length xs) text in
            rw (open_resolved-kept mode root_lock other e, size)
              (opened-FileOpened mode s (kept-FileReady mode text) refl refl refl)
      ]
