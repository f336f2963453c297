-- ===== src/Tfs/Open/Existing.antt =====
-- `tfs_open` of a name that the directory has.
use mbroker_tfs.Base.{
  ℕ, ◌≤◌, ◌<◌, ◌≡◌, ◌≢◌, ◌⊎◌, ◌↔◌, refl, sym, ap, ◌∙◌, inl, inr, true, false, ◌&&◌, Option, none,
  some, List, [], length, CString, c_str, arith, Bool-cases, if◌then◌else◌, ltb,
}
use mbroker_tfs.Tfs.State.{Tfs, done, data_block_free}
use mbroker_tfs.Tfs.Invariant.{content, IsInUse, IsHandle, IsValid}
use mbroker_tfs.Tfs.Returns.{Returns, weaken}
use mbroker_tfs.Tfs.OpenFiles.{add_to_open_file_table}
use mbroker_tfs.Tfs.Dir.Lookup.{Names}
use mbroker_tfs.Tfs.Changes.{IsUnmoved, opened, opened-IsValid, truncated, truncated-IsValid}
use mbroker_tfs.Tfs.ReadWrite.Steps.{inode_get-done, length-content}
use mbroker_tfs.Tfs.Open.{has_flag, tfs_o_trunc, tfs_o_append, truncate, open_existing}
use mbroker_tfs.Tfs.Open.Handles.{IsTableFull, Added, add_to_open_file_table-Added}

-- The file `i` of the name holds `text`, and the other names and files are as before.
pub record Holds (s : Tfs) (name : CString) (i : ℕ) (text : List ℕ) (t : Tfs) : Type 0 where
  pub valid : IsValid t
  pub in_use : IsInUse t i
  pub named : Names t name i
  pub holds : content t i ≡ text
  pub others : (j : ℕ) → IsInUse s j → j ≢ i → IsInUse t j × (content t j ≡ content s j)
  pub others_named :
      (other : CString) (j : ℕ) → c_str other ≢ c_str name → Names s other j ↔ Names t other j

-- Handle `h` is new, of file `i` and at the offset, and the handles that were open are as before.
pub record HasHandle (s : Tfs) (i offset h : ℕ) (t : Tfs) : Type 0 where
  pub is_new : ¬ IsHandle s h
  pub is_open : IsHandle t h
  pub handle : t.open_file_table h ≡ record { of_inumber = i; of_offset = offset }
  pub handles : (k : ℕ) → IsHandle s k → IsHandle t k × (t.open_file_table k ≡ s.open_file_table k)
  pub only_new : (k : ℕ) → k ≢ h → IsHandle t k → IsHandle s k

-- The table of open files is as before.
abbrev pub SameHandles : Tfs → Tfs → Type 0
SameHandles s t =
    (t.fs_params ≡ s.fs_params)
    × (t.open_file_table ≡ s.open_file_table)
    × (t.free_open_file_entries ≡ s.free_open_file_entries)

-- The call returns a new handle of the file, or -1 since every handle is open.
abbrev pub Opened : Tfs → CString → ℕ → List ℕ → ℕ → Option ℕ → Tfs → Type 0
Opened s name i text offset r t =
    Holds s name i text t
    × (((h : ℕ) × (r ≡ some h) × HasHandle s i offset h t)
        ⊎ ((r ≡ none) × SameHandles s t × IsTableFull s))

module _ (s t : Tfs) (name : CString) (i offset : ℕ) (text : List ℕ) (ready : Holds s name i text t)
    (within : offset ≤ length text) (params : t.fs_params ≡ s.fs_params)
    (table : t.open_file_table ≡ s.open_file_table)
    (frees : t.free_open_file_entries ≡ s.free_open_file_entries) where
  opened-Holds : (h : ℕ) → Holds s name i text (opened t ready.valid h i offset)
  opened-Holds h = record {
    valid = opened-IsValid t ready.valid h i offset ready.in_use fits;
    in_use = ready.in_use;
    named = ready.named;
    holds = ready.holds;
    others = ready.others;
    others_named = ready.others_named;
  }
    where
      fits : offset ≤ (t.inode_table i).i_size
      fits =
          omega
            (arith, length-content t ready.valid i ready.in_use, ap (λ xs. length xs) ready.holds)

  opened-HasHandle :
      (h : ℕ)
      → ¬ IsHandle t h
      → h < t.fs_params.max_open_files_count
      → HasHandle s i offset h (opened t ready.valid h i offset)
  opened-HasHandle h closed in_table = record {
    is_new = λ o. closed (rw (params, frees) o);
    is_open = ground arith;
    handle = ground arith;
    handles = λ k o. kept k (rw (params, frees) o);
    only_new =
        λ k ne o. let before : IsHandle t k = ground (arith, ne, o) in rw (params, frees) at before;
  }
    where
      kept :
          (k : ℕ)
          → IsHandle t k
          → IsHandle (opened t ready.valid h i offset) k
            × ((opened t ready.valid h i offset).open_file_table k ≡ s.open_file_table k)
      kept k o = ground (arith, ap (λ f. f k) table)

  -- Adding a handle to a state in which the file is ready
  pub Opened-Added :
      (r : Option ℕ) (u : Tfs) → Added t ready.valid i offset r u → Opened s name i text offset r u
  Opened-Added r u (inl (h, er, closed, in_table, eu)) =
      rw eu (opened-Holds h, inl (h, er, opened-HasHandle h closed in_table))
  Opened-Added r u (inr (er, eu, full)) =
      rw eu (ready, inr (er, (params, table, frees), rw (params, frees) at full))

-- What the file holds after the call, and the offset of the new handle
abbrev pub text_after : Tfs → ℕ → ℕ → List ℕ
text_after s mode i = if has_flag mode tfs_o_trunc then [] else content s i

abbrev pub offset_after : Tfs → ℕ → ℕ → ℕ
offset_after s mode i = if has_flag mode tfs_o_append then length (text_after s mode i) else 0

content_none : (s : Tfs) (i : ℕ) → (s.inode_table i).i_size ≡ 0 → [] ≡ content s i
content_none s i e = rw e

module _ (s : Tfs) (v : IsValid s) (mode : ℕ) (name : CString) (i : ℕ) (named : Names s name i)
    (unmoved : has_flag mode tfs_o_trunc ≡ true → IsUnmoved s i) where
  in_use : IsInUse s i
  in_use = v.1.in_use named.0 i named.1

  unchanged-Holds : content s i ≡ text_after s mode i → Holds s name i (text_after s mode i) s
  unchanged-Holds e = record {
    valid = v;
    in_use = in_use;
    named = named;
    holds = e;
    others = λ j u ne. (u, refl);
    others_named = λ other j ne. (λ x. x, λ x. x);
  }

  truncated-Holds :
      has_flag mode tfs_o_trunc ≡ true
      → 0 < (s.inode_table i).i_size
      → Holds s name i (text_after s mode i) (truncated s v i)
  truncated-Holds trunc p = record {
    valid = truncated-IsValid s v i in_use p (unmoved trunc);
    in_use = in_use;
    named = named;
    holds = rw trunc (sym (content_none (truncated s v i) i (ground arith)));
    others = λ j u ne. (u, same j ne);
    others_named = λ other j ne. (λ x. x, λ x. x);
  }
    where
      same : (j : ℕ) → j ≢ i → content (truncated s v i) j ≡ content s j
      same j ne = let e : (truncated s v i).inode_table j ≡ s.inode_table j = ground arith in rw e

  truncate-done :
      has_flag mode tfs_o_trunc ≡ true
      → 0 < (s.inode_table i).i_size
      → truncate mode i (s.inode_table i) s ≡ done tt (truncated s v i)
  unfolding truncate data_block_free
  truncate-done trunc p = ground (arith, v.0.file i in_use, trunc)

  truncate-skip :
      (has_flag mode tfs_o_trunc && ltb 0 (s.inode_table i).i_size) ≡ false
      → truncate mode i (s.inode_table i) s ≡ done tt s
  unfolding truncate
  truncate-skip e = rw e

  -- Adding the handle, once the file is ready in state `t`
  add-Opened :
      (t : Tfs) (ready : Holds s name i (text_after s mode i) t)
      → t.fs_params ≡ s.fs_params
      → t.open_file_table ≡ s.open_file_table
      → t.free_open_file_entries ≡ s.free_open_file_entries
      → Returns (Opened s name i (text_after s mode i) (offset_after s mode i)) (
          add_to_open_file_table i
            (if has_flag mode tfs_o_append then (t.inode_table i).i_size else 0)
            t)
  add-Opened t ready params table frees = rw offset (
      weaken (add_to_open_file_table-Added t ready.valid i (offset_after s mode i)) (
        Opened-Added s t name i (offset_after s mode i) (text_after s mode i) ready (ground arith)
          params table frees))
    where
      size : (t.inode_table i).i_size ≡ length (text_after s mode i)
      size = sym (length-content t ready.valid i ready.in_use) ∙ ap (λ xs. length xs) ready.holds

      offset :
          (if has_flag mode tfs_o_append then (t.inode_table i).i_size else 0)
          ≡ offset_after s mode i
      offset = rw size

  pub open_existing-Opened :
      Returns
        (Opened s name i (text_after s mode i) (offset_after s mode i))
        (open_existing mode i s)
  unfolding open_existing
  open_existing-Opened =
      rw (inode_get-done s i v.0 in_use.1)
        (elim (Bool-cases (has_flag mode tfs_o_trunc && ltb 0 (s.inode_table i).i_size)) [
          | inl e ↦
              let trunc : has_flag mode tfs_o_trunc ≡ true = ground (arith, e) in
              let p : 0 < (s.inode_table i).i_size = ground (arith, e) in
              let ready = truncated-Holds trunc p in
              rw (truncate-done trunc p, inode_get-done (truncated s v i) i ready.valid.0 in_use.1)
                (add-Opened (truncated s v i) ready refl refl refl)
          | inr e ↦
              rw (truncate-skip e, inode_get-done s i v.0 in_use.1)
                (add-Opened s (unchanged-Holds (untouched e)) refl refl refl)
        ])
    where
      untouched :
          (has_flag mode tfs_o_trunc && ltb 0 (s.inode_table i).i_size) ≡ false
          → content s i ≡ text_after s mode i
      untouched e = elim (Bool-cases (has_flag mode tfs_o_trunc)) [
        | inl trunc ↦ rw trunc (sym (content_none s i (ground (arith, e, trunc))))
        | inr keep ↦ rw keep
      ]
