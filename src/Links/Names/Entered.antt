-- ===== src/Links/Names/Entered.antt =====
-- The states in which a new symbolic link has its name, or is given back.
use mathlib.Core.Path.{subst}
use mbroker_tfs.Base.{
  ℕ, ◌<◌, ◌≡◌, ◌≢◌, ◌↔◌, refl, sym, ap, ◌∙◌, inl, inr, some, CString, c_str, arith, ℕ_discrete,
}
use mbroker_tfs.Tfs.State.{bytes}
use mbroker_tfs.Tfs.Invariant.{as_bytes, IsEntry}
use mbroker_tfs.Links.State.{t_symlink, Fs, max_dir_entries}
use mbroker_tfs.Links.Invariant.{dir, block_of, IsInUse, IsStore, IsCounted, IsValid, names_of}
use mbroker_tfs.Links.Lookup.{Names}
use mbroker_tfs.Links.Changes.{IsDir-map, with_dir-IsStore, deleted, deleted-IsStore}
use mbroker_tfs.Links.Steps.{IsDirFull, CannotEnter, CanEnter, filled, names_of-filled}
use mbroker_tfs.Links.Entry.{
  OthersNamed, Keeps, content-with_dir, filled-IsDir, filled-Names, filled-OthersNamed,
}
use mbroker_tfs.Links.Names.Make.{target_block, c_str-target_block}
use mbroker_tfs.Links.Fresh.{unnamed, unopened, no_names}
use mbroker_tfs.Links.Names.Pointed.{
  IsRoom, pointed, not_root, not_root_block, same_dir, same_inode, new_inode, pointed-IsStore,
  pointed-IsDir, pointed-Keeps, pointed-IsOpens, same_names,
}

-- A symbolic link `i` of the name is new, and holds the target's name; all else is as before.
pub record SymLinked (s : Fs) (target name : CString) (i : ℕ) (t : Fs) : Type 0 where
  pub valid : IsValid t
  pub is_new : ¬ IsInUse s i
  pub named : Names t name i
  pub type : (t.inode_table i).i_node_type ≡ t_symlink
  pub text : c_str (as_bytes (t.fs_data (block_of (t.inode_table i)))) ≡ c_str target
  pub others_named : OthersNamed s name t
  pub files : Keeps s t
  pub handles : t.open_file_table ≡ s.open_file_table
  pub is_open : t.free_open_file_entries ≡ s.free_open_file_entries

-- Nothing that was there has changed.
pub record Unchanged (s t : Fs) : Type 0 where
  pub valid : IsValid t
  pub files : Keeps s t
  pub names : (other : CString) (j : ℕ) → Names s other j ↔ Names t other j
  pub handles : t.open_file_table ≡ s.open_file_table
  pub is_open : t.free_open_file_entries ≡ s.free_open_file_entries

pub Unchanged-refl : (s : Fs) → IsValid s → Unchanged s s
Unchanged-refl s v = record {
  valid = v;
  files = λ j u. (u, refl);
  names = λ other j. (λ x. x, λ x. x);
  handles = refl;
  is_open = refl;
}

module _ (s : Fs) (v : IsValid s) (target : CString) (i b : ℕ) (r : IsRoom s target i b) where
  abbrev pub ready : Fs
  ready = pointed s v target i b r

  pub store : IsStore ready
  store = pointed-IsStore s v target i b r

  pub in_use : IsInUse ready i
  in_use = ground (arith, not_root s v target i b r, r.in_table)

  -- The directory has not changed yet.
  pub Names-ready : (other : CString) (j : ℕ) → Names s other j ↔ Names ready other j
  Names-ready other j = (
    subst (λ es. (k : ℕ) × IsEntry (max_dir_entries s) es k j × (c_str (es k).d_name ≡ c_str other))
        (sym (same_dir s v target i b r)),
    subst (λ es. (k : ℕ) × IsEntry (max_dir_entries s) es k j × (c_str (es k).d_name ≡ c_str other))
        (same_dir s v target i b r),
  )

  full_before : IsDirFull ready → IsDirFull s
  full_before =
      subst (λ es. (k : ℕ) → k < max_dir_entries s → (j : ℕ) × ((es k).d_inumber ≡ some j))
        (same_dir s v target i b r)

  pub CannotEnter-ready : (name : CString) → CannotEnter ready name → CannotEnter s name
  CannotEnter-ready name (inl bad) = inl bad
  CannotEnter-ready name (inr (inl (j, x))) = inr (inl (j, (Names-ready name j).1 x))
  CannotEnter-ready name (inr (inr full)) = inr (inr (full_before full))

  -- The link is given back.
  abbrev pub undone : Fs
  undone = deleted ready store i

  undone-IsValid : IsValid undone
  undone-IsValid = record {
    store = deleted-IsStore ready store i in_use;
    names =
        IsDir-map (pointed-IsDir s v target i b r) (λ k j e u. ground (arith, named_before k j e));
    counted = λ j u. counted_before j u;
    opens = record {
      in_use = λ h o.
          ground
            (arith, (pointed-IsOpens s v target i b r).in_use h o, unopened s v i r.unused h o);
      type = (pointed-IsOpens s v target i b r).type;
      within = (pointed-IsOpens s v target i b r).within;
    };
  }
    where
      named_before : (k j : ℕ) → IsEntry (max_dir_entries s) (dir ready) k j → j ≢ i
      named_before k j e same = unnamed s v i r.unused k (
          subst (λ es. IsEntry (max_dir_entries s) es k i) (same_dir s v target i b r)
            (e.0, e.1 ∙ ap some same))

      counted_before :
          (j : ℕ) → IsInUse undone j → (undone.inode_table j).i_hard_links ≡ names_of undone j
      counted_before j u =
          let ne : j ≢ i = ground arith in
          let was : IsInUse s j = ground (arith, ne) in
          let inode = same_inode s v target i b r j ne in
          let names = same_names s v target i b r j in rw inode (v.counted j was ∙ sym names)

  pub undone-Unchanged : Unchanged s undone
  undone-Unchanged = record {
    valid = undone-IsValid;
    files =
        λ j u. let (w, e) = pointed-Keeps s v target i b r j u in (ground (arith, w, r.unused), e);
    names = Names-ready;
    handles = refl;
    is_open = refl;
  }

  -- The link has its name.
  module _ (name : CString) (k : ℕ) (can : CanEnter ready name k) where
    abbrev pub entered : Fs
    entered = filled ready store k name i

    entered-IsCounted : IsCounted entered
    entered-IsCounted j u =
        let more = names_of-filled ready store k name i j can.1 can.2 in
        let names = same_names s v target i b r j in
        elim (ℕ_discrete j i) [
          | yes e ↦
              ground (arith, e, more, names, no_names s v i r.unused, new_inode s v target i b r)
          | no ne ↦
              let was : IsInUse s j = ground (arith, ne) in
              ground (arith, more, names, same_inode s v target i b r j ne, v.counted j was, ne)
        ]

    holds_target :
        c_str (as_bytes (entered.fs_data (block_of (entered.inode_table i)))) ≡ c_str target
    holds_target =
        let root_apart = not_root_block s v target i b r in
        let block : entered.fs_data b ≡ bytes (target_block target (as_bytes (s.fs_data b))) =
          ground (arith, root_apart) in
        ap (λ n. c_str (as_bytes (entered.fs_data (block_of n)))) (new_inode s v target i b r)
        ∙ ap (λ x. c_str (as_bytes x)) block
        ∙ c_str-target_block target (as_bytes (s.fs_data b))

    pub entered-SymLinked : SymLinked s target name i entered
    entered-SymLinked = record {
      valid = record {
        store = with_dir-IsStore ready store _;
        names = filled-IsDir ready store k name i can (pointed-IsDir s v target i b r) in_use;
        counted = entered-IsCounted;
        opens = pointed-IsOpens s v target i b r;
      };
      is_new = λ u. ground (arith, r.unused);
      named = filled-Names ready store k name i can;
      type = ground arith;
      text = holds_target;
      others_named = λ other j ne.
          let (to, from) = filled-OthersNamed ready store k name i can other j ne in
          let (to', from') = Names-ready other j in (λ x. to (to' x), λ x. from' (from x));
      files = λ j u.
          let (w, e) = pointed-Keeps s v target i b r j u in
          (w, content-with_dir ready store _ j w ∙ e);
      handles = refl;
      is_open = refl;
    }
