-- ===== src/Tfs/Dir/Lookup.antt =====
-- `find_in_dir` in a valid directory, and which entry the loops of the directory find.
use mbroker_tfs.Base.{
  ℕ, ◌<◌, ◌≡◌, ◌≢◌, ◌↔◌, sym, ap, ◌∙◌, inl, inr, true, Option, none, some, List, [], Array,
  first-some, first_unique, length, take, take_long, length-take, CString, c_str, strlen, strcmp_eq,
  strcmp_iff, strncmp_iff, arith, Option-cases,
}
use mbroker_tfs.Tfs.State.{
  DirEntry, Tfs, done, root_dir_inum, max_dir_entries, max_file_name, data_block_get,
}
use mbroker_tfs.Tfs.Invariant.{dir, IsInUse, IsStore, IsDir, IsEntry}
use mbroker_tfs.Tfs.Dir.{is_named, find_entry, find_name, find_in_dir}

-- The number that the directory gives to a name
abbrev pub number_at : Array DirEntry → Option ℕ → Option ℕ
number_at es none = none
number_at es (some k) = (es k).d_inumber

abbrev pub file_named : Tfs → CString → Option ℕ
file_named s name = number_at (dir s) (find_entry (dir s) name (max_dir_entries s))

pub find_in_dir-done :
    (s : Tfs) (name : CString)
    → IsStore s
    → find_in_dir (s.inode_table root_dir_inum) name s ≡ done (file_named s name) s
unfolding find_in_dir data_block_get
find_in_dir-done s name v = ground (arith, v.root_type, v.root_block, v.root_entries, v.some_block)

prefix_whole : (n : ℕ) (xs ys : List ℕ) → take n xs ≡ ys → length ys < n → xs ≡ ys
prefix_whole n xs ys e h =
    sym (take_long n xs (omega (arith, length-take {0} n xs, ap length e))) ∙ e

-- What finding a name relies on, whatever the entries are of
pub record IsNames (n : ℕ) (es : Array DirEntry) : Type 0 where
  pub short : (k i : ℕ) → IsEntry n es k i → strlen (es k).d_name < max_file_name
  pub blank : (k : ℕ) → k < n → (es k).d_inumber ≡ none → c_str (es k).d_name ≡ []
  pub names_apart :
      (k l i j : ℕ)
      → IsEntry n es k i
      → IsEntry n es l j
      → c_str (es k).d_name ≡ c_str (es l).d_name
      → k ≡ l

pub IsDir-IsNames :
    {n : ℕ} {es : Array DirEntry} {InUse : ℕ → Type 0} → IsDir n es InUse → IsNames n es
IsDir-IsNames d = record { short = d.short; blank = d.blank; names_apart = d.names_apart }

module _ {n : ℕ} {es : Array DirEntry} (d : IsNames n es) (name : CString) where
  -- The entry that the test of `find_in_dir` accepts is one of the name.
  pub is_named-eq :
      (k i : ℕ) → IsEntry n es k i → is_named name (es k) ≡ true → c_str (es k).d_name ≡ c_str name
  unfolding strlen
  is_named-eq k i e t =
      let short : length (c_str (es k).d_name) < 40 = d.short k i e in
      let same : take 40 (c_str (es k).d_name) ≡ take 40 (c_str name) =
        (strncmp_iff (es k).d_name name 40).0 (ground (arith, t)) in
      let whole : take 40 (c_str (es k).d_name) ≡ c_str (es k).d_name =
        take_long 40 (c_str (es k).d_name) (omega arith) in
      sym (prefix_whole 40 (c_str name) (c_str (es k).d_name) (sym same ∙ whole) short)

  pub is_named_entry :
      (k i : ℕ) → IsEntry n es k i → c_str (es k).d_name ≡ c_str name → is_named name (es k) ≡ true
  is_named_entry k i e same =
      let t = (strncmp_iff (es k).d_name name 40).1 (ap (take 40) same) in ground (arith, t)

  -- The loop of `find_in_dir` finds the entry of the name, if there is one.
  pub find_entry-some :
      (k i : ℕ)
      → IsEntry n es k i
      → c_str (es k).d_name ≡ c_str name
      → find_entry es name n ≡ some k
  find_entry-some k i e same =
      first_unique _ n k e.0 (is_named_entry k i e same) (λ j h t. one j h t)
    where
      one : (j : ℕ) → j < n → is_named name (es j) ≡ true → j ≡ k
      one j h t = elim (Option-cases (es j).d_inumber) [
        | inl z ↦ absurd (ground (arith, t, z))
        | inr (m, z) ↦ d.names_apart j k m i (h, z) e (is_named-eq j m (h, z) t ∙ sym same)
      ]

  -- What the loop finds is an entry of the name.
  pub IsEntry-find :
      (k : ℕ)
      → find_entry es name n ≡ some k
      → (i : ℕ) × IsEntry n es k i × (c_str (es k).d_name ≡ c_str name)
  IsEntry-find k e =
      let (t, h, _) = first-some _ n k e in
      elim (Option-cases (es k).d_inumber) [
        | inl z ↦ absurd (ground (arith, t, z))
        | inr (i, z) ↦ (i, (h, z), is_named-eq k i (h, z) t)
      ]

  -- The loop of `clear_dir_entry` finds the same entry.
  pub find_name-some :
      (k i : ℕ)
      → IsEntry n es k i
      → c_str (es k).d_name ≡ c_str name
      → c_str name ≢ []
      → find_name es name n ≡ some k
  find_name-some k i e same named =
      first_unique _ n k e.0 ((strcmp_iff (es k).d_name name).1 same) (λ j h t. one j h t)
    where
      one : (j : ℕ) → j < n → strcmp_eq (es j).d_name name ≡ true → j ≡ k
      one j h t =
          let alike = (strcmp_iff (es j).d_name name).0 t in
          elim (Option-cases (es j).d_inumber) [
            | inl z ↦ absurd (named (sym alike ∙ d.blank j h z))
            | inr (m, z) ↦ d.names_apart j k m i (h, z) e (alike ∙ sym same)
          ]

-- Entry `k` has the name and number `i`.
abbrev pub Names : Tfs → CString → ℕ → Type 0
Names s name i =
    (k : ℕ) × IsEntry (max_dir_entries s) (dir s) k i × (c_str (dir s k).d_name ≡ c_str name)

module _ (s : Tfs) (name : CString) (d : IsDir (max_dir_entries s) (dir s) (IsInUse s)) where
  pub Names-file_named : (i : ℕ) → file_named s name ≡ some i → Names s name i
  Names-file_named i e = elim (Option-cases (find_entry (dir s) name (max_dir_entries s))) [
    | inl z ↦ absurd (let e' = rw z at e in cc)
    | inr (k, z) ↦
        let (j, en, same) = IsEntry-find (IsDir-IsNames d) name k z in
        let e' : (dir s k).d_inumber ≡ some i = rw z at e in (k, (en.0, e'), same)
  ]

  pub file_named_of_Names : (i : ℕ) → Names s name i → file_named s name ≡ some i
  file_named_of_Names i (k, en, same) = rw (find_entry-some (IsDir-IsNames d) name k i en same) en.1

  pub not-Names_of_none : file_named s name ≡ none → (i : ℕ) → ¬ Names s name i
  not-Names_of_none e i x = let f = file_named_of_Names i x in cc

-- In a valid directory, `find_in_dir` returns the number `i` exactly when an entry has the name and
-- the number `i`. It changes nothing.
pub find_in_dir-Names :
    (s : Tfs) (name : CString) (i : ℕ)
    → IsStore s
    → IsDir (max_dir_entries s) (dir s) (IsInUse s)
    → (find_in_dir (s.inode_table root_dir_inum) name s ≡ done (some i) s) ↔ Names s name i
find_in_dir-Names s name i v d = (
  λ e. Names-file_named s name d i (let e' = find_in_dir-done s name v in cc),
  λ x. rw (find_in_dir-done s name v, file_named_of_Names s name d i x),
)
