-- ===== src/Links/Lookup.antt =====
-- Finding a name, and a place for a new one, in a valid directory.
use mbroker_tfs.Base.{
  ℕ, zero, suc, ◌+◌, ◌≤◌, ◌<◌, ◌≡◌, ◌≢◌, ◌⊎◌, refl, sym, ap, ◌∙◌, inl, inr, true, false, ◌&&◌,
  Option, none, some, [], ◌∷◌, length, Array, take, CString, c_str, strlen, strncmp_eq, strncmp_iff,
  arith, Bool-cases, Option-cases, dec_le,
}
use mbroker_tfs.Tfs.State.{DirEntry, root_dir_inum, max_file_name}
use mbroker_tfs.Tfs.Dir.{is_empty, find_entry, find_name}
use mbroker_tfs.Tfs.Invariant.{IsEntry}
use mbroker_tfs.Tfs.Dir.Lookup.{
  find_name-some, is_named_entry, IsNames, number_at, find_entry-some, IsEntry-find, is_named-eq,
}
use mbroker_tfs.Links.State.{
  Fs, Held, done, writing, dir_lock, conflicts, max_dir_entries, data_block_get,
}
use mbroker_tfs.Links.Dir.{is_none, Place, exists, full, at_index, find_place, find_in_dir}
use mbroker_tfs.Links.Invariant.{dir, IsInUse, IsStore, IsDir}

pub IsDir-IsNames :
    {n : ℕ} {es : Array DirEntry} {InUse : ℕ → Type 0} → IsDir n es InUse → IsNames n es
IsDir-IsNames d = record { short = d.short; blank = d.blank; names_apart = d.names_apart }

abbrev pub file_named : Fs → CString → Option ℕ
file_named s name = number_at (dir s) (find_entry (dir s) name (max_dir_entries s))

pub find_in_dir-done :
    (s : Fs) (l : Held) (name : CString)
    → IsStore s
    → conflicts dir_lock writing l ≡ false
    → find_in_dir (s.inode_table root_dir_inum) name s l ≡ done (file_named s name) s l
unfolding find_in_dir data_block_get
find_in_dir-done s l name v free =
    ground (arith, v.root_type, v.root_block, v.root_entries, v.some_block, free)

-- Entry `k` has the name and number `i`.
abbrev pub Names : Fs → CString → ℕ → Type 0
Names s name i =
    (k : ℕ) × IsEntry (max_dir_entries s) (dir s) k i × (c_str (dir s k).d_name ≡ c_str name)

module _ (s : Fs) (name : CString) (d : IsDir (max_dir_entries s) (dir s) (IsInUse s)) where
  pub Names-file_named : (i : ℕ) → file_named s name ≡ some i → Names s name i
  Names-file_named i e = elim (Option-cases (find_entry (dir s) name (max_dir_entries s))) [
    | inl z ↦ absurd (let e' = rw z at e in cc)
    | inr (k, z) ↦
        let (j, en, same) = IsEntry-find (IsDir-IsNames d) name k z in
        let e' : (dir s k).d_inumber ≡ some i = rw z at e in (k, (en.0, e'), same)
  ]

  pub file_named_of_Names : (i : ℕ) → Names s name i → file_named s name ≡ some i
  file_named_of_Names i (k, en, same) = rw (find_entry-some (IsDir-IsNames d) name k i en same) en.1

  pub not-Names_of_none : file_named s name ≡ none → (i : ℕ) → ¬ Names s name i
  not-Names_of_none e i x = let f = file_named_of_Names i x in cc

-- The loop of `add_dir_entry` from index `k` on: what it finds
abbrev Found : Array DirEntry → CString → Option ℕ → ℕ → ℕ → Place → Type 0
Found es name index n k exists =
    (j : ℕ) × (j < k + n) × (strncmp_eq (es j).d_name name max_file_name ≡ true)
Found es name index n k full =
    (index ≡ none) × ((j : ℕ) → k ≤ j → j < k + n → is_empty (es j) ≡ false)
Found es name index n k (at_index m) =
    ((index ≡ some m) ⊎ ((m < k + n) × (is_empty (es m) ≡ true)))
    × ((j : ℕ)
        → k ≤ j
        → j < k + n
        → is_empty (es j) ≡ false
        → strncmp_eq (es j).d_name name max_file_name ≡ false)

module _ (es : Array DirEntry) (name : CString) (n k : ℕ) where
  -- The first empty entry is at `k`.
  Found-empty :
      (p : Place)
      → is_empty (es k) ≡ true
      → Found es name (some k) n (suc k) p
      → Found es name none (suc n) k p
  Found-empty exists e (j, h, t) = (j, omega arith, t)
  Found-empty full e (x, f) = absurd (cc)
  Found-empty (at_index m) e (where_it_is, f) = (
    elim where_it_is [
      | inl same ↦ inr (ground (arith, same), ground (arith, same))
      | inr (h, t) ↦ inr (omega arith, t)
    ],
    λ j p q t. elim (dec_le (suc k) j) [
      | yes above ↦ f j above (omega arith) t
      | no here ↦ let same : j ≡ k = omega arith in absurd (ground (arith, same))
    ],
  )

  -- Entry `k` is passed.
  Found-next :
      (index : Option ℕ) (p : Place)
      → (is_empty (es k) && is_none index) ≡ false
      → strncmp_eq (es k).d_name name max_file_name ≡ false
      → Found es name index n (suc k) p
      → Found es name index (suc n) k p
  Found-next index exists e t (j, h, u) = (j, omega arith, u)
  Found-next index full e t (x, f) = (
    x,
    λ j p q. elim (dec_le (suc k) j) [
      | yes above ↦ f j above (omega arith)
      | no here ↦ let same : j ≡ k = omega arith in rw same (ground (arith, e, x))
    ],
  )
  Found-next index (at_index m) e t (where_it_is, f) = (
    elim where_it_is [ inl same ↦ inl same | inr (h, u) ↦ inr (omega arith, u) ],
    λ j p q u. elim (dec_le (suc k) j) [
      | yes above ↦ f j above (omega arith) u
      | no here ↦ let same : j ≡ k = omega arith in rw same t
    ],
  )

find_place-Found :
    (es : Array DirEntry) (name : CString) (index : Option ℕ) (n k : ℕ)
    → Found es name index n k (find_place es name index n k)
unfolding find_place
find_place-Found es name none zero k = (refl, λ j p q. absurd (omega arith))
find_place-Found es name (some m) zero k = (inl refl, λ j p q. absurd (omega arith))
find_place-Found es name index (suc n) k = elim (Bool-cases (is_empty (es k) && is_none index)) [
  | inl e ↦ elim (Option-cases index) [
    | inl z ↦
        let e' : is_empty (es k) ≡ true = ground (arith, e, z) in
        rw (z, e') (Found-empty es name n k _ e' (find_place-Found es name (some k) n (suc k)))
    | inr (m, z) ↦ absurd (ground (arith, e, z))
  ]
  | inr e ↦ elim (Bool-cases (strncmp_eq (es k).d_name name max_file_name)) [
    | inl t ↦ rw (e, t) (k, omega arith, t)
    | inr t ↦
        rw (e, t) (Found-next es name n k index _ e t (find_place-Found es name index n (suc k)))
  ]
]

-- In a valid directory: the name is there, or it is not and the place is an empty entry, or no entry is
-- empty.
abbrev pub PlaceFound : Fs → CString → Place → Type 0
PlaceFound s name exists = (i : ℕ) × Names s name i
PlaceFound s name full = (k : ℕ) → k < max_dir_entries s → (i : ℕ) × ((dir s k).d_inumber ≡ some i)
PlaceFound s name (at_index k) =
    (k < max_dir_entries s) × ((dir s k).d_inumber ≡ none) × ((i : ℕ) → ¬ Names s name i)

no_blank_match :
    (s name : CString) → c_str s ≡ [] → 0 < strlen name → strncmp_eq s name max_file_name ≡ true → ⊥
unfolding strlen
no_blank_match s name blank some_name t =
    let same : take 40 (c_str s) ≡ take 40 (c_str name) = (strncmp_iff s name 40).0 t in
    absurd (no_take (c_str name) some_name (sym same ∙ ap (take 40) blank))
  where
    no_take : (xs : CString) → 0 < length xs → take 40 xs ≢ []
    no_take [] p e = absurd (omega arith)
    no_take (x ∷ xs) p e = cc

module _ (s : Fs) (name : CString) (d : IsDir (max_dir_entries s) (dir s) (IsInUse s))
    (some_name : 0 < strlen name) where
  Found-PlaceFound :
      (p : Place) → Found (dir s) name none (max_dir_entries s) 0 p → PlaceFound s name p
  Found-PlaceFound exists (j, h, t) = elim (Option-cases (dir s j).d_inumber) [
    | inl z ↦ absurd (no_blank_match (dir s j).d_name name (d.blank j (omega arith) z) some_name t)
    | inr (i, z) ↦
        let en : IsEntry (max_dir_entries s) (dir s) j i = (omega arith, z) in
        (i, (j, en, is_named-eq (IsDir-IsNames d) name j i en (ground (arith, t, z))))
  ]
  Found-PlaceFound full (x, f) = λ k h. elim (Option-cases (dir s k).d_inumber) [
    | inl z ↦ absurd (ground (arith, f k (omega arith) (omega arith), z))
    | inr (i, z) ↦ (i, z)
  ]
  Found-PlaceFound (at_index k) (inl e, f) = absurd (cc)
  Found-PlaceFound (at_index k) (inr (h, t), f) = (
    omega arith,
    ground (arith, t),
    λ i (l, en, same).
        let hit = is_named_entry (IsDir-IsNames d) name l i en same in
        ground (arith, hit, f l (omega arith) (omega arith)),
  )

  pub find_place-PlaceFound : PlaceFound s name (find_place (dir s) name none (max_dir_entries s) 0)
  find_place-PlaceFound =
      Found-PlaceFound _ (find_place-Found (dir s) name none (max_dir_entries s) 0)

  -- The loop of `clear_dir_entry` finds the entry of the name.
  pub find_name_of_Names :
      (i : ℕ) (x : Names s name i) → find_name (dir s) name (max_dir_entries s) ≡ some x.0
  unfolding strlen
  find_name_of_Names i x =
      find_name-some (IsDir-IsNames d) name x.0 i x.1 x.2 (λ e. ground (arith, some_name, e))
