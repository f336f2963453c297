-- ===== src/Links/Names/Unlink.antt =====
-- `tfs_unlink` on a valid file system.
use mbroker_tfs.Base.{
  ℕ, ◌-◌, ◌<◌, ◌≡◌, ◌⊎◌, refl, sym, ◌∙◌, inl, inr, Bool, true, false, none, some, [], ◌∷◌, drop,
  weight-le-total, CString, strlen, arith, Option-cases, ◌==◌, if◌then◌else◌, ℕ_discrete,
}
use mbroker_tfs.Tfs.State.{root_dir_inum}
use mbroker_tfs.Tfs.Dir.{find_name}
use mbroker_tfs.Tfs.Open.{valid_pathname}
use mbroker_tfs.Links.State.{
  t_file, t_symlink, Inode, Fs, Held, done, writing, inode_lock, lock, unlock, ◌>>=◌, ◌>>◌,
  inode_get, max_dir_entries,
}
use mbroker_tfs.Links.Inodes.{inode_delete}
use mbroker_tfs.Links.Dir.{is_directory, is_symlink}
use mbroker_tfs.Links.Names.{link_fails, drop_link, unlink_entry, unlink_found, tfs_unlink}
use mbroker_tfs.Links.Returns.{Returns, returns, bind}
use mbroker_tfs.Links.Invariant.{dir, content, IsInUse, IsStore, IsValid, refers, names_of}
use mbroker_tfs.Links.Lookup.{
  Names, file_named, Names-file_named, not-Names_of_none, find_name_of_Names,
}
use mbroker_tfs.Links.Changes.{
  IsDir-clear, with_dir-IsStore, with_links, with_links-IsStore, deleted, deleted-IsStore,
}
use mbroker_tfs.Links.Steps.{
  inode_get-done, lock-done, cleared, clear_dir_entry-done, names_of-cleared, IsClosed, IsOpen,
  OpenTest, file_is_open-OpenTest, inode_delete-done,
}
use mbroker_tfs.Links.Entry.{
  content-with_dir, content-with_links, cleared-gone, cleared-OthersNamed,
}
use mbroker_tfs.Links.Names.Link.{tfs_lookup-done, type-cases, strlen-drop}
use mbroker_tfs.Links.Names.Remove.{
  Unnamed, Dropped, IsValidBut, IsValid-IsValidBut, removed, removed-Unnamed, removed-Dropped,
}

abbrev pub held_all : ℕ → Held
held_all i = (inode_lock i, writing) ∷ (inode_lock 0, writing) ∷ []

unlink_entry-done :
    (s : Fs) (v : IsStore s) (root : Inode) (name : CString) (i k : ℕ)
    → 0 < i
    → root ≡ s.inode_table root_dir_inum
    → find_name (dir s) (drop 1 name) (max_dir_entries s) ≡ some k
    → unlink_entry name root i s (held_all i) ≡ done true (cleared s v k) []
unfolding unlink_entry
unlink_entry-done s v root name i k p same e =
    rw (clear_dir_entry-done s v root (drop 1 name) k (held_all i) same (ground (arith, p)) e)
      (ground (arith, p))

-- Why no name was removed: it is not there, or it is of a file that is open.
abbrev pub CannotUnlink : Fs → CString → Type 0
CannotUnlink s name =
    ((i : ℕ) → ¬ Names s name i)
    ⊎ ((i : ℕ) × Names s name i × ((s.inode_table i).i_node_type ≡ t_file) × IsOpen s i)

-- Either the name is gone, and the file if this was its last name, or the call returns -1 and nothing
-- changes. No lock stays held.
abbrev pub DropResult : Fs → CString → Bool → Fs → Held → Type 0
DropResult s name r t l =
    (l ≡ [])
    × (((i : ℕ) × (r ≡ true) × Names s name i × IsClosed s i × Unnamed s name i t × Dropped s i t)
        ⊎ ((r ≡ false) × (t ≡ s) × CannotUnlink s name))

module _ (s : Fs) (v : IsValid s) (name : CString) (i : ℕ) (named : Names s (drop 1 name) i)
    (some_name : 0 < strlen (drop 1 name)) where
  u : IsInUse s i
  u = v.names.in_use named.0 i named.1

  abbrev root : Inode
  root = s.inode_table root_dir_inum

  abbrev k : ℕ
  k = named.0

  found : find_name (dir s) (drop 1 name) (max_dir_entries s) ≡ some k
  found = find_name_of_Names s (drop 1 name) v.names some_name i named

  unlink_fails-done : link_fails i s (held_all i) ≡ done false s []
  unfolding link_fails unlock
  unlink_fails-done = ground (arith, u)

  some_links : 0 < names_of s i
  some_links =
      let w = weight-le-total (refers i) (max_dir_entries s) k (dir s) named.1.0 in
      ground (arith, w, named.1.1)

  module _ (link : (s.inode_table i).i_node_type ≡ t_symlink) where
    one_name : names_of s i ≡ 1
    one_name = sym (v.counted i u) ∙ (v.store.target i u link).0

    link-IsClosed : IsClosed s i
    link-IsClosed h o same = ground (arith, v.opens.type h o, link)

    unlink_link :
        Returns
          (DropResult s (drop 1 name))
          ((do inode_delete i; unlink_entry name root i) s (held_all i))
    unlink_link =
        rw
          (
            inode_delete-done s (held_all i) i v.store u (ground (arith, u)) (ground (arith, u)),
            unlink_entry-done (deleted s v.store i) (deleted-IsStore s v.store i u) root name i k
                u.0 refl found,
          )
          (returns (
            refl,
            inl (
              i,
              refl,
              named,
              link-IsClosed,
              removed-Unnamed s i (IsValid-IsValidBut s i v) u k named.1 one_name link-IsClosed
                  (drop 1 name) named.2,
              removed-Dropped s i (IsValid-IsValidBut s i v) u k named.1 one_name link-IsClosed,
            ),
          ))

  module _ (file : (s.inode_table i).i_node_type ≡ t_file) (closed : IsClosed s i) where
    abbrev relinked : Fs
    relinked = with_links s v.store i ((s.inode_table i).i_hard_links - 1)

    relinked-IsValidBut : IsValidBut i relinked
    relinked-IsValidBut = record {
      store = with_links-IsStore s v.store i _ file;
      names = v.names;
      opens = record {
        in_use = v.opens.in_use;
        type = λ h o. ground (arith, v.opens.type h o);
        within = λ h o. ground (arith, v.opens.within h o);
      };
      counted = λ j w ne. ground (arith, v.counted j w);
    }

    content-relinked : (j : ℕ) → content relinked j ≡ content s j
    content-relinked j = content-with_links s v.store i _ j

    still_root : root ≡ relinked.inode_table root_dir_inum
    still_root = ground (arith, u)

    -- The last name
    module _ (one : names_of s i ≡ 1) where
      abbrev file_removed : Fs
      file_removed = removed relinked i relinked-IsValidBut u k named.1 one closed

      file_removed-Unnamed : Unnamed s (drop 1 name) i file_removed
      file_removed-Unnamed =
          let x =
            removed-Unnamed relinked i relinked-IsValidBut u k named.1 one closed (drop 1 name)
              named.2 in
          record {
            valid = x.valid;
            gone = x.gone;
            others_named = x.others_named;
            files = λ j w ne. let (w', e) = x.files j w ne in (w', e ∙ content-relinked j);
            handles = refl;
            is_open = refl;
          }

      unlink_last :
          (do drop_link i (s.inode_table i); unlink_entry name root i) s (held_all i)
          ≡ done true file_removed []
      unfolding drop_link
      unlink_last =
          let m : (s.inode_table i).i_hard_links ≡ 1 = v.counted i u ∙ one in
          let test : ((s.inode_table i).i_hard_links == 1) ≡ true = ground (arith, m) in
          rw
            (
              test,
              inode_delete-done relinked (held_all i) i relinked-IsValidBut.store u
                  (ground (arith, u)) (ground (arith, u)),
            )
            (unlink_entry-done (deleted relinked relinked-IsValidBut.store i)
              (deleted-IsStore relinked relinked-IsValidBut.store i u) root name i k u.0 still_root
              found)

    -- A name of several
    module _ (more : 1 < names_of s i) where
      abbrev name_removed : Fs
      name_removed = cleared relinked relinked-IsValidBut.store k

      name_removed-IsValid : IsValid name_removed
      name_removed-IsValid = record {
        store = with_dir-IsStore relinked relinked-IsValidBut.store _;
        names = IsDir-clear v.names k;
        counted = λ j w.
            let less = names_of-cleared s v.store k i j named.1.0 named.1.1 in
            ground (arith, less, v.counted j w);
        opens = relinked-IsValidBut.opens;
      }

      name_removed-content : (j : ℕ) → IsInUse s j → content name_removed j ≡ content s j
      name_removed-content j w =
          content-with_dir relinked relinked-IsValidBut.store _ j w ∙ content-relinked j

      name_removed-Unnamed : Unnamed s (drop 1 name) i name_removed
      name_removed-Unnamed = record {
        valid = name_removed-IsValid;
        gone =
            cleared-gone relinked relinked-IsValidBut.store k (drop 1 name) i v.names named.1
              named.2;
        others_named =
            cleared-OthersNamed relinked relinked-IsValidBut.store k (drop 1 name) i v.names named.1
              named.2;
        files = λ j w ne. (w, name_removed-content j w);
        handles = refl;
        is_open = refl;
      }

      name_removed-Dropped : Dropped s i name_removed
      name_removed-Dropped = inr (more, u, name_removed-content i u, ground (arith, v.counted i u))

      unlink_name :
          (do drop_link i (s.inode_table i); unlink_entry name root i) s (held_all i)
          ≡ done true name_removed []
      unfolding drop_link
      unlink_name =
          let test : ((s.inode_table i).i_hard_links == 1) ≡ false =
            ground (arith, v.counted i u) in
          rw test (
            unlink_entry-done relinked relinked-IsValidBut.store root name i k u.0 still_root found)

    unlink_file :
        Returns
          (DropResult s (drop 1 name))
          ((do drop_link i (s.inode_table i); unlink_entry name root i) s (held_all i))
    unlink_file = elim (ℕ_discrete (names_of s i) 1) [
      | yes one ↦ rw (unlink_last one) (
          returns
            (refl, inl (i, refl, named, closed, file_removed-Unnamed one, inl (one, ground arith))))
      | no several ↦
          let more : 1 < names_of s i = omega (arith, some_links) in
          rw (unlink_name more) (
            returns (
              refl,
              inl (i, refl, named, closed, name_removed-Unnamed more, name_removed-Dropped more),
            ))
    ]

  abbrev held_root : Held
  held_root = (inode_lock 0, writing) ∷ []

  unlink_tested :
      (is_open : Bool) (t : Fs) (l : Held)
      → OpenTest s i held_root is_open t l
      → Returns (DropResult s (drop 1 name)) (
          (do
            lock (inode_lock i) writing
            n ← inode_get i
            if is_directory n.i_node_type
                then link_fails i
                else if is_symlink n.i_node_type
                then (do inode_delete i; unlink_entry name root i)
                else if is_open
                then link_fails i
                else (do drop_link i n; unlink_entry name root i))
            t l)
  unlink_tested is_open t l (et, el, test) =
      rw
        (
          et,
          el,
          lock-done s held_root (inode_lock i) writing (ground (arith, u, v.store.mounted))
              (ground (arith, u)),
          inode_get-done s (held_all i) i v.store u.1,
        )
        (elim (type-cases (s.inode_table i).i_node_type (v.store.file i u).0) [
          | inr link ↦
              let no_dir : is_directory (s.inode_table i).i_node_type ≡ false =
                ground (arith, link) in
              let a_link : is_symlink (s.inode_table i).i_node_type ≡ true = ground (arith, link) in
              rw (no_dir, a_link) (unlink_link link)
          | inl file ↦
              let no_dir : is_directory (s.inode_table i).i_node_type ≡ false =
                ground (arith, file) in
              let no_link : is_symlink (s.inode_table i).i_node_type ≡ false =
                ground (arith, file) in
              rw (no_dir, no_link)
                (elim test [
                  | inl (e, o) ↦
                      rw (e, unlink_fails-done)
                        (returns (refl, inr (refl, refl, inr (i, named, file, o))))
                  | inr (e, c) ↦ rw e (unlink_file file c)
                ])
        ])

  unlink_found-DropResult :
      Returns (DropResult s (drop 1 name)) (unlink_found name root (some i) s held_root)
  unfolding unlink_found
  unlink_found-DropResult = bind (file_is_open-OpenTest s i held_root refl) unlink_tested

-- On a valid file system with no lock held, `tfs_unlink` of a valid path ends without a failed assertion,
-- undefined behaviour or a deadlock, and with no lock held. Either the directory has the name, of a
-- symbolic link or of a file that is not open: the call returns 0 and the name is gone; if it was the last
-- one the link or the file is deleted, and else the file keeps its text and has one link less; other
-- names, files and handles are as before, and the file system is valid, so that every count of links is
-- the number of names. Or no entry has the name, or its file is open, and the call returns -1 and changes
-- nothing.
pub tfs_unlink-DropResult :
    (s : Fs) (target : CString)
    → IsValid s
    → valid_pathname (some target) ≡ true
    → Returns (DropResult s (drop 1 target)) (tfs_unlink (some target) s [])
unfolding tfs_unlink
tfs_unlink-DropResult s target v ok =
    rw
      (
        inode_get-done s [] root_dir_inum v.store v.store.some_inode,
        lock-done s [] (inode_lock 0) writing (ground (arith, v.store.mounted, v.store.some_inode))
            refl,
        tfs_lookup-done s ((inode_lock 0, writing) ∷ []) target v.store refl ok,
      )
      (elim (Option-cases (file_named s (drop 1 target))) [
        | inl e ↦
            rw (e, nothing)
              (returns (refl, inr (refl, refl, inl (not-Names_of_none s _ v.names e))))
        | inr (i, e) ↦ rw e (
            unlink_found-DropResult s v target i (Names-file_named s _ v.names i e)
              (strlen-drop target ok))
      ])
  where
    nothing :
        unlink_found target (s.inode_table root_dir_inum) none s ((inode_lock 0, writing) ∷ [])
        ≡ done false s []
    nothing = unfold unlink_found in unfold unlock in refl
