-- ===== src/Links/Names/Link.antt =====
-- `tfs_link` on a valid file system.
use mbroker_tfs.Base.{
  ℕ, ◌+◌, ◌<◌, ◌≡◌, ◌≢◌, ◌⊎◌, refl, ◌∙◌, inl, inr, Bool, true, false, none, some, [], ◌∷◌, drop,
  CString, c_str, strlen, arith, Option-cases, if◌then◌else◌,
}
use mbroker_tfs.Tfs.State.{root_dir_inum}
use mbroker_tfs.Tfs.Open.{valid_pathname}
use mbroker_tfs.Links.State.{
  InodeType, t_file, t_directory, t_symlink, Fs, Held, done, reading, writing, inode_lock, unlock,
  dir_lock, pure, ◌>>◌, put_inode,
}
use mbroker_tfs.Links.Dir.{is_directory, is_symlink, fetch_file}
use mbroker_tfs.Links.Open.{tfs_lookup}
use mbroker_tfs.Links.Names.{add_name, link_fails, link_found, tfs_link}
use mbroker_tfs.Links.Returns.{Returns, returns, bind}
use mbroker_tfs.Links.Invariant.{IsInUse, IsStore, IsCounted, IsOpens, IsHandle, IsValid}
use mbroker_tfs.Links.Lookup.{
  Names, file_named, find_in_dir-done, Names-file_named, not-Names_of_none,
}
use mbroker_tfs.Links.Changes.{with_links, with_links-IsStore, with_dir-IsStore}
use mbroker_tfs.Links.Steps.{
  inode_get-done, lock-done, unlock-done, IsFreeOf, CannotEnter, CanEnter, filled, EntryMade,
  add_dir_entry-EntryMade, names_of-filled,
}
use mbroker_tfs.Links.Entry.{
  OthersNamed, Keeps, content-with_dir, content-with_links, filled-IsDir, filled-Names,
  filled-OthersNamed,
}

-- File `i` has the new name too, and all else is as before.
pub record Linked (s : Fs) (name : CString) (i : ℕ) (t : Fs) : Type 0 where
  pub valid : IsValid t
  pub named : Names t name i
  pub links : (t.inode_table i).i_hard_links ≡ (s.inode_table i).i_hard_links + 1
  pub others_named : OthersNamed s name t
  pub files : Keeps s t
  pub handles : t.open_file_table ≡ s.open_file_table
  pub is_open : t.free_open_file_entries ≡ s.free_open_file_entries

module _ (s : Fs) (v : IsValid s) (k : ℕ) (name : CString) (i : ℕ) (u : IsInUse s i)
    (type : (s.inode_table i).i_node_type ≡ t_file) (can : CanEnter s name k) where
  abbrev entered : Fs
  entered = filled s v.store k name i

  abbrev pub linked : Fs
  linked = with_links entered (with_dir-IsStore s v.store _) i ((s.inode_table i).i_hard_links + 1)

  linked-IsCounted : IsCounted linked
  linked-IsCounted j w =
      let more = names_of-filled s v.store k name i j can.1 can.2 in
      ground (arith, more, v.counted j)

  linked-IsOpens :
      IsOpens (IsHandle linked) linked.open_file_table (IsInUse linked) linked.inode_table
  linked-IsOpens = record {
    in_use = v.opens.in_use;
    type = λ h o. ground (arith, v.opens.type h o);
    within = λ h o. ground (arith, v.opens.within h o);
  }

  linked-Keeps : Keeps s linked
  linked-Keeps j w = (
    w,
    content-with_links entered (with_dir-IsStore s v.store _) i _ j
        ∙ content-with_dir s v.store _ j w,
  )

  pub linked-Linked : Linked s name i linked
  linked-Linked = record {
    valid = record {
      store = with_links-IsStore entered (with_dir-IsStore s v.store _) i _ type;
      names = filled-IsDir s v.store k name i can v.names u;
      counted = linked-IsCounted;
      opens = linked-IsOpens;
    };
    named = filled-Names s v.store k name i can;
    links = ground arith;
    others_named = filled-OthersNamed s v.store k name i can;
    files = linked-Keeps;
    handles = refl;
    is_open = refl;
  }

-- Why no link was made: no entry has the target's name, or it is a symbolic link, or the new name cannot be
-- entered.
abbrev pub CannotLink : Fs → CString → CString → Type 0
CannotLink s target name =
    ((i : ℕ) → ¬ Names s target i)
    ⊎ ((i : ℕ) × Names s target i × ((s.inode_table i).i_node_type ≡ t_symlink))
    ⊎ CannotEnter s name

-- Either the file of the target's name has the new name too, or the call returns -1 and nothing changes.
-- No lock stays held.
abbrev pub LinkResult : Fs → CString → CString → Bool → Fs → Held → Type 0
LinkResult s target name r t l =
    (l ≡ [])
    × (((i : ℕ) × (r ≡ true)
          × Names s target i
          × ((s.inode_table i).i_node_type ≡ t_file)
          × ((j : ℕ) → ¬ Names s name j)
          × Linked s name i t)
        ⊎ ((r ≡ false) × (t ≡ s) × CannotLink s target name))

pub tfs_lookup-done :
    (s : Fs) (l : Held) (name : CString)
    → IsStore s
    → IsFreeOf dir_lock l
    → valid_pathname (some name) ≡ true
    → tfs_lookup (some name) (s.inode_table root_dir_inum) s l
      ≡ done (file_named s (drop 1 name)) s l
unfolding tfs_lookup fetch_file
tfs_lookup-done s l name v free ok =
    let root : is_directory (s.inode_table root_dir_inum).i_node_type ≡ true =
      ground (arith, v.root_type) in
    rw (ok, root) (find_in_dir-done s l (drop 1 name) v free)

-- A valid path is a slash and a name that is not empty.
pub strlen-drop : (name : CString) → valid_pathname (some name) ≡ true → 0 < strlen (drop 1 name)
unfolding valid_pathname strlen c_str
strlen-drop [] h = ground arith
strlen-drop (c ∷ s) h = ground arith

pub type-cases : (t : InodeType) → t ≢ t_directory → (t ≡ t_file) ⊎ (t ≡ t_symlink)
type-cases t_file ne = inl refl
type-cases t_symlink ne = inr refl
type-cases t_directory ne = absurd (ne refl)

abbrev pub held_both : ℕ → Held
held_both i = (inode_lock i, writing) ∷ (inode_lock 0, reading) ∷ []

module _ (s : Fs) (v : IsValid s) (target : CString) (link_name : CString) (i : ℕ)
    (named : Names s target i) where
  u : IsInUse s i
  u = v.names.in_use named.0 i named.1

  link_fails-done : link_fails i s (held_both i) ≡ done false s []
  unfolding link_fails unlock
  link_fails-done = ground arith

  module _ (file : (s.inode_table i).i_node_type ≡ t_file) where
    link_entered :
        (added : Bool) (t : Fs) (l : Held)
        → EntryMade s v.store (drop 1 link_name) i (held_both i) added t l
        → Returns (LinkResult s target (drop 1 link_name)) (
            (if added
                then (do
                  put_inode i (record (s.inode_table i) {
                    i_hard_links = (s.inode_table i).i_hard_links + 1;
                  })
                  unlock (inode_lock i)
                  unlock (inode_lock root_dir_inum)
                  pure true)
                else link_fails i)
              t l)
    link_entered added t l (el, inl (k, e, can, et)) =
        rw
          (
            e,
            et,
            el,
            unlock-done (linked s v k (drop 1 link_name) i u file can)
                ((inode_lock 0, reading) ∷ []) (inode_lock i) writing,
            unlock-done (linked s v k (drop 1 link_name) i u file can) [] (inode_lock 0) reading,
          )
          (returns (
            refl,
            inl (i, refl, named, file, can.3, linked-Linked s v k (drop 1 link_name) i u file can),
          ))
    link_entered added t l (el, inr (e, et, why)) =
        rw (e, et, el, link_fails-done) (returns (refl, inr (refl, refl, inr (inr why))))

  pub link_found-LinkResult : Returns (LinkResult s target (drop 1 link_name)) (
      link_found
        (some link_name)
        (s.inode_table root_dir_inum)
        (some i)
        s
        ((inode_lock 0, reading) ∷ []))
  unfolding link_found add_name
  link_found-LinkResult =
      rw
        (
          lock-done s ((inode_lock 0, reading) ∷ []) (inode_lock i) writing
              (ground (arith, u, v.store.mounted)) (ground (arith, u)),
          inode_get-done s (held_both i) i v.store u.1,
        )
        (elim (type-cases (s.inode_table i).i_node_type (v.store.file i u).0) [
          | inr link ↦
              let test : is_symlink (s.inode_table i).i_node_type ≡ true = ground (arith, link) in
              rw (test, link_fails-done)
                (returns (refl, inr (refl, refl, inr (inl (i, named, link)))))
          | inl file ↦
              let test : is_symlink (s.inode_table i).i_node_type ≡ false = ground (arith, file) in
              rw test (
                bind
                  (add_dir_entry-EntryMade s v.store v.names (drop 1 link_name) i (held_both i)
                    (ground (arith, u)))
                  (link_entered file))
        ])

-- On a valid file system with no lock held, `tfs_link` of a valid path to a name that is not NULL ends
-- without a failed assertion, undefined behaviour or a deadlock, and with no lock held. Either the
-- directory has the target's name, of a file, and not the new one: the call returns 0, the file has both
-- names, its count of links is one more, other names, files and handles are as before, and the file
-- system is valid, so that every count of links is the number of names. Or the target has no entry, or is
-- a symbolic link, or the new name is too short, too long, in use, or finds no room, and the call returns
-- -1 and changes nothing.
pub tfs_link-LinkResult :
    (s : Fs) (target link_name : CString)
    → IsValid s
    → valid_pathname (some target) ≡ true
    → Returns
        (LinkResult s (drop 1 target) (drop 1 link_name))
        (tfs_link (some target) (some link_name) s [])
unfolding tfs_link
tfs_link-LinkResult s target link_name v ok =
    rw
      (
        inode_get-done s [] root_dir_inum v.store v.store.some_inode,
        lock-done s [] (inode_lock 0) reading (ground (arith, v.store.mounted, v.store.some_inode))
            refl,
        tfs_lookup-done s ((inode_lock 0, reading) ∷ []) target v.store refl ok,
      )
      (elim (Option-cases (file_named s (drop 1 target))) [
        | inl e ↦
            rw (e, nothing)
              (returns (refl, inr (refl, refl, inl (not-Names_of_none s _ v.names e))))
        | inr (i, e) ↦ rw e (
            link_found-LinkResult s v (drop 1 target) link_name i
              (Names-file_named s _ v.names i e))
      ])
  where
    nothing :
        link_found
          (some link_name)
          (s.inode_table root_dir_inum)
          none
          s
          ((inode_lock 0, reading) ∷ [])
        ≡ done false s []
    nothing = unfold link_found in unfold unlock in refl
