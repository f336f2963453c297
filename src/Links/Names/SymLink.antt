-- ===== src/Links/Names/SymLink.antt =====
-- `tfs_sym_link` on a valid file system.
use mbroker_tfs.Base.{
  ℕ, ◌<◌, ◌≡◌, ◌⊎◌, refl, inl, inr, Bool, true, false, Option, none, some, [], ◌∷◌, drop,
  first-some, first-none, first-absent, CString, strlen, arith, Option-cases, if◌then◌else◌,
}
use mbroker_tfs.Tfs.State.{free, taken, root_dir_inum}
use mbroker_tfs.Links.State.{
  Fs, Held, done, deadlock, writing, inode_lock, lock, unlock, pure, ◌>>◌, inode_get,
  data_block_get,
}
use mbroker_tfs.Links.Inodes.{inode_delete}
use mbroker_tfs.Links.Names.{add_name, copy_target, sym_link_created, tfs_sym_link}
use mbroker_tfs.Links.Returns.{Returns, returns, bind}
use mbroker_tfs.Links.Invariant.{IsValid}
use mbroker_tfs.Links.Lookup.{Names}
use mbroker_tfs.Links.Steps.{
  inode_get-done, lock-done, unlock-done, CannotEnter, filled, EntryMade, add_dir_entry-EntryMade,
  inode_delete-done, free_inode, free_block,
}
use mbroker_tfs.Links.Names.Make.{
  link_inode, link_made, inode_create-done, inode_create-none, inode_create-deadlock,
}
use mbroker_tfs.Links.Names.Pointed.{
  IsRoom, pointed, not_root, not_root_block, pointed-IsStore, pointed-IsDir,
}
use mbroker_tfs.Links.Names.Entered.{
  SymLinked, Unchanged, Unchanged-refl, in_use, Names-ready, CannotEnter-ready, undone,
  undone-Unchanged, entered-SymLinked,
}

-- Every inode is in use.
abbrev pub IsTakenUp : Fs → Type 0
IsTakenUp s = (i : ℕ) → i < s.fs_params.max_inode_count → s.freeinode_ts i ≡ taken

-- Either the link is made, or the call returns -1 and nothing that was there has changed. No lock stays
-- held.
abbrev pub SymLinkResult : Fs → CString → CString → Bool → Fs → Held → Type 0
SymLinkResult s target name r t l =
    (l ≡ [])
    × (((i : ℕ) × (r ≡ true) × ((j : ℕ) → ¬ Names s name j) × SymLinked s target name i t)
        ⊎ ((r ≡ false) × Unchanged s t × (IsTakenUp s ⊎ CannotEnter s name)))

module _ (s : Fs) (v : IsValid s) (target link_name : CString) (i b : ℕ)
    (r : IsRoom s target i b) where
  abbrev made : Fs
  made = link_made s i b

  abbrev held_link : Held
  held_link = (inode_lock i, writing) ∷ []

  lock-made : lock (inode_lock i) writing made [] ≡ done tt made held_link
  lock-made =
      lock-done made [] (inode_lock i) writing (ground (arith, v.store.mounted, r.in_table)) refl

  inode_get-made : inode_get i made held_link ≡ done (link_inode s b) made held_link
  unfolding inode_get
  inode_get-made = ground (arith, v.store.mounted, r.in_table)

  data_block_get-made : data_block_get (some b) made held_link ≡ done b made held_link
  unfolding data_block_get
  data_block_get-made = ground (arith, r.in_blocks)

  copy_target-made :
      copy_target b (some target) made held_link ≡ done tt (pointed s v target i b r) held_link
  unfolding copy_target
  copy_target-made =
      let holds_bytes = v.store.data_bytes b (not_root_block s v target i b r) in
      rw holds_bytes.0 (ground (arith, holds_bytes.1, r.fits))

  added-SymLinkResult :
      (added : Bool) (t : Fs) (l : Held)
      → EntryMade
          (pointed s v target i b r)
          (pointed-IsStore s v target i b r)
          (drop 1 link_name)
          i
          held_link
          added
          t
          l
      → Returns (SymLinkResult s target (drop 1 link_name)) (
          (if added
              then (do unlock (inode_lock i); pure true)
              else (do inode_delete i; unlock (inode_lock i); pure false))
            t l)
  added-SymLinkResult added t l (el, inl (k, e, can, et)) =
      rw
        (
          e,
          et,
          el,
          unlock-done
              (filled (pointed s v target i b r) (pointed-IsStore s v target i b r) k
                (drop 1 link_name) i)
              [] (inode_lock i) writing,
        )
        (returns (
          refl,
          inl (
            i,
            refl,
            (λ j x. can.3 j ((Names-ready s v target i b r (drop 1 link_name) j).0 x)),
            entered-SymLinked s v target i b r (drop 1 link_name) k can,
          ),
        ))
  added-SymLinkResult added t l (el, inr (e, et, why)) =
      rw
        (
          e,
          et,
          el,
          inode_delete-done (pointed s v target i b r) held_link i
              (pointed-IsStore s v target i b r) (in_use s v target i b r) refl refl,
          unlock-done (undone s v target i b r) [] (inode_lock i) writing,
        )
        (returns (
          refl,
          inr (
            refl,
            undone-Unchanged s v target i b r,
            inr (CannotEnter-ready s v target i b r (drop 1 link_name) why),
          ),
        ))

  created-SymLinkResult : Returns (SymLinkResult s target (drop 1 link_name)) (
      sym_link_created
        (some target)
        (some link_name)
        (s.inode_table root_dir_inum)
        (some i)
        made
        [])
  unfolding sym_link_created add_name
  created-SymLinkResult =
      let root : s.inode_table root_dir_inum
          ≡ (pointed s v target i b r).inode_table root_dir_inum =
        ground (arith, not_root s v target i b r) in
      rw (lock-made, inode_get-made, data_block_get-made, copy_target-made, root)
        (bind
          (add_dir_entry-EntryMade (pointed s v target i b r) (pointed-IsStore s v target i b r)
            (pointed-IsDir s v target i b r) (drop 1 link_name) i held_link refl)
          added-SymLinkResult)

-- On a valid file system with no lock held and a free block, `tfs_sym_link` of a target that fits into a
-- block and a name, neither of them NULL, ends without a failed assertion, undefined behaviour or a
-- deadlock, and with no lock held. Either the name is new and a new symbolic link has it and holds the
-- target: the call returns 0, other names, files and handles are as before, and the file system is
-- valid. Or every inode is in use, or the name is too short, too long, in use, or finds no room: the call
-- returns -1 and the names, the files and the handles are as before.
pub tfs_sym_link-SymLinkResult :
    (s : Fs) (target link_name : CString) (b : ℕ)
    → IsValid s
    → strlen target < s.fs_params.block_size
    → b < s.fs_params.max_block_count
    → s.free_blocks b ≡ free
    → Returns
        (SymLinkResult s target (drop 1 link_name))
        (tfs_sym_link (some target) (some link_name) s [])
unfolding tfs_sym_link
tfs_sym_link-SymLinkResult s target link_name b v fits in_blocks block_free =
    rw (inode_get-done s [] root_dir_inum v.store v.store.some_inode)
      (elim (Option-cases (free_inode s)) [
        | inl e ↦
            rw (inode_create-none s e, nothing)
              (returns (
                refl,
                inr (refl, Unchanged-refl s v, inl (λ i h. ground (arith, first-none _ _ e i h))),
              ))
        | inr (i, e) ↦
            let (hit, within, _) = first-some _ _ i e in
            elim (Option-cases (free_block s)) [
              | inl f ↦ absurd (ground (arith, first-none _ _ f b in_blocks, block_free))
              | inr (c, f) ↦
                  let (hit', within', _) = first-some _ _ c f in
                  rw (inode_create-done s i within e c f) (
                    created-SymLinkResult s v target link_name i c (record {
                      in_table = within;
                      unused = ground (arith, hit);
                      in_blocks = within';
                      block_free = ground (arith, hit');
                      fits = fits;
                    }))
            ]
      ])
  where
    nothing :
        sym_link_created (some target) (some link_name) (s.inode_table root_dir_inum) none s []
        ≡ done false s []
    nothing = unfold sym_link_created in refl

-- With a free inode and no free block, `tfs_sym_link` never returns, whatever its arguments: it waits for
-- the lock of the inode table, which it holds.
pub tfs_sym_link-deadlock :
    (s : Fs) (target link_name : Option CString) (i : ℕ)
    → IsValid s
    → i < s.fs_params.max_inode_count
    → s.freeinode_ts i ≡ free
    → ((b : ℕ) → b < s.fs_params.max_block_count → s.free_blocks b ≡ taken)
    → tfs_sym_link target link_name s [] ≡ deadlock
unfolding tfs_sym_link
tfs_sym_link-deadlock s target link_name i v in_table unused none_free =
    rw (inode_get-done s [] root_dir_inum v.store v.store.some_inode)
      (elim (Option-cases (free_inode s)) [
        | inl e ↦ absurd (ground (arith, first-none _ _ e i in_table, unused))
        | inr (j, e) ↦
            let (hit, within, _) = first-some _ _ j e in
            rw
              (inode_create-deadlock s j within e
                (first-absent _ _ (λ b h. ground (arith, none_free b h))))
              refl
      ])
