-- ===== src/Links/Open/Result.antt =====
-- `tfs_open` with symbolic links: the whole call.
use mbroker_tfs.Base.{
  ℕ, ◌≤◌, ◌<◌, ◌≡◌, ◌⊎◌, refl, ap, inl, inr, Bool, true, false, Option, none, some, [], drop, take,
  Array, CString, arith, Bool-cases, Option-cases, if◌then◌else◌,
}
use mbroker_tfs.Tfs.State.{free, root_dir_inum, Allocation, OpenFile}
use mbroker_tfs.Tfs.Invariant.{as_bytes}
use mbroker_tfs.Tfs.Open.{has_flag, tfs_o_trunc, tfs_o_creat, valid_pathname}
use mbroker_tfs.Links.State.{Fs, Held, Run, done, looping, writing, inode_lock, ◌>>◌}
use mbroker_tfs.Links.Inodes.{inode_delete}
use mbroker_tfs.Links.Open.{open_at, open_fails, open_created, open_found, tfs_open}
use mbroker_tfs.Links.Returns.{Returns, returns, bind, weaken}
use mbroker_tfs.Links.Invariant.{content, block_of, IsInUse, IsValid}
use mbroker_tfs.Links.Lookup.{Names, file_named, Names-file_named, not-Names_of_none}
use mbroker_tfs.Links.Steps.{
  CanEnter, inode_get-done, lock-done, CannotEnter, EntryMade, add_dir_entry-EntryMade,
  inode_delete-done,
}
use mbroker_tfs.Links.Entry.{OthersNamed, Keeps}
use mbroker_tfs.Links.Names.Link.{tfs_lookup-done}
use mbroker_tfs.Links.Names.Entered.{Unchanged, Unchanged-refl}
use mbroker_tfs.Links.Names.SymLink.{IsTakenUp}
use mbroker_tfs.Links.Open.Handles.{opened-IsValid, Added}
use mbroker_tfs.Links.Open.Resolve.{Leads, Goes, resolve-Leads, resolve-Goes, Leads-or-Goes}
use mbroker_tfs.Links.Open.Rounds.{Leads-bound, Leads-file, Goes-forever}
use mbroker_tfs.Links.Open.NewHandle.{
  IsUnmoved, HandleMade, root_lock, open_at-Added, opened-HandleMade,
}
use mbroker_tfs.Links.Open.Existing.{FileOpened, open_existing-FileOpened}
use mbroker_tfs.Links.Open.Created.{
  made, file_made, FileMade, inode_create-FileMade, made-IsInUse, same_root, made-IsStore,
  made-IsDir, undone, undone-Unchanged, entered, entered-IsValid, entered-Names,
  entered-OthersNamed, entered-Keeps, entered-new_file,
}

-- A new file `i` has the name and is empty, and is opened at its start if a handle is free.
pub record FileCreated (s : Fs) (name : CString) (i : ℕ) (r : Option ℕ) (t : Fs) : Type 0 where
  pub valid : IsValid t
  pub is_new : ¬ IsInUse s i
  pub named : Names t name i
  pub text : content t i ≡ []
  pub others_named : OthersNamed s name t
  pub files : Keeps s t
  pub handle : HandleMade s i 0 r t

-- A new file of the name; or -1 and nothing has changed. No lock stays held.
abbrev pub Created : Fs → CString → Option ℕ → Fs → Held → Type 0
Created s name r t l =
    (l ≡ [])
    × (((i : ℕ) × FileCreated s name i r t)
        ⊎ ((r ≡ none) × Unchanged s t × (IsTakenUp s ⊎ CannotEnter s name)))

module _ (s : Fs) (v : IsValid s) (path : CString) where
  open_fails-done : (t : Fs) → open_fails t root_lock ≡ done none t []
  unfolding open_fails
  open_fails-done t = refl

  module _ (i : ℕ) (in_table : i < s.fs_params.max_inode_count)
      (unused : s.freeinode_ts i ≡ free) where
    abbrev ready : Fs
    ready = file_made s i

    module _ (k : ℕ) (can : CanEnter (made s v i in_table unused) (drop 1 path) k) where
      abbrev named : Fs
      named = entered s v i in_table unused (drop 1 path) k can

      abbrev named-IsValid : IsValid named
      named-IsValid = entered-IsValid s v i in_table unused (drop 1 path) k can

      -- The table of open files does not matter for the rest.
      with_handle :
          (frees : Array Allocation) (table : Array OpenFile) (r : Option ℕ)
          → (let t = record named { free_open_file_entries = frees; open_file_table = table } in
              IsValid t → HandleMade s i 0 r t → FileCreated s (drop 1 path) i r t)
      with_handle frees table r valid handle = record {
        valid = valid;
        is_new = λ u. ground (arith, u.2);
        named = entered-Names s v i in_table unused (drop 1 path) k can;
        text =
            ap (λ n. take n.i_size (as_bytes (named.fs_data (block_of n))))
              (entered-new_file s v i in_table unused (drop 1 path) k can);
        others_named = entered-OthersNamed s v i in_table unused (drop 1 path) k can;
        files = entered-Keeps s v i in_table unused (drop 1 path) k can;
        handle = handle;
      }

      opened-Created :
          (r : Option ℕ) (t : Fs) (l : Held)
          → Added named named-IsValid i 0 [] r t l
          → Created s (drop 1 path) r t l
      opened-Created r t l (el, inl (h, er, closed, in_range, et)) =
          let handle =
            opened-HandleMade named named-IsValid i 0 s r t l refl refl refl
              (el, inl (h, er, closed, in_range, et)) in
          (
            el,
            inl (
              i,
              rw et (
                  with_handle _ _ r
                    (opened-IsValid named named-IsValid h i 0 (made-IsInUse s v i in_table unused)
                      (ground arith) (omega arith))
                    (rw et at handle)),
            ),
          )
      opened-Created r t l (el, inr (er, et, all)) =
          let handle =
            opened-HandleMade named named-IsValid i 0 s r t l refl refl refl
              (el, inr (er, et, all)) in
          (el, inl (i, rw et (with_handle _ _ r named-IsValid (rw et at handle))))

    entry-Created :
        (added : Bool) (t : Fs) (l : Held)
        → EntryMade ready (made-IsStore s v i in_table unused) (drop 1 path) i root_lock added t l
        → Returns
            (Created s (drop 1 path))
            ((if added then open_at i 0 else (do inode_delete i; open_fails)) t l)
    entry-Created added t l (el, inl (k, e, can, et)) =
        rw (e, et, el)
          (weaken (open_at-Added _ (entered-IsValid s v i in_table unused (drop 1 path) k can) i 0)
            (opened-Created k can))
    entry-Created added t l (el, inr (e, et, why)) =
        rw
          (
            e,
            et,
            el,
            inode_delete-done ready root_lock i (made-IsStore s v i in_table unused)
                (made-IsInUse s v i in_table unused) refl refl,
            open_fails-done (undone s v i in_table unused),
          )
          (returns (refl, inr (refl, undone-Unchanged s v i in_table unused, inr why)))

    open_created-Created :
        Returns
          (Created s (drop 1 path))
          (open_created path (s.inode_table root_dir_inum) (some i) ready root_lock)
    unfolding open_created
    open_created-Created = rw (same_root s v i in_table unused) (
        bind
          (add_dir_entry-EntryMade ready (made-IsStore s v i in_table unused)
            (made-IsDir s v i in_table unused) (drop 1 path) i root_lock refl)
          entry-Created)

  inode-Created :
      (r : Option ℕ) (t : Fs) (l : Held)
      → FileMade s r t l
      → Returns (Created s (drop 1 path)) (open_created path (s.inode_table root_dir_inum) r t l)
  inode-Created r t l (el, inl (i, e, in_table, unused, et)) =
      rw (e, et, el) (open_created-Created i in_table unused)
  inode-Created r t l (el, inr (e, et, all)) =
      rw (e, et, el, none_done) (returns (refl, inr (refl, Unchanged-refl s v, inl all)))
    where
      none_done : open_created path (s.inode_table root_dir_inum) none s root_lock ≡ done none s []
      none_done = unfold open_created open_fails in refl

-- The ways in which a call of `tfs_open` ends. No lock stays held.
abbrev pub OpenEnd : Fs → CString → ℕ → Option ℕ → Fs → Held → Type 0
OpenEnd s name mode r t l =
    (l ≡ [])
    × (((i j n : ℕ) × Names s name i × Leads s i (some j) n × FileOpened s mode j r t)
        ⊎ ((i n : ℕ) × Names s name i × Leads s i none n × (r ≡ none) × (t ≡ s))
        ⊎ (((i : ℕ) → ¬ Names s name i) × (has_flag mode tfs_o_creat ≡ true) × Created s name r t l)
        ⊎ (((i : ℕ) → ¬ Names s name i)
            × (has_flag mode tfs_o_creat ≡ false)
            × (r ≡ none)
            × (t ≡ s)))

-- Symbolic links lead on from the name's number without end.
abbrev pub IsEndless : Fs → CString → Type 0
IsEndless s name = (i : ℕ) × Names s name i × ((m : ℕ) → Goes s i m)

module _ (s : Fs) (v : IsValid s) (path : CString) (mode fuel : ℕ)
    (enough : s.fs_params.max_inode_count ≤ fuel) where
  abbrev opens : Option ℕ → Run (Option ℕ)
  opens found = open_found fuel path mode (s.inode_table root_dir_inum) found s root_lock

  absent-OpenEnd :
      ((j : ℕ) → ¬ Names s (drop 1 path) j) → Returns (OpenEnd s (drop 1 path) mode) (opens none)
  unfolding open_found
  absent-OpenEnd absent = elim (Bool-cases (has_flag mode tfs_o_creat)) [
    | inl creat ↦ rw creat (
        weaken (bind (inode_create-FileMade s) (inode-Created s v path))
          (λ r t l x. (x.0, inr (inr (inl (absent, creat, x))))))
    | inr keep ↦ rw keep (returns (refl, inr (inr (inr (absent, keep, refl, refl)))))
  ]

  module _ (i : ℕ) (named : Names s (drop 1 path) i)
      (unmoved : (j n : ℕ)
        → Leads s i (some j) n
        → has_flag mode tfs_o_trunc ≡ true
        → IsUnmoved s j) where
    in_use : IsInUse s i
    in_use = v.names.in_use named.0 i named.1

    there-OpenEnd :
        (r : Option ℕ) (n : ℕ)
        → Leads s i r n
        → Returns (OpenEnd s (drop 1 path) mode) (opens (some i))
    unfolding open_found
    there-OpenEnd (some j) n d =
        let short : n < fuel = omega (arith, Leads-bound s v in_use d, enough) in
        let (used, file) = Leads-file s v in_use d in
        rw (resolve-Leads s v root_lock refl fuel i n (some j) in_use d short) (
          weaken (open_existing-FileOpened s v j used file mode (unmoved j n d))
            (λ r t l x. (x.0, inl (i, j, n, named, d, x.1))))
    there-OpenEnd none n d =
        let short : n < fuel = omega (arith, Leads-bound s v in_use d, enough) in
        rw (resolve-Leads s v root_lock refl fuel i n none in_use d short)
          (returns (refl, inr (inl (i, n, named, d, refl, refl))))

    opens-looping : ((m : ℕ) → Goes s i m) → opens (some i) ≡ looping
    unfolding open_found
    opens-looping far = rw (resolve-Goes s v root_lock refl fuel i in_use (far fuel)) refl

    found-OpenEnd :
        Returns (OpenEnd s (drop 1 path) mode) (opens (some i))
        ⊎ (IsEndless s (drop 1 path) × (opens (some i) ≡ looping))
    found-OpenEnd = elim (Leads-or-Goes s v s.fs_params.max_inode_count i in_use) [
      | inl (r, n, h, d) ↦ inl (there-OpenEnd r n d)
      | inr g ↦ let far = Goes-forever s v in_use g in inr ((i, named, far), opens-looping far)
    ]

-- On a valid file system with links and no lock held, `tfs_open` of a valid path, with as many rounds for its loop
-- as there are inodes or more, ends without a failed assertion, undefined behaviour or a deadlock and with
-- no lock held, unless the symbolic links lead on from the name without end: then it never returns. (With
-- TFS_O_TRUNC no open handle of the file that is reached has moved from its start.) When it ends, either
-- the directory has the name, and the links lead to a file, which is opened: emptied first with TFS_O_TRUNC,
-- at the end of its text with TFS_O_APPEND and else at its start; or they lead to a name that is not
-- there, and the call returns -1 and changes nothing. Or no entry has the name and TFS_O_CREAT is given, and
-- a new empty file of the name is opened, or the call returns -1 with nothing changed since the name is
-- not valid, the directory is full or every inode is in use. Or no entry has the name and the flag is not
-- given, and the call returns -1 and changes nothing. The handle returned is a new one, or -1 when every
-- handle is open. Other names, files and handles stay as before, and the file system valid.
pub tfs_open-OpenEnd :
    (s : Fs) (path : CString) (mode fuel : ℕ)
    → IsValid s
    → valid_pathname (some path) ≡ true
    → s.fs_params.max_inode_count ≤ fuel
    → ((i j n : ℕ)
        → Names s (drop 1 path) i
        → Leads s i (some j) n
        → has_flag mode tfs_o_trunc ≡ true
        → IsUnmoved s j)
    → Returns (OpenEnd s (drop 1 path) mode) (tfs_open fuel (some path) mode s [])
      ⊎ (IsEndless s (drop 1 path) × (tfs_open fuel (some path) mode s [] ≡ looping))
unfolding tfs_open
tfs_open-OpenEnd s path mode fuel v ok enough unmoved =
    rw
      (
        ok,
        inode_get-done s [] root_dir_inum v.store v.store.some_inode,
        lock-done s [] (inode_lock 0) writing (ground (arith, v.store.mounted, v.store.some_inode))
            refl,
        tfs_lookup-done s root_lock path v.store refl ok,
      )
      (elim (Option-cases (file_named s (drop 1 path))) [
        | inl e ↦ rw e (
            inl (
              absent-OpenEnd s v path mode fuel enough
                (not-Names_of_none s (drop 1 path) v.names e)))
        | inr (i, e) ↦
            let x = Names-file_named s (drop 1 path) v.names i e in
            rw e (found-OpenEnd s v path mode fuel enough i x (λ j n. unmoved i j n x))
      ])
