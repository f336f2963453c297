-- ===== src/Links/Import/Result.antt =====
-- `tfs_copy_from_external_fs` on a valid file system.
use mbroker_tfs.Base.{
  ℕ, suc, ◌-◌, ◌≡◌, ◌≢◌, ◌⊎◌, refl, ap, inl, inr, Bool, true, false, none, some, List, [], take,
  length, CString, arith,
}
use mbroker_tfs.Links.State.{Fs, Held}
use mbroker_tfs.Links.Returns.{Returns, returns, bind}
use mbroker_tfs.Links.Invariant.{content, IsInUse, IsValid}
use mbroker_tfs.Links.Lookup.{Names}
use mbroker_tfs.Links.Open.Resolve.{Leads}
use mbroker_tfs.Links.Open.Handles.{IsTableFull, HandleClosed, tfs_close-HandleClosed}
use mbroker_tfs.Links.Import.{CopyEnd, copy_ended, copy_opened}
use mbroker_tfs.Links.Names.SymLink.{IsTakenUp}
use mbroker_tfs.Links.Steps.{CannotEnter}
use mbroker_tfs.Links.Import.Copied.{IsDiskFull, IsCopying, LoopEnd, copy_loop-LoopEnd}

-- File `j` has been written: it holds as much of the text as fits into a block, and the result is that of `fclose`;
-- or it is empty, and the result is -1, since every handle is open or every block in use. Other files are as they were in `s`.
pub record Imported (s : Fs) (j : ℕ) (text : List ℕ) (closes r : Bool) (t : Fs) : Type 0 where
  pub valid : IsValid t
  pub others : (k : ℕ) → IsInUse s k → k ≢ j → content t k ≡ content s k
  pub contents :
      ((r ≡ closes) × (content t j ≡ take t.fs_params.block_size text))
      ⊎ ((r ≡ false) × (content t j ≡ []) × (IsTableFull s ⊎ IsDiskFull t))

-- The file of the name, which is there or is new, has been written; or no file has changed and the result is -1,
-- since the links lead to a name that is not there, or no file of the name can be made.
-- No lock stays held.
abbrev pub ImportResult : Fs → CString → List ℕ → Bool → Bool → Fs → Held → Type 0
ImportResult s name text closes r t l =
    (l ≡ [])
    × (((i j n : ℕ) × Names s name i × Leads s i (some j) n × Imported s j text closes r t)
        ⊎ ((j : ℕ) × (¬ IsInUse s j) × Names t name j × Imported s j text closes r t)
        ⊎ ((r ≡ false)
            × IsValid t
            × ((k : ℕ) → IsInUse s k → content t k ≡ content s k)
            × (((i n : ℕ) × Names s name i × Leads s i none n)
                ⊎ (((i : ℕ) → ¬ Names s name i) × (IsTakenUp s ⊎ CannotEnter s name)))))

-- The rest of the call once the file is open, from the state `t` in which it is empty
module _ (t : Fs) (h j : ℕ) (text : List ℕ) (closes : Bool) where
  -- What the copy gives
  abbrev CopyDone : Bool → Fs → Held → Type 0
  CopyDone r w l =
      (l ≡ [])
      × IsValid w
      × ((k : ℕ) → IsInUse t k → k ≢ j → content w k ≡ content t k)
      × ((name : CString) → Names t name j → Names w name j)
      × (((r ≡ closes) × (content w j ≡ take w.fs_params.block_size text))
          ⊎ ((r ≡ false) × (content w j ≡ []) × IsDiskFull w))

  -- After `tfs_close`
  closed-CopyDone :
      (u : Fs) (closed : Bool) (w : Fs) (m : Held) (text' : List ℕ)
      → IsCopying t h j text' u
      → HandleClosed u h closed w m
      → (closed ≡ true)
        × (m ≡ [])
        × IsValid w
        × ((k : ℕ) → IsInUse t k → k ≢ j → content w k ≡ content t k)
        × ((name : CString) → Names t name j → Names w name j)
        × (content w j ≡ text')
        × (w.fs_params.block_size ≡ t.fs_params.block_size)
        × (IsDiskFull u → IsDiskFull w)
  closed-CopyDone u closed w m text' c (em, inl (er, o, valid, shut, others, ew)) = (
    er,
    em,
    valid,
    (λ k i ne. rw ew (c.others k i ne)),
    (λ name n. rw (ew, c.params, c.entries) n),
    rw ew c.contents,
    rw ew (ap (λ p. p.block_size) c.params),
    (λ full. rw ew full),
  )
  closed-CopyDone u closed w m text' c (em, inr (er, o, ew)) = absurd (o c.is_open)

  ended-CopyDone :
      (r : CopyEnd) (u : Fs) (l : Held)
      → LoopEnd t h j [] text r u l
      → Returns CopyDone (copy_ended (some h) closes r u l)
  unfolding copy_ended
  ended-CopyDone r u l (el, inl (er, c)) =
      rw (er, el)
        (bind (tfs_close-HandleClosed u h c.valid) (λ closed w m x.
          let (ec, em, valid, others, names, contents, size, disk) =
            closed-CopyDone u closed w m _ c x in
          let whole : t.fs_params.block_size - 0 ≡ t.fs_params.block_size = omega arith in
          rw ec (returns (em, valid, others, names, inl (refl, rw size (rw whole at contents))))))
  ended-CopyDone r u l (el, inr (er, nothing, c, full)) =
      rw (er, el)
        (bind (tfs_close-HandleClosed u h c.valid) (λ closed w m x.
          let (ec, em, valid, others, names, contents, size, disk) =
            closed-CopyDone u closed w m _ c x in
          returns (em, valid, others, names, inr (refl, contents, disk full))))

  pub copied-CopyDone :
      IsCopying t h j [] t → Returns CopyDone (copy_opened text closes (some h) t [])
  unfolding copy_opened
  copied-CopyDone c =
      bind (copy_loop-LoopEnd t h j (suc (length text)) [] text t (omega arith) (omega arith) c)
        ended-CopyDone
