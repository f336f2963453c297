-- ===== src/Links/Calls.antt =====
-- Sequences of calls on the file system with links.
use mbroker_tfs.Base.{
  ℕ, ◌^◌, ◌≤◌, ◌<◌, ◌≡◌, inl, inr, Bool, true, false, Option, some, List, [], length, drop, CString,
  strlen,
}
use mbroker_tfs.Tfs.State.{free, Params}
use mbroker_tfs.Tfs.Init.Fresh.{IsUsable}
use mbroker_tfs.Tfs.Open.{valid_pathname, has_flag, tfs_o_trunc}
use mbroker_tfs.Links.State.{Fs, Held, Run, done, looping}
use mbroker_tfs.Links.Init.{Memory, tfs_init}
use mbroker_tfs.Links.Open.{tfs_open, tfs_close}
use mbroker_tfs.Links.Names.{tfs_link, tfs_unlink, tfs_sym_link}
use mbroker_tfs.Links.ReadWrite.{tfs_write, tfs_read}
use mbroker_tfs.Links.Returns.{result}
use mbroker_tfs.Links.Invariant.{IsHandle, IsValid}
use mbroker_tfs.Links.Lookup.{Names}
use mbroker_tfs.Links.Init.Fresh.{IsClean, tfs_init-Mounted}
use mbroker_tfs.Links.Open.Resolve.{Leads}
use mbroker_tfs.Links.Open.NewHandle.{IsUnmoved}
use mbroker_tfs.Links.Open.Handles.{HandleClosed, tfs_close-HandleClosed}
use mbroker_tfs.Links.Open.Result.{OpenEnd, tfs_open-OpenEnd}
use mbroker_tfs.Links.ReadWrite.Read.{tfs_read-BytesRead}
use mbroker_tfs.Links.ReadWrite.Write.{BytesWritten, tfs_write-BytesWritten}
use mbroker_tfs.Links.Names.Link.{LinkResult, tfs_link-LinkResult}
use mbroker_tfs.Links.Names.Unlink.{DropResult, tfs_unlink-DropResult}
use mbroker_tfs.Links.Names.SymLink.{SymLinkResult, tfs_sym_link-SymLinkResult}

-- With TFS_O_TRUNC no open handle of the file that the name leads to has moved from its start.
abbrev pub KeepsOffsets : Fs → CString → ℕ → Type 0
KeepsOffsets s name mode =
    (i j n : ℕ)
    → Names s name i
    → Leads s i (some j) n
    → has_flag mode tfs_o_trunc ≡ true
    → IsUnmoved s j

-- A call that has returned, from one state and the locks that are held to the next: reads and writes are of open
-- handles, a symbolic link is made when its target fits into a block and a block is free, and paths
-- are valid.
pub data Call (s : Fs) (l : Held) : Fs → Held → Type 0 where
  opens :
      {t : Fs} {l' : Held} {r : Option ℕ} (path : CString) (mode fuel : ℕ)
      → valid_pathname (some path) ≡ true
      → s.fs_params.max_inode_count ≤ fuel
      → KeepsOffsets s (drop 1 path) mode
      → tfs_open fuel (some path) mode s l ≡ done r t l'
      → Call s l t l'
  closes :
      {t : Fs} {l' : Held} {r : Bool} (h : ℕ) → tfs_close (some h) s l ≡ done r t l' → Call s l t l'
  writes :
      {t : Fs} {l' : Held} {r : Option ℕ} (h n : ℕ) (buffer : List ℕ)
      → IsHandle s h
      → n ≤ length buffer
      → n < 2 ^ 63
      → tfs_write (some h) buffer n s l ≡ done r t l'
      → Call s l t l'
  reads :
      {t : Fs} {l' : Held} {r : Option (List ℕ)} (h n : ℕ)
      → IsHandle s h
      → tfs_read (some h) n s l ≡ done r t l'
      → Call s l t l'
  links :
      {t : Fs} {l' : Held} {r : Bool} (target name : CString)
      → valid_pathname (some target) ≡ true
      → tfs_link (some target) (some name) s l ≡ done r t l'
      → Call s l t l'
  sym_links :
      {t : Fs} {l' : Held} {r : Bool} (target name : CString) (b : ℕ)
      → strlen target < s.fs_params.block_size
      → b < s.fs_params.max_block_count
      → s.free_blocks b ≡ free
      → tfs_sym_link (some target) (some name) s l ≡ done r t l'
      → Call s l t l'
  unlinks :
      {t : Fs} {l' : Held} {r : Bool} (path : CString)
      → valid_pathname (some path) ≡ true
      → tfs_unlink (some path) s l ≡ done r t l'
      → Call s l t l'

-- The states, with the locks held, that calls reach after `tfs_init`
pub data Reachable : Fs → Held → Type 0 where
  mounted :
      {t : Fs} {l : Held} {r : Bool} (m : Memory) (p : Params) (s : Fs)
      → s.mounted ≡ false
      → IsUsable p
      → IsClean p m
      → tfs_init m (some p) s [] ≡ done r t l
      → Reachable t l
  called : {s t : Fs} {l l' : Held} → Reachable s l → Call s l t l' → Reachable t l'

-- Between the calls
abbrev pub IsAtRest : Fs → Held → Type 0
IsAtRest s l = IsValid s × (l ≡ [])

not_done : {A : Type 0} {a : A} {t : Fs} {l : Held} {r : Run A} → r ≡ looping → r ≡ done a t l → ⊥
not_done e f = cc

opened-IsAtRest :
    {s t : Fs} {l : Held} {r : Option ℕ} (name : CString) (mode : ℕ)
    → IsValid s
    → OpenEnd s name mode r t l
    → IsAtRest t l
opened-IsAtRest name mode v (el, inl (i, j, n, named, leads, end)) = (end.valid, el)
opened-IsAtRest name mode v (el, inr (inl (i, n, named, leads, er, et))) = (rw et v, el)
opened-IsAtRest name mode v (el, inr (inr (inl (absent, creat, (el2, inl (i, end)))))) =
    (end.valid, el)
opened-IsAtRest name mode v (el, inr (inr (inl (absent, creat, (el2, inr (er, same, why)))))) =
    (same.valid, el)
opened-IsAtRest name mode v (el, inr (inr (inr (absent, keep, er, et)))) = (rw et v, el)

linked-IsAtRest :
    {s t : Fs} {l : Held} {r : Bool} (target name : CString)
    → IsValid s
    → LinkResult s target name r t l
    → IsAtRest t l
linked-IsAtRest target name v (el, inl (i, er, named, file, fresh, end)) = (end.valid, el)
linked-IsAtRest target name v (el, inr (er, et, why)) = (rw et v, el)

dropped-IsAtRest :
    {s t : Fs} {l : Held} {r : Bool} (name : CString)
    → IsValid s
    → DropResult s name r t l
    → IsAtRest t l
dropped-IsAtRest name v (el, inl (i, er, named, closed, end, gone)) = (end.valid, el)
dropped-IsAtRest name v (el, inr (er, et, why)) = (rw et v, el)

pointed-IsAtRest :
    {s t : Fs} {l : Held} {r : Bool} (target name : CString)
    → SymLinkResult s target name r t l
    → IsAtRest t l
pointed-IsAtRest target name (el, inl (i, er, fresh, end)) = (end.valid, el)
pointed-IsAtRest target name (el, inr (er, same, why)) = (same.valid, el)

closed-IsAtRest :
    {s t : Fs} {l : Held} {r : Bool} (h : ℕ) → IsValid s → HandleClosed s h r t l → IsAtRest t l
closed-IsAtRest h v (el, inl x) = (x.2, el)
closed-IsAtRest h v (el, inr (er, o, et)) = (rw et v, el)

written-IsAtRest :
    {s t : Fs} {l : Held} {r : Option ℕ} (h n : ℕ) (buffer : List ℕ)
    → IsValid s
    → BytesWritten s h n buffer r t l
    → IsAtRest t l
written-IsAtRest h n buffer v (el, inl (er, wrote)) = (wrote.valid, el)
written-IsAtRest h n buffer v (el, inr (er, et, full, why)) = (rw et v, el)

-- A call from a valid file system with no lock held
call-IsAtRest : {s t : Fs} {l : Held} → IsValid s → Call s [] t l → IsAtRest t l
call-IsAtRest {s} v (opens path mode fuel ok enough keeps e) =
    elim (tfs_open-OpenEnd s path mode fuel v ok enough keeps) [
      | inl ended ↦ opened-IsAtRest (drop 1 path) mode v (result ended e)
      | inr (endless, f) ↦ absurd (not_done f e)
    ]
call-IsAtRest {s} v (closes h e) = closed-IsAtRest h v (result (tfs_close-HandleClosed s h v) e)
call-IsAtRest {s} v (writes h n buffer o long small e) =
    written-IsAtRest h n buffer v (result (tfs_write-BytesWritten s h n buffer v o long small) e)
call-IsAtRest {s} v (reads h n o e) =
    let (el, er, et, valid) = result (tfs_read-BytesRead s h n v o) e in (valid, el)
call-IsAtRest {s} v (links target name ok e) =
    linked-IsAtRest (drop 1 target) (drop 1 name) v
      (result (tfs_link-LinkResult s target name v ok) e)
call-IsAtRest {s} v (sym_links target name b fits in_blocks unused e) =
    pointed-IsAtRest target (drop 1 name)
      (result (tfs_sym_link-SymLinkResult s target name b v fits in_blocks unused) e)
call-IsAtRest {s} v (unlinks path ok e) =
    dropped-IsAtRest (drop 1 path) v (result (tfs_unlink-DropResult s path v ok) e)

-- In every state that calls reach after `tfs_init` the file system with links is valid: every count of links
-- is the number of names, the files have blocks of their own, names are unique, and handles are of files
-- and within them; and no lock is held, so that no call meets one that an earlier call has kept.
-- (The calls are those of `Call`: reads and writes are of open handles, a file is emptied only while no
-- open handle of it has moved, symbolic links are made while a block is free, and paths are valid.)
pub Reachable-IsAtRest : (s : Fs) (l : Held) → Reachable s l → IsAtRest s l
Reachable-IsAtRest s l (mounted m p before un usable clean e) =
    let end = result (tfs_init-Mounted m p before un usable clean) e in (end.2, end.0)
Reachable-IsAtRest s l (called {s = before} {l = held} r c) =
    let (v, none_held) = Reachable-IsAtRest before held r in call-IsAtRest v (rw none_held at c)
