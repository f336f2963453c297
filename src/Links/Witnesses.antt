-- ===== src/Links/Witnesses.antt =====
-- The theorems on the file system with links, on concrete states.
use mbroker_tfs.Tfs.Demo.{params, c_str-zeros, params-IsUsable}
use mbroker_tfs.Links.State.{Fs, looping, and_then, lock, unlock}
use mbroker_tfs.Links.OpenFiles.{close_entry, close_found, get_open_file_entry}
use mbroker_tfs.Links.Init.{tfs_init}
use mbroker_tfs.Links.Init.Fresh.{IsClean, Mounted, fresh, tfs_init-done, tfs_init-Mounted}
use mbroker_tfs.Links.Open.{tfs_open, tfs_close}
use mbroker_tfs.Links.ReadWrite.{tfs_read, tfs_write}
use mbroker_tfs.Links.ReadWrite.Read.{BytesRead, tfs_read-BytesRead}
use mbroker_tfs.Links.ReadWrite.Write.{BytesWritten, tfs_write-BytesWritten}
use mbroker_tfs.Links.Invariant.{IsHandle}
use mbroker_tfs.Links.Lookup.{Names, file_named_of_Names}
use mbroker_tfs.Links.Open.Resolve.{Leads, at_file, onward}
use mbroker_tfs.Links.Open.Result.{OpenEnd, IsEndless, tfs_open-OpenEnd}
use mbroker_tfs.Links.Open.Leak.{tfs_open-leak}
use mbroker_tfs.Links.Calls.{IsAtRest, Reachable, mounted, called, closes, Reachable-IsAtRest}
use mbroker_tfs.Base.{
  first, ◌++◌, replicate, ◌*◌, ◌⊎◌, c_str, ◌∷◌, ◌<◌, ◌≡◌, refl, true, some, [], drop, strlen, arith,
}
use mbroker_tfs.Tfs.Open.{valid_pathname}
use mbroker_tfs.Tfs.Demo.{path_a, path_b}
use mbroker_tfs.Links.State.{deadlock}
use mbroker_tfs.Links.Returns.{Returns}
use mbroker_tfs.Links.Names.{tfs_link, tfs_unlink, tfs_sym_link}
use mbroker_tfs.Links.Names.Link.{LinkResult, tfs_link-LinkResult}
use mbroker_tfs.Links.Names.Unlink.{DropResult, tfs_unlink-DropResult}
use mbroker_tfs.Links.Names.SymLink.{
  SymLinkResult, tfs_sym_link-SymLinkResult, tfs_sym_link-deadlock,
}
use mbroker_tfs.Links.Demo.{
  path_l, unmounted, zeroed, demo, demo-IsValid, quiet, quiet-IsValid, full, full-IsValid,
}

path_a-valid : valid_pathname (some path_a) ≡ true
unfolding valid_pathname strlen
path_a-valid = refl

path_a-short : strlen path_a < 132
unfolding strlen
path_a-short = ground arith

tfs_link-LinkResult_example :
    Returns
      (LinkResult demo (drop 1 path_a) (drop 1 path_b))
      (tfs_link (some path_a) (some path_b) demo [])
tfs_link-LinkResult_example = tfs_link-LinkResult demo path_a path_b demo-IsValid path_a-valid

tfs_unlink-DropResult_example :
    Returns (DropResult quiet (drop 1 path_a)) (tfs_unlink (some path_a) quiet [])
tfs_unlink-DropResult_example = tfs_unlink-DropResult quiet path_a quiet-IsValid path_a-valid

tfs_sym_link-SymLinkResult_example :
    Returns
      (SymLinkResult demo path_a (drop 1 path_b))
      (tfs_sym_link (some path_a) (some path_b) demo [])
tfs_sym_link-SymLinkResult_example =
    tfs_sym_link-SymLinkResult demo path_a path_b 3 demo-IsValid path_a-short (ground arith) refl

tfs_sym_link-deadlock_example : tfs_sym_link (some path_a) (some path_b) full [] ≡ deadlock
tfs_sym_link-deadlock_example =
    tfs_sym_link-deadlock full (some path_a) (some path_b) 3 full-IsValid (ground arith) refl
      (λ b h. refl)

demo-handle : IsHandle demo 0
demo-handle = ground arith

tfs_read-BytesRead_example : Returns (BytesRead demo 0 2) (tfs_read (some 0) 2 demo [])
tfs_read-BytesRead_example = tfs_read-BytesRead demo 0 2 demo-IsValid demo-handle

tfs_write-BytesWritten_example :
    Returns (BytesWritten demo 0 2 (8 ∷ 9 ∷ [])) (tfs_write (some 0) (8 ∷ 9 ∷ []) 2 demo [])
tfs_write-BytesWritten_example =
    tfs_write-BytesWritten demo 0 2 (8 ∷ 9 ∷ []) demo-IsValid demo-handle (ground arith)
      (ground arith)

path_l-valid : valid_pathname (some path_l) ≡ true
unfolding valid_pathname strlen
path_l-valid = refl

tfs_open-OpenEnd_example :
    Returns (OpenEnd demo (drop 1 path_l) 2) (tfs_open 4 (some path_l) 2 demo [])
    ⊎ (IsEndless demo (drop 1 path_l) × (tfs_open 4 (some path_l) 2 demo [] ≡ looping))
tfs_open-OpenEnd_example =
    tfs_open-OpenEnd demo path_l 2 4 demo-IsValid path_l-valid (ground arith)
      (λ i j n x d t h o e. refl)

demo-Names : Names demo (drop 1 path_l) 2
demo-Names = (1, ground arith, refl)

-- The link leads to the file in one step.
demo-Leads : Leads demo 2 (some 1) 1
unfolding c_str
demo-Leads =
    onward refl
      (file_named_of_Names demo (drop 1 (path_a ++ replicate 130 0)) demo-IsValid.names 1
        (0, ground arith, refl))
      (at_file refl)

tfs_open-leak_example :
    (and_then (tfs_write (some 1) (8 ∷ []) 1 demo []) (λ r. tfs_open 4 (some path_l) 0) ≡ deadlock)
    × (and_then (tfs_read (some 1) 1 demo []) (λ r. tfs_open 4 (some path_l) 0) ≡ deadlock)
unfolding first
tfs_open-leak_example =
    tfs_open-leak demo 1 1 (8 ∷ []) path_l 0 4 2 1 1 demo-IsValid refl path_l-valid demo-Names
      demo-Leads (ground arith)

zeroed-IsClean : IsClean params zeroed
zeroed-IsClean = record {
  inode_table_ok = refl;
  others_ok = refl;
  ftable_locks_ok = refl;
  sizes = λ b. refl;
  blank = λ k. c_str-zeros 40 88 (k * 44);
}

tfs_init-Mounted_example : Returns (Mounted params) (tfs_init zeroed (some params) unmounted [])
tfs_init-Mounted_example =
    tfs_init-Mounted zeroed params unmounted refl params-IsUsable zeroed-IsClean

abbrev start : Fs
start = fresh zeroed params params-IsUsable zeroed-IsClean unmounted

-- After `tfs_init` a handle is closed that is not open.
start-Reachable : Reachable start []
unfolding tfs_close close_entry close_found get_open_file_entry lock unlock
start-Reachable =
    called
      (mounted zeroed params unmounted refl params-IsUsable zeroed-IsClean
        (tfs_init-done zeroed params params-IsUsable zeroed-IsClean unmounted refl))
      (closes 0 refl)

Reachable-IsAtRest_example : IsAtRest start []
Reachable-IsAtRest_example = Reachable-IsAtRest start [] start-Reachable
