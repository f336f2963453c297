-- ===== src/Tfs/Witnesses.antt =====
-- The theorems on the file system, on concrete states.
use mbroker_tfs.Base.{ℕ, ◌*◌, ◌≡◌, ◌↔◌, refl, true, some, List, [], ◌∷◌, c_str, strlen, arith}
use mbroker_tfs.Tfs.State.{done, ◌>>◌, root_dir_inum}
use mbroker_tfs.Tfs.Returns.{Returns}
use mbroker_tfs.Tfs.Dir.{find_in_dir}
use mbroker_tfs.Tfs.Dir.Lookup.{Names, find_in_dir-Names}
use mbroker_tfs.Tfs.Init.{tfs_init}
use mbroker_tfs.Tfs.Init.Fresh.{IsClean, InitResult, tfs_init-InitResult}
use mbroker_tfs.Tfs.Open.{valid_pathname, tfs_close}
use mbroker_tfs.Tfs.Open.Handles.{CloseResult, tfs_close-CloseResult}
use mbroker_tfs.Tfs.ReadWrite.{tfs_write, tfs_read}
use mbroker_tfs.Tfs.ReadWrite.Read.{ReadResult, tfs_read-ReadResult}
use mbroker_tfs.Tfs.ReadWrite.RoundTrip.{ReadBack, tfs_read-tfs_write}
use mbroker_tfs.Tfs.ReadWrite.Write.{room, WriteResult, tfs_write-WriteResult}
use mbroker_tfs.Tfs.Tests.{unmounted, zeroed}
use mbroker_tfs.Tfs.Demo.{
  params, c_str-zeros, params-IsUsable, file_a, path_b, demo, demo-IsValid, demo-IsHandle, shared,
  shared-IsValid,
}

find_in_dir-Names_example :
    (find_in_dir (demo.inode_table root_dir_inum) file_a demo ≡ done (some 1) demo)
    ↔ Names demo file_a 1
find_in_dir-Names_example = find_in_dir-Names demo file_a 1 demo-IsValid.0 demo-IsValid.1

zeroed-IsClean : IsClean params zeroed
zeroed-IsClean = record {
  inode_table_ok = refl;
  others_ok = refl;
  sizes = λ b. refl;
  blank = λ k. c_str-zeros 40 88 (k * 44);
}

tfs_init-InitResult_example : Returns (InitResult params) (tfs_init zeroed (some params) unmounted)
tfs_init-InitResult_example =
    tfs_init-InitResult zeroed params unmounted refl params-IsUsable zeroed-IsClean

path_b-valid : valid_pathname (some path_b) ≡ true
unfolding valid_pathname strlen c_str
path_b-valid = refl

tfs_close-CloseResult_example : Returns (CloseResult demo 0) (tfs_close (some 0) demo)
tfs_close-CloseResult_example = tfs_close-CloseResult demo 0 demo-IsValid

five : List ℕ
five = 1 ∷ 2 ∷ 3 ∷ 4 ∷ 5 ∷ []

tfs_write-WriteResult_example : Returns (WriteResult demo 0 5 five) (tfs_write (some 0) five 5 demo)
tfs_write-WriteResult_example =
    tfs_write-WriteResult demo 0 5 five demo-IsValid demo-IsHandle (unfold five in ground arith)
      (ground arith)

tfs_read-ReadResult_example : Returns (ReadResult demo 0 2) (tfs_read (some 0) 2 demo)
tfs_read-ReadResult_example = tfs_read-ReadResult demo 0 2 demo-IsValid demo-IsHandle

tfs_read-tfs_write_example :
    Returns
      (λ r _. ReadBack shared 0 5 five r)
      ((tfs_write (some 0) five 5 >> tfs_read (some 1) (room shared 0 5)) shared)
tfs_read-tfs_write_example =
    tfs_read-tfs_write shared 0 1 5 five shared-IsValid (ground arith) (ground arith) (ground arith)
      refl (unfold five in ground arith) (ground arith)
