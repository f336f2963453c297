-- ===== src/Tfs/Open/Paths.antt =====
-- Path names that are valid, and looking them up.
use mbroker_tfs.Base.{◌<◌, ◌≡◌, ◌≢◌, true, some, [], ◌∷◌, CString, c_str, strlen, arith}
use mbroker_tfs.Tfs.State.{Tfs, done, root_dir_inum}
use mbroker_tfs.Tfs.Invariant.{IsStore}
use mbroker_tfs.Tfs.Dir.Lookup.{file_named, find_in_dir-done}
use mbroker_tfs.Tfs.Open.{rest, valid_pathname, tfs_lookup}

-- A valid path is a slash and a name that is not empty.
pub strlen-rest : (name : CString) → valid_pathname (some name) ≡ true → 0 < strlen (rest name)
unfolding valid_pathname strlen c_str
strlen-rest [] h = ground arith
strlen-rest (c ∷ s) h = ground arith

pub rest_ne_nil : (name : CString) → valid_pathname (some name) ≡ true → c_str (rest name) ≢ []
unfolding strlen
rest_ne_nil name h e = let p = strlen-rest name h in ground arith

pub tfs_lookup-done :
    (s : Tfs) (name : CString)
    → IsStore s
    → valid_pathname (some name) ≡ true
    → tfs_lookup (some name) (s.inode_table root_dir_inum) s ≡ done (file_named s (rest name)) s
unfolding tfs_lookup
tfs_lookup-done s name v h = rw h (find_in_dir-done s (rest name) v)
