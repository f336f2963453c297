-- ===== src/Links/Names/Make.antt =====
-- The inode, the block and the target of a new symbolic link.
use mbroker_tfs.Base.{
  ℕ, ◌+◌, ◌<◌, ◌≡◌, refl, ap, ◌∙◌, true, none, some, List, [], ◌∷◌, ◌++◌, append_assoc, append-nil,
  drop, update, length, length-append, memcpy_at, length-memcpy_at, CString, c_str, c_str-append,
  strlen, arith,
}
use mbroker_tfs.Tfs.State.{taken}
use mbroker_tfs.Links.State.{t_symlink, Inode, Fs, Held, done, deadlock, writing, inode_table_lock}
use mbroker_tfs.Links.Inodes.{new_symlink, inode_create_aux, inode_create, inode_delete}
use mbroker_tfs.Links.Steps.{
  free_inode, free_block, inode_alloc-done, inode_alloc-none, data_block_alloc-done,
  data_block_alloc-none,
}
use mbroker_tfs.Links.Inodes.{new_symlink}
use mbroker_tfs.Links.State.{inode_table_lock}

abbrev pub link_inode : Fs → ℕ → Inode
link_inode s b = record {
  i_node_type = t_symlink;
  i_size = s.fs_params.block_size;
  i_data_block = some b;
  i_hard_links = 1;
}

-- Inode `i` and block `b` are taken for a symbolic link.
abbrev pub link_made : Fs → ℕ → ℕ → Fs
link_made s i b = record s {
  freeinode_ts = update s.freeinode_ts i taken;
  inode_table = update (update s.inode_table i new_symlink) i (link_inode s b);
  free_blocks = update s.free_blocks b taken;
}

module _ (s : Fs) (i : ℕ) (in_table : i < s.fs_params.max_inode_count)
    (e : free_inode s ≡ some i) where
  abbrev alloced : Fs
  alloced = record s {
    freeinode_ts = update s.freeinode_ts i taken;
    inode_table = update s.inode_table i new_symlink;
  }

  abbrev held_table : Held
  held_table = (inode_table_lock, writing) ∷ []

  -- Without a free block `inode_create_aux` deletes the inode, and waits for the lock that
  -- `inode_create` holds.
  aux-deadlock : free_block s ≡ none → inode_create_aux i new_symlink alloced held_table ≡ deadlock
  unfolding inode_create_aux inode_delete
  aux-deadlock f = rw (data_block_alloc-none alloced held_table refl f) (ground (arith, in_table))

  pub inode_create-deadlock : free_block s ≡ none → inode_create t_symlink s [] ≡ deadlock
  unfolding inode_create
  inode_create-deadlock f = rw (inode_alloc-done s held_table i e, aux-deadlock f) refl

  aux-done :
      (b : ℕ)
      → free_block s ≡ some b
      → inode_create_aux i new_symlink alloced held_table ≡ done true (link_made s i b) held_table
  unfolding inode_create_aux
  aux-done b f = rw (data_block_alloc-done alloced held_table refl b f) refl

  pub inode_create-done :
      (b : ℕ)
      → free_block s ≡ some b
      → inode_create t_symlink s [] ≡ done (some i) (link_made s i b) []
  unfolding inode_create
  inode_create-done b f = rw (inode_alloc-done s held_table i e, aux-done b f) refl

pub inode_create-none :
    (s : Fs) → free_inode s ≡ none → inode_create t_symlink s [] ≡ done none s []
unfolding inode_create
inode_create-none s e = rw (inode_alloc-none s ((inode_table_lock, writing) ∷ []) e) refl

-- The block of a link, once the target's name is copied to its start
abbrev pub target_block : CString → List ℕ → List ℕ
target_block target old = memcpy_at 0 (c_str target ++ (0 ∷ [])) old

pub c_str-target_block :
    (target : CString) (old : List ℕ) → c_str (target_block target old) ≡ c_str target
unfolding memcpy_at c_str
c_str-target_block target old =
    ap c_str (append_assoc (c_str target) (0 ∷ []) _)
    ∙ c_str-append target (0 ∷ drop (0 + length (c_str target ++ (0 ∷ []))) old)
    ∙ append-nil (c_str target)

pub length-target_block :
    (target : CString) (old : List ℕ)
    → strlen target < length old
    → length (target_block target old) ≡ length old
unfolding strlen
length-target_block target old h =
    length-memcpy_at 0 (c_str target ++ (0 ∷ [])) old
      (omega (arith, h, length-append {0} (c_str target) (0 ∷ [])))
