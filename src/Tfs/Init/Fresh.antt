-- ===== src/Tfs/Init/Fresh.antt =====
-- `tfs_init` on memory that `malloc` gives.
use mbroker_tfs.Base.{
  ℕ, ◌*◌, ◌^◌, ◌<◌, ◌≡◌, refl, Bool, true, false, some, [], update, first-zero, length, take, drop,
  CString, c_str, arith,
}
use mbroker_tfs.Tfs.State.{
  t_directory, free, taken, Params, bytes, entries, Tfs, done, max_file_name, dir_entry_size,
  data_block_alloc, data_block_get,
}
use mbroker_tfs.Tfs.Inodes.{inode_alloc, inode_create, init_inode, init_directory, empty_entries}
use mbroker_tfs.Tfs.Invariant.{IsInUse, IsHandle, IsValid}
use mbroker_tfs.Tfs.Returns.{Returns, returns}
use mbroker_tfs.Tfs.Dir.Lookup.{Names}
use mbroker_tfs.Tfs.Init.{Memory, state_init, tfs_init}

-- Parameters that the file system can work with
pub record IsUsable (p : Params) : Type 0 where
  pub block_bound : p.block_size < 2 ^ 63
  pub some_inode : 0 < p.max_inode_count
  pub some_block : 0 < p.max_block_count

-- The memory: blocks of the size asked for, and the first one with no name in it.
pub record IsClean (p : Params) (m : Memory) : Type 0 where
  pub inode_table_ok : m.inode_table_ok ≡ true
  pub others_ok : m.others_ok ≡ true
  pub sizes : (b : ℕ) → length (m.blocks b) ≡ p.block_size
  pub blank : (k : ℕ) → c_str (take max_file_name (drop (k * dir_entry_size) (m.blocks 0))) ≡ []

module _ (m : Memory) (p : Params) (usable : IsUsable p) (clean : IsClean p m) (s : Tfs) where
  abbrev fresh : Tfs
  fresh = record s {
    fs_params = p;
    mounted = true;
    inode_table = update m.inodes 0 (record (m.inodes 0) {
      i_node_type = t_directory;
      i_size = p.block_size;
      i_data_block = some 0;
    });
    freeinode_ts = update (λ _. free) 0 taken;
    fs_data = update (λ b. bytes (m.blocks b)) 0 (entries (empty_entries (bytes (m.blocks 0))));
    free_blocks = update (λ _. free) 0 taken;
    open_file_table = m.open_files;
    free_open_file_entries = λ _. free;
  }

  tfs_init-done : s.mounted ≡ false → tfs_init m (some p) s ≡ done true fresh
  unfolding tfs_init state_init inode_create init_inode init_directory inode_alloc data_block_alloc
      data_block_get
  tfs_init-done un = ground (
    arith,
    un,
    clean.inode_table_ok,
    clean.others_ok,
    first-zero (λ _. true) _ usable.some_inode refl,
    first-zero (λ _. true) _ usable.some_block refl,
    usable.some_block,
    usable.some_inode,
  )

  fresh-IsValid : IsValid fresh
  unfolding empty_entries
  fresh-IsValid = (
    record {
      mounted = refl;
      block_bound = usable.block_bound;
      some_inode = usable.some_inode;
      some_block = usable.some_block;
      root_taken = refl;
      root_type = refl;
      root_block = refl;
      root_block_taken = refl;
      root_entries = refl;
      data_bytes = λ b h. ground (arith, clean.sizes b);
      file = λ i u. ground arith;
      apart = λ i j u w x y e. ground arith;
    },
    record {
      in_use = λ k i e. ground arith;
      short = λ k i e. ground arith;
      blank = λ k h e. clean.blank k;
      files_apart = λ k l i e f. ground arith;
      names_apart = λ k l i j e f g. ground arith;
    },
    record { in_use = λ h o. ground arith; within = λ h o. ground arith },
  )

  fresh-not-Names : (name : CString) (i : ℕ) → ¬ Names fresh name i
  unfolding empty_entries
  fresh-not-Names name i (k, e, same) = ground arith

-- What a successful `tfs_init` gives: a valid file system with the parameters, no name and no open file
abbrev pub InitResult : Params → Bool → Tfs → Type 0
InitResult p r t =
    (r ≡ true)
    × IsValid t
    × (t.fs_params ≡ p)
    × ((name : CString) (i : ℕ) → ¬ Names t name i)
    × ((i : ℕ) → ¬ IsInUse t i)
    × ((h : ℕ) → ¬ IsHandle t h)

-- On a file system that is not mounted, with parameters that have at least one inode and one block,
-- blocks smaller than 2^63 bytes, and memory that `malloc` gives with no name where the root
-- directory comes to lie, `tfs_init` ends without a failed assertion and without undefined
-- behaviour, returns 0, and leaves a valid file system of those parameters without a name, a file
-- or an open handle.
pub tfs_init-InitResult :
    (m : Memory) (p : Params) (s : Tfs)
    → s.mounted ≡ false
    → IsUsable p
    → IsClean p m
    → Returns (InitResult p) (tfs_init m (some p) s)
tfs_init-InitResult m p s un usable clean = rw (tfs_init-done m p usable clean s un) (
    returns (
      refl,
      fresh-IsValid m p usable clean s,
      refl,
      fresh-not-Names m p usable clean s,
      (λ i u. ground arith),
      (λ h o. ground arith),
    ))
