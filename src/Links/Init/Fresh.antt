-- ===== src/Links/Init/Fresh.antt =====
-- `tfs_init` on memory that `malloc` gives.
use mbroker_tfs.Base.{
  ℕ, ◌*◌, ◌≡◌, refl, Bool, true, false, some, [], update, first-zero, length, take, drop, CString,
  c_str, arith,
}
use mbroker_tfs.Tfs.State.{free, taken, Params, bytes, entries, max_file_name, dir_entry_size}
use mbroker_tfs.Tfs.Inodes.{empty_entries}
use mbroker_tfs.Tfs.Init.Fresh.{IsUsable}
use mbroker_tfs.Links.State.{
  t_directory, Fs, Held, done, data_block_alloc, data_block_get, lock, unlock,
}
use mbroker_tfs.Links.Inodes.{
  inode_alloc, inode_create_aux, inode_create, init_inode, clear_entries,
}
use mbroker_tfs.Links.Returns.{Returns, returns}
use mbroker_tfs.Links.Invariant.{IsInUse, IsHandle, IsValid}
use mbroker_tfs.Links.Lookup.{Names}
use mbroker_tfs.Links.Init.{Memory, state_init, tfs_init}

-- The memory: blocks of the size asked for, and the first one with no name in it.
pub record IsClean (p : Params) (m : Memory) : Type 0 where
  pub inode_table_ok : m.inode_table_ok ≡ true
  pub others_ok : m.others_ok ≡ true
  pub ftable_locks_ok : m.ftable_locks_ok ≡ true
  pub sizes : (b : ℕ) → length (m.blocks b) ≡ p.block_size
  pub blank : (k : ℕ) → c_str (take max_file_name (drop (k * dir_entry_size) (m.blocks 0))) ≡ []

module _ (m : Memory) (p : Params) (usable : IsUsable p) (clean : IsClean p m) (s : Fs) where
  abbrev pub fresh : Fs
  fresh = record s {
    fs_params = p;
    mounted = true;
    inode_table = update m.inodes 0 (record {
      i_node_type = t_directory;
      i_size = p.block_size;
      i_data_block = some 0;
      i_hard_links = (m.inodes 0).i_hard_links;
    });
    freeinode_ts = update (λ _. free) 0 taken;
    fs_data = update (λ b. bytes (m.blocks b)) 0 (entries (empty_entries (bytes (m.blocks 0))));
    free_blocks = update (λ _. free) 0 taken;
    open_file_table = m.open_files;
    free_open_file_entries = λ _. free;
  }

  pub tfs_init-done : s.mounted ≡ false → tfs_init m (some p) s [] ≡ done true fresh []
  unfolding tfs_init state_init inode_create init_inode inode_create_aux clear_entries inode_alloc
      data_block_alloc data_block_get lock unlock
  tfs_init-done un = ground (
    arith,
    un,
    clean.inode_table_ok,
    clean.others_ok,
    clean.ftable_locks_ok,
    first-zero (λ _. true) _ usable.some_inode refl,
    first-zero (λ _. true) _ usable.some_block refl,
    usable.some_block,
    usable.some_inode,
  )

  fresh-IsValid : IsValid fresh
  unfolding empty_entries
  fresh-IsValid = record {
    store = record {
      mounted = refl;
      block_bound = usable.block_bound;
      some_inode = usable.some_inode;
      some_block = usable.some_block;
      root_taken = refl;
      root_type = refl;
      root_block = refl;
      root_block_taken = refl;
      root_entries = refl;
      data_bytes = λ b h. ground (arith, clean.sizes b);
      file = λ i u. ground arith;
      target = λ i u t. ground arith;
      apart = λ i j u w x y e. ground arith;
    };
    names = record {
      in_use = λ k i e. ground arith;
      short = λ k i e. ground arith;
      blank = λ k h e. clean.blank k;
      names_apart = λ k l i j e f g. ground arith;
    };
    counted = λ i u. ground arith;
    opens = record {
      in_use = λ h o. ground arith;
      type = λ h o. ground arith;
      within = λ h o. ground arith;
    };
  }

  fresh-not-Names : (name : CString) (i : ℕ) → ¬ Names fresh name i
  unfolding empty_entries
  fresh-not-Names name i (k, e, same) = ground arith

-- What a successful `tfs_init` gives: a valid file system with the parameters, no name and no open file,
-- and no lock held
abbrev pub Mounted : Params → Bool → Fs → Held → Type 0
Mounted p r t l =
    (l ≡ [])
    × (r ≡ true)
    × IsValid t
    × (t.fs_params ≡ p)
    × ((name : CString) (i : ℕ) → ¬ Names t name i)
    × ((i : ℕ) → ¬ IsInUse t i)
    × ((h : ℕ) → ¬ IsHandle t h)

-- On a file system with links that is not mounted, with no lock held, parameters that have at least one inode
-- and one block, blocks smaller than 2^63 bytes, and memory that `malloc` gives with no name where the root
-- directory comes to lie, `tfs_init` ends without a failed assertion, undefined behaviour or a deadlock,
-- returns 0 with no lock held, and leaves a valid file system of those parameters without a name, a
-- file or an open handle.
pub tfs_init-Mounted :
    (m : Memory) (p : Params) (s : Fs)
    → s.mounted ≡ false
    → IsUsable p
    → IsClean p m
    → Returns (Mounted p) (tfs_init m (some p) s [])
tfs_init-Mounted m p s un usable clean = rw (tfs_init-done m p usable clean s un) (
    returns (
      refl,
      refl,
      fresh-IsValid m p usable clean s,
      refl,
      fresh-not-Names m p usable clean s,
      (λ i u. ground arith),
      (λ h o. ground arith),
    ))
