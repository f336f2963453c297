-- ===== src/Links/Open/Resolve.antt =====
-- The loop of `tfs_open` over symbolic links: where it leads, and how many rounds it takes.
use mbroker_tfs.Base.{
  ℕ, zero, suc, ◌<◌, ◌≡◌, ◌≢◌, ◌⊎◌, refl, inl, inr, Option, none, some, drop, strlen, arith,
  Option-cases,
}
use mbroker_tfs.Tfs.State.{root_dir_inum}
use mbroker_tfs.Tfs.Invariant.{as_bytes}
use mbroker_tfs.Links.State.{
  InodeType, t_file, t_directory, t_symlink, Fs, Held, done, looping, data_block_get, dir_lock,
}
use mbroker_tfs.Links.Dir.{fetch_file, link_name_at, get_symlink_inumber}
use mbroker_tfs.Links.Open.{resolve}
use mbroker_tfs.Links.Invariant.{block_of, IsInUse, IsValid}
use mbroker_tfs.Links.Lookup.{file_named, find_in_dir-done, Names-file_named}
use mbroker_tfs.Links.Steps.{inode_get-done, IsFreeOf}

-- The number of the file that a symbolic link names, if the directory has the name
abbrev pub next_of : Fs → ℕ → Option ℕ
next_of s i = file_named s (drop 1 (as_bytes (s.fs_data (block_of (s.inode_table i)))))

-- From number `i` the links lead, in `n` steps, to a file or to a name that is not there.
pub data Leads (s : Fs) : ℕ → Option ℕ → ℕ → Type 0 where
  at_file : {i : ℕ} → (s.inode_table i).i_node_type ≡ t_file → Leads s i (some i) 0
  lost : {i : ℕ} → (s.inode_table i).i_node_type ≡ t_symlink → next_of s i ≡ none → Leads s i none 0
  onward :
      {i j n : ℕ} {r : Option ℕ}
      → (s.inode_table i).i_node_type ≡ t_symlink
      → next_of s i ≡ some j
      → Leads s j r n
      → Leads s i r (suc n)

-- From number `i` there are `n` links one after the other.
pub data Goes (s : Fs) : ℕ → ℕ → Type 0 where
  nowhere : {i : ℕ} → Goes s i 0
  along :
      {i j n : ℕ}
      → (s.inode_table i).i_node_type ≡ t_symlink
      → next_of s i ≡ some j
      → Goes s j n
      → Goes s i (suc n)

type-cases : (t : InodeType) → t ≢ t_directory → (t ≡ t_file) ⊎ (t ≡ t_symlink)
type-cases t_file ne = inl refl
type-cases t_symlink ne = inr refl
type-cases t_directory ne = absurd (ne refl)

module _ (s : Fs) (v : IsValid s) where
  pub next-IsInUse : (i j : ℕ) → next_of s i ≡ some j → IsInUse s j
  next-IsInUse i j e = let (k, en, same) = Names-file_named s _ v.names j e in v.names.in_use k j en

  module _ (l : Held) (unlocked : IsFreeOf dir_lock l) where
    link_name_at-done :
        (b : ℕ)
        → 0 < b
        → strlen (as_bytes (s.fs_data b)) < s.fs_params.block_size
        → link_name_at b s l ≡ done (as_bytes (s.fs_data b)) s l
    unfolding link_name_at
    link_name_at-done b p ends = ground (arith, v.store.data_bytes b p, ends)

    data_block_get-done :
        (b : ℕ) → b < s.fs_params.max_block_count → data_block_get (some b) s l ≡ done b s l
    unfolding data_block_get
    data_block_get-done b h = ground (arith, h)

    get_symlink_inumber-done :
        (i : ℕ)
        → IsInUse s i
        → (s.inode_table i).i_node_type ≡ t_symlink
        → get_symlink_inumber i (s.inode_table root_dir_inum) s l ≡ done (next_of s i) s l
    unfolding get_symlink_inumber fetch_file
    get_symlink_inumber-done i u link =
        let (one, full, ends) = v.store.target i u link in
        let (block, (over_zero, in_disk, taken_block)) = (v.store.file i u).2 full in
        rw
          (
            inode_get-done s l i v.store u.1,
            link,
            block,
            data_block_get-done (block_of (s.inode_table i)) in_disk,
            link_name_at-done (block_of (s.inode_table i)) over_zero ends,
          )
          (find_in_dir-done s l _ v.store unlocked)

    pub resolve-Leads :
        (fuel i n : ℕ) (r : Option ℕ)
        → IsInUse s i
        → Leads s i r n
        → n < fuel
        → resolve fuel (s.inode_table root_dir_inum) i s l ≡ done r s l
    unfolding resolve
    resolve-Leads zero i n r u d h = absurd (omega arith)
    resolve-Leads (suc fuel) i n r u (at_file file) h =
        rw (inode_get-done s l i v.store u.1, file) refl
    resolve-Leads (suc fuel) i n r u (lost link e) h =
        rw (inode_get-done s l i v.store u.1, link, get_symlink_inumber-done i u link, e) refl
    resolve-Leads (suc fuel) i n r u (onward {j} link e rest) h =
        rw (inode_get-done s l i v.store u.1, link, get_symlink_inumber-done i u link, e)
          (resolve-Leads fuel j _ r (next-IsInUse i j e) rest (omega arith))

    pub resolve-Goes :
        (fuel i : ℕ)
        → IsInUse s i
        → Goes s i fuel
        → resolve fuel (s.inode_table root_dir_inum) i s l ≡ looping
    unfolding resolve
    resolve-Goes zero i u g = refl
    resolve-Goes (suc fuel) i u (along {j} link e rest) =
        rw (inode_get-done s l i v.store u.1, link, get_symlink_inumber-done i u link, e)
          (resolve-Goes fuel j (next-IsInUse i j e) rest)

  -- Within so many rounds the loop ends, or goes on.
  pub Leads-or-Goes :
      (fuel i : ℕ)
      → IsInUse s i
      → ((r : Option ℕ) × (n : ℕ) × (n < fuel) × Leads s i r n) ⊎ Goes s i fuel
  Leads-or-Goes zero i u = inr nowhere
  Leads-or-Goes (suc fuel) i u = elim (type-cases _ (v.store.file i u).0) [
    | inl file ↦ inl (some i, 0, omega arith, at_file file)
    | inr link ↦ elim (Option-cases (next_of s i)) [
      | inl e ↦ inl (none, 0, omega arith, lost link e)
      | inr (j, e) ↦ elim (Leads-or-Goes fuel j (next-IsInUse i j e)) [
        | inl (r, n, h, d) ↦ inl (r, suc n, omega arith, onward link e d)
        | inr g ↦ inr (along link e g)
      ]
    ]
  ]
