-- ===== src/Tfs/ReadWrite/Read.antt =====
-- `tfs_read` on a valid file system, and reading back what was written.
use mathlib.Core.Path.{fun_ext}
use mbroker_tfs.Base.{
  ℕ, ◌+◌, ◌-◌, ◌≤◌, ◌<◌, ◌≡◌, refl, sym, ap, ◌∙◌, Option, some, List, [], ◌∷◌, length, take, drop,
  length-take, length-drop, take-take, take_long, drop-take, min, arith, lt→ltb, dec_le, ℕ_discrete,
  update,
}
use mbroker_tfs.Tfs.State.{Tfs, done, data_block_get}
use mbroker_tfs.Tfs.Invariant.{content, block_of, as_bytes, IsHandle, IsValid}
use mbroker_tfs.Tfs.Returns.{Returns, returns}
use mbroker_tfs.Tfs.ReadWrite.{clamp_read, copy_out, read_block, read_open, tfs_read}
use mbroker_tfs.Tfs.ReadWrite.Steps.{get_open_file_entry-open, inode_get-done, length-content}

-- The state after a read of `count` bytes: only the offset has moved.
abbrev pub advanced : Tfs → ℕ → ℕ → Tfs
advanced s h count = record s {
  open_file_table =
      update s.open_file_table h
        (record (s.open_file_table h) { of_offset = (s.open_file_table h).of_offset + count });
}

-- The bytes of the file from the handle's offset on, at most `len`
abbrev pub next_bytes : Tfs → ℕ → ℕ → List ℕ
next_bytes s h len =
    take len (drop (s.open_file_table h).of_offset (content s (s.open_file_table h).of_inumber))

-- Bytes that are copied from a block, of which `size` are the contents, are those of the contents.
pub copied_bytes :
    (size offset len : ℕ) (xs : List ℕ)
    → size ≤ length xs
    → take (min len (size - offset)) (drop offset xs) ≡ take len (drop offset (take size xs))
copied_bytes size offset len xs long =
    rw (drop-take offset size xs) (elim (dec_le len (size - offset)) [
      | yes p ↦
          let e : min len (size - offset) ≡ len = omega arith in
          rw (e, take-take len (size - offset) (drop offset xs) p)
      | no p ↦
          let e : min len (size - offset) ≡ size - offset = omega arith in
          rw (
            e,
            take_long len (take (size - offset) (drop offset xs))
                (omega (arith, length-take {0} (size - offset) (drop offset xs))),
          )
    ])

module _ (s : Tfs) (v : IsValid s) (h len : ℕ) (is_open : IsHandle s h) where
  abbrev inumber : ℕ
  inumber = (s.open_file_table h).of_inumber

  abbrev offset : ℕ
  offset = (s.open_file_table h).of_offset

  abbrev size : ℕ
  size = (s.inode_table inumber).i_size

  abbrev count : ℕ
  count = min len (size - offset)

  offset-le-size : offset ≤ size
  offset-le-size = v.2.within h is_open

  size_bound : size ≤ s.fs_params.block_size
  size_bound = (v.0.file inumber (v.2.in_use h is_open)).1

  clamp-count : clamp_read size offset len ≡ count
  clamp-count = ground (arith, offset-le-size, size_bound, v.0.block_bound)

  advanced-IsValid : IsValid (advanced s h count)
  advanced-IsValid = (
    record {
      mounted = v.0.mounted;
      block_bound = v.0.block_bound;
      some_inode = v.0.some_inode;
      some_block = v.0.some_block;
      root_taken = v.0.root_taken;
      root_type = v.0.root_type;
      root_block = v.0.root_block;
      root_block_taken = v.0.root_block_taken;
      root_entries = v.0.root_entries;
      data_bytes = v.0.data_bytes;
      file = v.0.file;
      apart = v.0.apart;
    },
    v.1,
    record {
      in_use = λ k o. ground (arith, v.2.in_use k o, v.2.in_use h is_open);
      within = λ k o. ground (arith, v.2.within k o, v.2.within h is_open);
    },
  )

  read_block-done :
      0 < count
      → read_block h (s.open_file_table h) count (s.inode_table inumber) s
        ≡ done
            (take count (drop offset (as_bytes (s.fs_data (block_of (s.inode_table inumber))))))
            (advanced s h count)
  unfolding read_block copy_out data_block_get
  read_block-done p = ground (
    arith,
    (v.0.file inumber (v.2.in_use h is_open)).2,
    v.0.data_bytes (block_of (s.inode_table inumber)),
    offset-le-size,
    size_bound,
  )

  length-next_bytes : length (next_bytes s h len) ≡ count
  length-next_bytes = omega (
    arith,
    length-take {0} len (drop offset (content s inumber)),
    length-drop {0} offset (content s inumber),
    length-content s v inumber (v.2.in_use h is_open),
  )

  text_read :
      0 < count
      → take count (drop offset (as_bytes (s.fs_data (block_of (s.inode_table inumber)))))
        ≡ next_bytes s h len
  text_read p =
      copied_bytes size offset len (as_bytes (s.fs_data (block_of (s.inode_table inumber)))) (
        ground (
          arith,
          (v.0.file inumber (v.2.in_use h is_open)).2,
          v.0.data_bytes (block_of (s.inode_table inumber)),
          size_bound,
        ))

-- The next bytes are returned, and only the offset has moved, past them.
abbrev pub ReadResult : Tfs → ℕ → ℕ → Option (List ℕ) → Tfs → Type 0
ReadResult s h len r t =
    (r ≡ some (next_bytes s h len)) × (t ≡ advanced s h (length (next_bytes s h len))) × IsValid t

-- A move by 0 is none.
advanced-zero : (s : Tfs) (h c : ℕ) → c ≡ 0 → s ≡ advanced s h c
advanced-zero s h c e = ap (λ table. record s { open_file_table = table }) (fun_ext still)
  where
    still :
        (k : ℕ)
        → s.open_file_table k
          ≡ update s.open_file_table h
              (record (s.open_file_table h) { of_offset = (s.open_file_table h).of_offset + c })
              k
    still k = ground arith

pub nothing {ℓ} : {A : Type ℓ} (xs : List A) → length xs ≡ 0 → [] ≡ xs
nothing [] e = refl
nothing (x ∷ xs) e = absurd (omega arith)

-- On a valid file system, a read of at most `len` bytes through an open handle ends without a failed
-- assertion and without undefined behaviour. It returns the bytes of the file's contents from the
-- handle's offset on, at most `len`, moves the offset past them and changes nothing else; the file
-- system stays valid.
pub tfs_read-ReadResult :
    (s : Tfs) (h len : ℕ)
    → IsValid s
    → IsHandle s h
    → Returns (ReadResult s h len) (tfs_read (some h) len s)
unfolding tfs_read read_open
tfs_read-ReadResult s h len v is_open =
    rw
      (
        get_open_file_entry-open s h v.0 is_open,
        inode_get-done s _ v.0 (v.2.in_use h is_open).1,
        clamp-count s v h len is_open,
      )
      (elim (ℕ_discrete (count s v h len is_open) 0) [
        | yes e ↦ rw e (
            returns (
              ap some (nothing (next_bytes s h len) (empty e)),
              advanced-zero s h (length (next_bytes s h len)) (empty e),
              v,
            ))
        | no e ↦
            rw
              (
                lt→ltb 0 (count s v h len is_open) (omega arith),
                read_block-done s v h len is_open (omega arith),
                text_read s v h len is_open (omega arith),
              )
              (returns (
                refl,
                ap (advanced s h) (sym (length-next_bytes s v h len is_open)),
                advanced-IsValid s v h len is_open,
              ))
      ])
  where
    empty : count s v h len is_open ≡ 0 → length (next_bytes s h len) ≡ 0
    empty e = length-next_bytes s v h len is_open ∙ e
