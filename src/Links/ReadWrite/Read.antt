-- ===== src/Links/ReadWrite/Read.antt =====
-- `tfs_read` on a valid file system.
use mathlib.Core.Path.{fun_ext}
use mbroker_tfs.Base.{
  ℕ, ◌+◌, ◌-◌, ◌≤◌, ◌<◌, ◌≡◌, refl, sym, ap, ◌∙◌, Option, some, List, [], ◌∷◌, length, take, drop,
  length-take, length-drop, min, arith, lt→ltb, ℕ_discrete, update,
}
use mbroker_tfs.Tfs.Invariant.{as_bytes}
use mbroker_tfs.Tfs.ReadWrite.{clamp_read}
use mbroker_tfs.Tfs.ReadWrite.Read.{copied_bytes, nothing}
use mbroker_tfs.Links.State.{Fs, Held, done, reading, inode_lock, ftable_lock, data_block_get}
use mbroker_tfs.Links.ReadWrite.{copy_out, read_block, read_open, tfs_read}
use mbroker_tfs.Links.Returns.{Returns, returns}
use mbroker_tfs.Links.Invariant.{content, block_of, IsHandle, IsValid}
use mbroker_tfs.Links.Steps.{inode_get-done, lock-done}
use mbroker_tfs.Links.ReadWrite.Steps.{
  get_open_file_entry-open, ftable_lock-is_lock, inode_lock-is_lock, unlock_file-done,
  length-content,
}

-- The state after a read of `count` bytes: only the offset has moved.
abbrev pub advanced : Fs → ℕ → ℕ → Fs
advanced s h count = record s {
  open_file_table =
      update s.open_file_table h
        (record (s.open_file_table h) { of_offset = (s.open_file_table h).of_offset + count });
}

-- The bytes of the file from the handle's offset on, at most `len`
abbrev pub next_bytes : Fs → ℕ → ℕ → List ℕ
next_bytes s h len =
    take len (drop (s.open_file_table h).of_offset (content s (s.open_file_table h).of_inumber))

module _ (s : Fs) (v : IsValid s) (h len : ℕ) (is_open : IsHandle s h) where
  abbrev inumber : ℕ
  inumber = (s.open_file_table h).of_inumber

  abbrev offset : ℕ
  offset = (s.open_file_table h).of_offset

  abbrev size : ℕ
  size = (s.inode_table inumber).i_size

  abbrev count : ℕ
  count = min len (size - offset)

  offset-le-size : offset ≤ size
  offset-le-size = v.opens.within h is_open

  size_bound : size ≤ s.fs_params.block_size
  size_bound = (v.store.file inumber (v.opens.in_use h is_open)).1

  clamp-count : clamp_read size offset len ≡ count
  clamp-count = ground (arith, offset-le-size, size_bound, v.store.block_bound)

  advanced-IsValid : IsValid (advanced s h count)
  advanced-IsValid = record {
    store = record {
      mounted = v.store.mounted;
      block_bound = v.store.block_bound;
      some_inode = v.store.some_inode;
      some_block = v.store.some_block;
      root_taken = v.store.root_taken;
      root_type = v.store.root_type;
      root_block = v.store.root_block;
      root_block_taken = v.store.root_block_taken;
      root_entries = v.store.root_entries;
      data_bytes = v.store.data_bytes;
      file = v.store.file;
      target = v.store.target;
      apart = v.store.apart;
    };
    names = v.names;
    counted = v.counted;
    opens = record {
      in_use = λ k o. ground (arith, v.opens.in_use k o, v.opens.in_use h is_open);
      type = λ k o. ground (arith, v.opens.type k o, v.opens.type h is_open);
      within = λ k o. ground (arith, v.opens.within k o, v.opens.within h is_open);
    };
  }

  read_block-done :
      (l : Held)
      → 0 < count
      → read_block h (s.open_file_table h) count (s.inode_table inumber) s l
        ≡ done
            (take count (drop offset (as_bytes (s.fs_data (block_of (s.inode_table inumber))))))
            (advanced s h count)
            l
  unfolding read_block copy_out data_block_get
  read_block-done l p = ground (
    arith,
    (v.store.file inumber (v.opens.in_use h is_open)).2,
    v.store.data_bytes (block_of (s.inode_table inumber)),
    offset-le-size,
    size_bound,
  )

  length-next_bytes : length (next_bytes s h len) ≡ count
  length-next_bytes = omega (
    arith,
    length-take {0} len (drop offset (content s inumber)),
    length-drop {0} offset (content s inumber),
    length-content s v.store inumber (v.opens.in_use h is_open),
  )

  text_read :
      0 < count
      → take count (drop offset (as_bytes (s.fs_data (block_of (s.inode_table inumber)))))
        ≡ next_bytes s h len
  text_read p =
      copied_bytes size offset len (as_bytes (s.fs_data (block_of (s.inode_table inumber)))) (
        ground (
          arith,
          (v.store.file inumber (v.opens.in_use h is_open)).2,
          v.store.data_bytes (block_of (s.inode_table inumber)),
          size_bound,
        ))

-- The next bytes are returned, and only the offset has moved, past them. No lock stays held.
abbrev pub BytesRead : Fs → ℕ → ℕ → Option (List ℕ) → Fs → Held → Type 0
BytesRead s h len r t l =
    (l ≡ [])
    × (r ≡ some (next_bytes s h len))
    × (t ≡ advanced s h (length (next_bytes s h len)))
    × IsValid t

-- A move by 0 is none.
advanced-zero : (s : Fs) (h c : ℕ) → c ≡ 0 → s ≡ advanced s h c
advanced-zero s h c e = ap (λ table. record s { open_file_table = table }) (fun_ext still)
  where
    still :
        (k : ℕ)
        → s.open_file_table k
          ≡ update s.open_file_table h
              (record (s.open_file_table h) { of_offset = (s.open_file_table h).of_offset + c })
              k
    still k = ground arith

-- On a valid file system with links and no lock held, a read of at most `len` bytes through an open handle
-- ends without a failed assertion, undefined behaviour or a deadlock, and with no lock held. It returns the
-- bytes of the file's contents from the handle's offset on, at most `len`, moves the offset past them
-- and changes nothing else; the file system stays valid.
pub tfs_read-BytesRead :
    (s : Fs) (h len : ℕ)
    → IsValid s
    → IsHandle s h
    → Returns (BytesRead s h len) (tfs_read (some h) len s [])
unfolding tfs_read read_open
tfs_read-BytesRead s h len v is_open =
    rw
      (
        lock-done s [] (ftable_lock h) reading (ftable_lock-is_lock s h v.store is_open.0) refl,
        get_open_file_entry-open s ((ftable_lock h, reading) ∷ []) h v.store is_open,
        inode_get-done s ((ftable_lock h, reading) ∷ []) i v.store (v.opens.in_use h is_open).1,
        lock-done s ((ftable_lock h, reading) ∷ []) (inode_lock i) reading
            (inode_lock-is_lock s i v.store (v.opens.in_use h is_open)) refl,
        clamp-count s v h len is_open,
      )
      (elim (ℕ_discrete (count s v h len is_open) 0) [
        | yes e ↦
            rw (e, unlock_file-done s h i reading)
              (returns (
                refl,
                ap some (nothing (next_bytes s h len) (empty e)),
                advanced-zero s h (length (next_bytes s h len)) (empty e),
                v,
              ))
        | no e ↦
            rw
              (
                lt→ltb 0 (count s v h len is_open) (omega arith),
                read_block-done s v h len is_open held (omega arith),
                text_read s v h len is_open (omega arith),
                unlock_file-done (advanced s h (count s v h len is_open)) h i reading,
              )
              (returns (
                refl,
                refl,
                ap (advanced s h) (sym (length-next_bytes s v h len is_open)),
                advanced-IsValid s v h len is_open,
              ))
      ])
  where
    i : ℕ
    i = (s.open_file_table h).of_inumber

    held : Held
    held = (inode_lock i, reading) ∷ (ftable_lock h, reading) ∷ []

    empty : count s v h len is_open ≡ 0 → length (next_bytes s h len) ≡ 0
    empty e = length-next_bytes s v h len is_open ∙ e
