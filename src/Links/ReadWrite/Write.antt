-- ===== src/Links/ReadWrite/Write.antt =====
-- `tfs_write` on a valid file system.
use mbroker_tfs.Base.{
  ℕ, ◌^◌, ◌≤◌, ◌<◌, ◌≡◌, ◌⊎◌, refl, sym, ap, ◌∙◌, inl, inr, Option, none, some, List, [], ◌∷◌,
  first, first-some, first-none, length, take, memcpy_at, arith, lt→ltb, Option-cases, ℕ_discrete,
}
use mbroker_tfs.Tfs.State.{free, is_free}
use mbroker_tfs.Links.State.{
  Inode, Fs, Held, Run, done, and_then, reading, writing, inode_lock, ftable_lock, data_block_alloc,
}
use mbroker_tfs.Links.Returns.{Returns, returns}
use mbroker_tfs.Links.Invariant.{content, block_of, IsHandle, IsValid}
use mbroker_tfs.Links.ReadWrite.{block_to_write, write_block, write_open, tfs_write}
use mbroker_tfs.Links.Steps.{inode_get-done, lock-done}
use mbroker_tfs.Links.ReadWrite.Steps.{
  get_open_file_entry-open, ftable_lock-is_lock, inode_lock-is_lock, unlock_file-done,
}
use mbroker_tfs.Links.ReadWrite.Changes.{
  write_locks, Owns, assigned, assigned-IsValid, assigned-Owns, content-assigned,
}
use mbroker_tfs.Links.ReadWrite.Written.{
  Wrote, NoBlock, room, clamp-room, Wrote-none, Wrote-block, reaches,
}

-- Either all that fits is written, or nothing is and no block was left for the file's first bytes. No lock
-- stays held.
abbrev pub BytesWritten : Fs → ℕ → ℕ → List ℕ → Option ℕ → Fs → Held → Type 0
BytesWritten s h n buffer r t l =
    (l ≡ [])
    × (((r ≡ some (room s h n)) × Wrote s h (take (room s h n) buffer) t)
        ⊎ ((r ≡ none) × (t ≡ s) × (0 < room s h n) × NoBlock s h))

module _ (s : Fs) (v : IsValid s) (h n : ℕ) (buffer : List ℕ) (is_open : IsHandle s h)
    (long : n ≤ length buffer) (small : n < 2 ^ 63) where
  abbrev start : Inode
  start = s.inode_table (s.open_file_table h).of_inumber

  abbrev held : Held
  held = write_locks h (s.open_file_table h).of_inumber

  -- The file has a block.
  owner : 0 < start.i_size → Owns s (s.open_file_table h).of_inumber (block_of start)
  owner p =
      let f = v.store.file (s.open_file_table h).of_inumber (v.opens.in_use h is_open) in
      ((f.2 p).0, (f.2 p).1, λ j u q e. v.store.apart j _ u (v.opens.in_use h is_open) q p e)

  module _ (b : ℕ) (empty : start.i_size ≡ 0) (in_disk : b < s.fs_params.max_block_count)
      (is_new : s.free_blocks b ≡ free) where
    abbrev with_block : Fs
    with_block =
        assigned s v (s.open_file_table h).of_inumber b (v.opens.in_use h is_open)
          (v.opens.type h is_open) empty in_disk is_new

    valid_block : IsValid with_block
    valid_block =
        assigned-IsValid s v _ b (v.opens.in_use h is_open) (v.opens.type h is_open) empty in_disk
          is_new

    Owns-block : Owns with_block (s.open_file_table h).of_inumber b
    Owns-block =
        assigned-Owns s v _ b (v.opens.in_use h is_open) (v.opens.type h is_open) empty in_disk
          is_new

    same_text : (j : ℕ) → content with_block j ≡ content s j
    same_text =
        content-assigned s v _ b (v.opens.in_use h is_open) (v.opens.type h is_open) empty in_disk
          is_new

    Wrote-with_block : {t : Fs} {new : List ℕ} → Wrote with_block h new t → Wrote s h new t
    Wrote-with_block w = record {
      valid = w.valid;
      text = w.text ∙ ap (memcpy_at (s.open_file_table h).of_offset _) (same_text _);
      others = λ j u ne. w.others j u ne ∙ same_text j;
      params = w.params;
      in_use = w.in_use;
      entries = w.entries;
      handle = w.handle;
      handles = w.handles;
      is_open = w.is_open;
    }

    block_to_write-new :
        first (λ k. is_free (s.free_blocks k)) s.fs_params.max_block_count ≡ some b
        → block_to_write (s.open_file_table h).of_inumber start s held
          ≡ done (some (with_block.inode_table (s.open_file_table h).of_inumber)) with_block held
    unfolding block_to_write data_block_alloc
    block_to_write-new e = ground (arith, e, empty)

  block_to_write-full :
      start.i_size ≡ 0
      → first (λ k. is_free (s.free_blocks k)) s.fs_params.max_block_count ≡ none
      → block_to_write (s.open_file_table h).of_inumber start s held ≡ done none s held
  unfolding block_to_write data_block_alloc
  block_to_write-full z e = ground (arith, e, z)

  write_block-none :
      write_block h (s.open_file_table h) buffer (room s h n) none s held ≡ done none s []
  unfolding write_block
  write_block-none = rw (unlock_file-done s h (s.open_file_table h).of_inumber writing) refl

  block_to_write-old :
      0 < start.i_size
      → block_to_write (s.open_file_table h).of_inumber start s held ≡ done (some start) s held
  unfolding block_to_write
  block_to_write-old p = ground arith

  -- The part of the call behind `if (to_write > 0)`
  abbrev rest_of_write : Run (Option ℕ)
  rest_of_write =
      and_then (block_to_write (s.open_file_table h).of_inumber start s held)
        (write_block h (s.open_file_table h) buffer (room s h n))

  first_bytes :
      0 < room s h n → start.i_size ≡ 0 → Returns (BytesWritten s h n buffer) rest_of_write
  first_bytes p z =
      elim (Option-cases (first (λ k. is_free (s.free_blocks k)) s.fs_params.max_block_count)) [
        | inl e ↦
            rw (block_to_write-full z e, write_block-none)
              (returns
                (refl, inr (refl, refl, p, (z, λ b q. ground (arith, first-none _ _ e b q)))))
        | inr (b, e) ↦
            let (hit, in_disk, _) = first-some _ _ b e in
            let is_new : s.free_blocks b ≡ free = ground (arith, hit) in
            let t = with_block b z in_disk is_new in
            rw
              (
                block_to_write-new b z in_disk is_new e,
                reaches t (valid_block b z in_disk is_new) h n buffer is_open long small b
                    (Owns-block b z in_disk is_new),
              )
              (returns (
                refl,
                inl (
                  refl,
                  Wrote-with_block b z in_disk is_new (
                      Wrote-block t (valid_block b z in_disk is_new) h n buffer is_open long small b
                        (Owns-block b z in_disk is_new)),
                ),
              ))
      ]

  more_bytes : 0 < start.i_size → Returns (BytesWritten s h n buffer) rest_of_write
  more_bytes p =
      rw
        (block_to_write-old p, reaches s v h n buffer is_open long small (block_of start) (owner p))
        (returns (
          refl,
          inl (refl, Wrote-block s v h n buffer is_open long small (block_of start) (owner p)),
        ))

  write_open-lem :
      Returns
        (BytesWritten s h n buffer)
        (write_open buffer n (some (h, s.open_file_table h)) s ((ftable_lock h, reading) ∷ []))
  unfolding write_open
  write_open-lem =
      rw
        (
          inode_get-done s ((ftable_lock h, reading) ∷ []) _ v.store (v.opens.in_use h is_open).1,
          lock-done s ((ftable_lock h, reading) ∷ []) (inode_lock (s.open_file_table h).of_inumber)
              writing (inode_lock-is_lock s _ v.store (v.opens.in_use h is_open)) refl,
          clamp-room s v h n buffer is_open long small,
        )
        (elim (ℕ_discrete (room s h n) 0) [
          | yes e ↦
              rw (e, unlock_file-done s h (s.open_file_table h).of_inumber writing)
                (returns
                  (refl, inl (ap some (sym e), Wrote-none s v h n buffer is_open long small e)))
          | no e ↦ elim (ℕ_discrete start.i_size 0) [
            | yes z ↦ rw (lt→ltb 0 (room s h n) (omega arith)) (first_bytes (omega arith) z)
            | no z ↦ rw (lt→ltb 0 (room s h n) (omega arith)) (more_bytes (omega arith))
          ]
        ])

-- On a valid file system with links and no lock held, a write of `n` bytes through an open handle ends without
-- a failed assertion, undefined behaviour or a deadlock, and with no lock held. Either it returns the number
-- of bytes that fit in the block, the file's contents have these bytes of the buffer at the handle's offset,
-- the offset has moved past them, all other files, handles and the directory are as before, and the file
-- system is valid; or it returns -1 and changes nothing, the file is empty and no block is free. (`n` is
-- below 2 ^ 63 and the buffer holds `n` bytes.)
pub tfs_write-BytesWritten :
    (s : Fs) (h n : ℕ) (buffer : List ℕ)
    → IsValid s
    → IsHandle s h
    → n ≤ length buffer
    → n < 2 ^ 63
    → Returns (BytesWritten s h n buffer) (tfs_write (some h) buffer n s [])
unfolding tfs_write
tfs_write-BytesWritten s h n buffer v is_open long small =
    rw
      (
        lock-done s [] (ftable_lock h) reading (ftable_lock-is_lock s h v.store is_open.0) refl,
        get_open_file_entry-open s ((ftable_lock h, reading) ∷ []) h v.store is_open,
      )
      (write_open-lem s v h n buffer is_open long small)
