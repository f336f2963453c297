-- ===== src/Tfs/ReadWrite/Write.antt =====
-- `tfs_write` on a valid file system.
use mbroker_tfs.Base.{
  ℕ, ◌+◌, ◌-◌, ◌^◌, ◌≤◌, ◌<◌, ◌≡◌, ◌≢◌, ◌⊎◌, refl, sym, ap, ◌∙◌, inl, inr, Option, none, some, List,
  first, first-some, first-none, length, take, length-take, memcpy_at, memcpy_at_nil, min, arith,
  lt→ltb, Option-cases, ℕ_discrete,
}
use mbroker_tfs.Tfs.State.{taken, free, is_free, Inode, Tfs, Run, done, and_then, data_block_alloc}
use mbroker_tfs.Tfs.Invariant.{dir, content, block_of, IsInUse, IsHandle, IsValid}
use mbroker_tfs.Tfs.Returns.{Returns, returns}
use mbroker_tfs.Tfs.ReadWrite.{clamp_write, block_to_write, write_block, write_open, tfs_write}
use mbroker_tfs.Tfs.ReadWrite.Steps.{
  get_open_file_entry-open, inode_get-done, Owns, assigned, assigned-IsValid, assigned-Owns,
  content-assigned, written, written-IsValid, dir-written, write_block-done, content-written,
  content-written_ne,
}

-- What a write of the bytes `new` through handle `h` has done.
pub record Wrote (s : Tfs) (h : ℕ) (new : List ℕ) (t : Tfs) : Type 0 where
  pub valid : IsValid t
  pub text :
      content t (s.open_file_table h).of_inumber
      ≡ memcpy_at (s.open_file_table h).of_offset new (content s (s.open_file_table h).of_inumber)
  pub others :
      (j : ℕ) → IsInUse s j → j ≢ (s.open_file_table h).of_inumber → content t j ≡ content s j
  pub params : t.fs_params ≡ s.fs_params
  pub in_use : t.freeinode_ts ≡ s.freeinode_ts
  pub entries : dir t ≡ dir s
  pub handle :
      t.open_file_table h
      ≡ record (s.open_file_table h) { of_offset = (s.open_file_table h).of_offset + length new }
  pub handles : (k : ℕ) → k ≢ h → t.open_file_table k ≡ s.open_file_table k
  pub is_open : t.free_open_file_entries ≡ s.free_open_file_entries

-- There is no block for a file that needs its first one.
abbrev pub NoBlock : Tfs → ℕ → Type 0
NoBlock s h =
    ((s.inode_table (s.open_file_table h).of_inumber).i_size ≡ 0)
    × ((b : ℕ) → b < s.fs_params.max_block_count → s.free_blocks b ≡ taken)

-- How many bytes fit
abbrev pub room : Tfs → ℕ → ℕ → ℕ
room s h n = min n (s.fs_params.block_size - (s.open_file_table h).of_offset)

module _ (s : Tfs) (v : IsValid s) (h n : ℕ) (buffer : List ℕ) (is_open : IsHandle s h)
    (long : n ≤ length buffer) (small : n < 2 ^ 63) where
  abbrev inumber : ℕ
  inumber = (s.open_file_table h).of_inumber

  at_most : (s.open_file_table h).of_offset ≤ s.fs_params.block_size
  at_most = omega (arith, v.2.within h is_open, v.0.file inumber (v.2.in_use h is_open))

  clamp-room : clamp_write s.fs_params.block_size (s.open_file_table h).of_offset n ≡ room s h n
  clamp-room = ground (arith, at_most, v.0.block_bound)

  Wrote-none : room s h n ≡ 0 → Wrote s h (take (room s h n) buffer) s
  Wrote-none e = rw e (record {
    valid = v;
    text = sym (memcpy_at_nil (s.open_file_table h).of_offset (content s inumber));
    others = λ j u ne. refl;
    params = refl;
    in_use = refl;
    entries = refl;
    handle = ground arith;
    handles = λ k ne. refl;
    is_open = refl;
  })

  new_bytes : length (take (room s h n) buffer) ≡ room s h n
  new_bytes = omega (arith, length-take {0} (room s h n) buffer)

  fits : (s.open_file_table h).of_offset + room s h n ≤ s.fs_params.block_size
  fits = omega (arith, at_most)

module _ (s : Tfs) (v : IsValid s) (h n : ℕ) (buffer : List ℕ) (is_open : IsHandle s h)
    (long : n ≤ length buffer) (small : n < 2 ^ 63) (b : ℕ)
    (owns : Owns s (s.open_file_table h).of_inumber b) where
  abbrev new : List ℕ
  new = take (room s h n) buffer

  abbrev after : Tfs
  after = written s v h b (room s h n) new

  Wrote-block : Wrote s h new after
  Wrote-block = record {
    valid = written-IsValid s v h b (room s h n) new is_open owns fit all;
    text = content-written s v h b (room s h n) new is_open owns fit all;
    others = content-written_ne s v h b (room s h n) new is_open owns fit all;
    params = refl;
    in_use = refl;
    entries = dir-written s v h b (room s h n) new is_open owns fit all;
    handle = ground (arith, all);
    handles = λ k ne. ground arith;
    is_open = refl;
  }
    where
      fit : (s.open_file_table h).of_offset + room s h n ≤ s.fs_params.block_size
      fit = fits s v h n buffer is_open long small

      all : length new ≡ room s h n
      all = new_bytes s v h n buffer is_open long small

  reaches :
      write_block h
        (s.open_file_table h)
        buffer
        (room s h n)
        (some (s.inode_table (s.open_file_table h).of_inumber))
        s
      ≡ done (some (room s h n)) after
  reaches =
      write_block-done s v h b (room s h n) new is_open owns
        (fits s v h n buffer is_open long small) (new_bytes s v h n buffer is_open long small)
        buffer (omega arith) refl

-- Either all that fits is written, or nothing is and no block was left for the file's first bytes.
abbrev pub WriteResult : Tfs → ℕ → ℕ → List ℕ → Option ℕ → Tfs → Type 0
WriteResult s h n buffer r t =
    ((r ≡ some (room s h n)) × Wrote s h (take (room s h n) buffer) t)
    ⊎ ((r ≡ none) × (t ≡ s) × (0 < room s h n) × NoBlock s h)

module _ (s : Tfs) (v : IsValid s) (h n : ℕ) (buffer : List ℕ) (is_open : IsHandle s h)
    (long : n ≤ length buffer) (small : n < 2 ^ 63) where
  abbrev start : Inode
  start = s.inode_table (s.open_file_table h).of_inumber

  -- The file has a block.
  owner : 0 < start.i_size → Owns s (s.open_file_table h).of_inumber (block_of start)
  owner p =
      let f = v.0.file (s.open_file_table h).of_inumber (v.2.in_use h is_open) in
      ((f.2 p).0, (f.2 p).1, λ j u q e. v.0.apart j _ u (v.2.in_use h is_open) q p e)

  module _ (b : ℕ) (empty : start.i_size ≡ 0) (in_disk : b < s.fs_params.max_block_count)
      (is_new : s.free_blocks b ≡ free) where
    abbrev with_block : Tfs
    with_block =
        assigned s v (s.open_file_table h).of_inumber b (v.2.in_use h is_open) empty in_disk is_new

    valid_block : IsValid with_block
    valid_block = assigned-IsValid s v _ b (v.2.in_use h is_open) empty in_disk is_new

    Owns-block : Owns with_block (s.open_file_table h).of_inumber b
    Owns-block = assigned-Owns s v _ b (v.2.in_use h is_open) empty in_disk is_new

    same_text : (j : ℕ) → content with_block j ≡ content s j
    same_text = content-assigned s v _ b (v.2.in_use h is_open) empty in_disk is_new

    Wrote-with_block : {t : Tfs} {new : List ℕ} → Wrote with_block h new t → Wrote s h new t
    Wrote-with_block w = record {
      valid = w.valid;
      text = w.text ∙ ap (memcpy_at (s.open_file_table h).of_offset _) (same_text _);
      others = λ j u ne. w.others j u ne ∙ same_text j;
      params = w.params;
      in_use = w.in_use;
      entries = w.entries;
      handle = w.handle;
      handles = w.handles;
      is_open = w.is_open;
    }

    block_to_write-new :
        first (λ k. is_free (s.free_blocks k)) s.fs_params.max_block_count ≡ some b
        → block_to_write (s.open_file_table h).of_inumber start s
          ≡ done (some (with_block.inode_table (s.open_file_table h).of_inumber)) with_block
    unfolding block_to_write data_block_alloc
    block_to_write-new e = ground (arith, e, empty)

  block_to_write-full :
      start.i_size ≡ 0
      → first (λ k. is_free (s.free_blocks k)) s.fs_params.max_block_count ≡ none
      → block_to_write (s.open_file_table h).of_inumber start s ≡ done none s
  unfolding block_to_write data_block_alloc
  block_to_write-full z e = ground (arith, e, z)

  write_block-none : write_block h (s.open_file_table h) buffer (room s h n) none s ≡ done none s
  unfolding write_block
  write_block-none = refl

  block_to_write-old :
      0 < start.i_size
      → block_to_write (s.open_file_table h).of_inumber start s ≡ done (some start) s
  unfolding block_to_write
  block_to_write-old p = ground arith

  -- The part of the call behind `if (to_write > 0)`
  abbrev rest_of_write : Run (Option ℕ)
  rest_of_write =
      and_then (block_to_write (s.open_file_table h).of_inumber start s)
        (write_block h (s.open_file_table h) buffer (room s h n))

  first_bytes : 0 < room s h n → start.i_size ≡ 0 → Returns (WriteResult s h n buffer) rest_of_write
  first_bytes p z =
      elim (Option-cases (first (λ k. is_free (s.free_blocks k)) s.fs_params.max_block_count)) [
        | inl e ↦
            rw (block_to_write-full z e, write_block-none)
              (returns (inr (refl, refl, p, (z, λ b q. ground (arith, first-none _ _ e b q)))))
        | inr (b, e) ↦
            let (hit, in_disk, _) = first-some _ _ b e in
            let is_new : s.free_blocks b ≡ free = ground (arith, hit) in
            let t = with_block b z in_disk is_new in
            rw
              (
                block_to_write-new b z in_disk is_new e,
                reaches t (valid_block b z in_disk is_new) h n buffer is_open long small b
                    (Owns-block b z in_disk is_new),
              )
              (returns (
                inl (
                  refl,
                  Wrote-with_block b z in_disk is_new (
                      Wrote-block t (valid_block b z in_disk is_new) h n buffer is_open long small b
                        (Owns-block b z in_disk is_new)),
                )))
      ]

  more_bytes : 0 < start.i_size → Returns (WriteResult s h n buffer) rest_of_write
  more_bytes p =
      rw
        (block_to_write-old p, reaches s v h n buffer is_open long small (block_of start) (owner p))
        (returns
          (inl (refl, Wrote-block s v h n buffer is_open long small (block_of start) (owner p))))

  write_open-lem :
      Returns (WriteResult s h n buffer) (write_open buffer n (some (h, s.open_file_table h)) s)
  unfolding write_open
  write_open-lem =
      rw
        (
          inode_get-done s _ v.0 (v.2.in_use h is_open).1,
          clamp-room s v h n buffer is_open long small,
        )
        (elim (ℕ_discrete (room s h n) 0) [
          | yes e ↦
              rw e (returns (inl (ap some (sym e), Wrote-none s v h n buffer is_open long small e)))
          | no e ↦ elim (ℕ_discrete start.i_size 0) [
            | yes z ↦ rw (lt→ltb 0 (room s h n) (omega arith)) (first_bytes (omega arith) z)
            | no z ↦ rw (lt→ltb 0 (room s h n) (omega arith)) (more_bytes (omega arith))
          ]
        ])

-- On a valid file system, a write of `n` bytes through an open handle ends without a failed assertion
-- and without undefined behaviour. Either it returns the number of bytes that fit in the block, the
-- file's contents have these bytes of the buffer at the handle's offset, the offset has moved past
-- them, all other files, handles and the directory are as before, and the file system is valid; or
-- it returns -1 and changes nothing, the file is empty and no block is free. (`n` is below 2 ^ 63
-- and the buffer holds `n` bytes.)
pub tfs_write-WriteResult :
    (s : Tfs) (h n : ℕ) (buffer : List ℕ)
    → IsValid s
    → IsHandle s h
    → n ≤ length buffer
    → n < 2 ^ 63
    → Returns (WriteResult s h n buffer) (tfs_write (some h) buffer n s)
unfolding tfs_write
tfs_write-WriteResult s h n buffer v is_open long small =
    rw (get_open_file_entry-open s h v.0 is_open) (write_open-lem s v h n buffer is_open long small)
