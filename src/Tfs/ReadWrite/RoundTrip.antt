-- ===== src/Tfs/ReadWrite/RoundTrip.antt =====
-- What `tfs_write` writes, `tfs_read` reads back through another handle.
use mbroker_tfs.Base.{
  ℕ, ◌^◌, ◌≤◌, ◌<◌, ◌≡◌, ◌≢◌, ◌⊎◌, sym, ap, ◌∙◌, inl, inr, Option, some, List, length, take,
  take-drop-memcpy_at, length-take, arith,
}
use mbroker_tfs.Tfs.State.{Tfs, ◌>>◌}
use mbroker_tfs.Tfs.Invariant.{content, IsHandle, IsValid}
use mbroker_tfs.Tfs.Returns.{Returns, bind, weaken}
use mbroker_tfs.Tfs.ReadWrite.{tfs_write, tfs_read}
use mbroker_tfs.Tfs.ReadWrite.Write.{Wrote, room, NoBlock, WriteResult, tfs_write-WriteResult}
use mbroker_tfs.Tfs.ReadWrite.Read.{next_bytes, tfs_read-ReadResult}
use mbroker_tfs.Tfs.ReadWrite.Steps.{length-content}

module _ (s : Tfs) (v : IsValid s) (h k : ℕ) (is_open : IsHandle s h) (ne : h ≢ k)
    (same : s.open_file_table k ≡ s.open_file_table h) where
  pub next_bytes-Wrote :
      {t : Tfs} (new : List ℕ) → Wrote s h new t → next_bytes t k (length new) ≡ new
  next_bytes-Wrote new w =
      rw (w.handles k (λ e. ne (sym e)), same, w.text)
        (take-drop-memcpy_at (s.open_file_table h).of_offset new
          (content s (s.open_file_table h).of_inumber) at_most)
    where
      at_most :
          (s.open_file_table h).of_offset ≤ length (content s (s.open_file_table h).of_inumber)
      at_most = omega (
        arith,
        v.2.within h is_open,
        length-content s v (s.open_file_table h).of_inumber (v.2.in_use h is_open),
      )

-- The bytes come back, or there was no block for them.
abbrev pub ReadBack : Tfs → ℕ → ℕ → List ℕ → Option (List ℕ) → Type 0
ReadBack s h n buffer r = (r ≡ some (take (room s h n) buffer)) ⊎ NoBlock s h

-- On a valid file system with two handles of one file at one offset, a write of `n` bytes through
-- one and a read of as many as fit through the other return the bytes that were written, unless the
-- file is empty and no block is free.
pub tfs_read-tfs_write :
    (s : Tfs) (h k n : ℕ) (buffer : List ℕ)
    → IsValid s
    → IsHandle s h
    → IsHandle s k
    → h ≢ k
    → s.open_file_table k ≡ s.open_file_table h
    → n ≤ length buffer
    → n < 2 ^ 63
    → Returns
        (λ r _. ReadBack s h n buffer r)
        ((tfs_write (some h) buffer n >> tfs_read (some k) (room s h n)) s)
tfs_read-tfs_write s h k n buffer v is_open open_k ne same long small =
    bind (tfs_write-WriteResult s h n buffer v is_open long small) (λ r t w. after t r w)
  where
    whole : length (take (room s h n) buffer) ≡ room s h n
    whole = omega (arith, length-take {0} (room s h n) buffer)

    after :
        (t : Tfs) (r : Option ℕ)
        → WriteResult s h n buffer r t
        → Returns (λ r _. ReadBack s h n buffer r) (tfs_read (some k) (room s h n) t)
    after t r (inl (e, w)) =
        weaken (tfs_read-ReadResult t k (room s h n) w.valid (rw (w.params, w.is_open) open_k))
          (λ out u result. inl (
            result.0
            ∙ ap some (
                rw whole at
                  (next_bytes-Wrote s v h k is_open ne same (take (room s h n) buffer) w))))
    after t r (inr (e, same_state, p, full)) =
        weaken (tfs_read-ReadResult t k (room s h n) (rw same_state v) (rw same_state open_k))
          (λ out u result. inr full)
