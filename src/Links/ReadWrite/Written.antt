-- ===== src/Links/ReadWrite/Written.antt =====
-- What `tfs_write` does to the file that it writes.
use mbroker_tfs.Base.{
  ℕ, ◌+◌, ◌-◌, ◌^◌, ◌≤◌, ◌<◌, ◌≡◌, ◌≢◌, refl, sym, some, List, [], length, take, length-take,
  memcpy_at, memcpy_at_nil, min, arith,
}
use mbroker_tfs.Tfs.State.{taken}
use mbroker_tfs.Tfs.ReadWrite.{clamp_write}
use mbroker_tfs.Links.State.{Fs, done}
use mbroker_tfs.Links.Invariant.{dir, content, IsInUse, IsHandle, IsValid}
use mbroker_tfs.Links.ReadWrite.{write_block}
use mbroker_tfs.Links.ReadWrite.Changes.{
  write_locks, Owns, written, written-IsValid, dir-written, write_block-done, content-written,
  content-written_ne,
}

-- What a write of the bytes `new` through handle `h` has done.
pub record Wrote (s : Fs) (h : ℕ) (new : List ℕ) (t : Fs) : Type 0 where
  pub valid : IsValid t
  pub text :
      content t (s.open_file_table h).of_inumber
      ≡ memcpy_at (s.open_file_table h).of_offset new (content s (s.open_file_table h).of_inumber)
  pub others :
      (j : ℕ) → IsInUse s j → j ≢ (s.open_file_table h).of_inumber → content t j ≡ content s j
  pub params : t.fs_params ≡ s.fs_params
  pub in_use : t.freeinode_ts ≡ s.freeinode_ts
  pub entries : dir t ≡ dir s
  pub handle :
      t.open_file_table h
      ≡ record (s.open_file_table h) { of_offset = (s.open_file_table h).of_offset + length new }
  pub handles : (k : ℕ) → k ≢ h → t.open_file_table k ≡ s.open_file_table k
  pub is_open : t.free_open_file_entries ≡ s.free_open_file_entries

-- There is no block for a file that needs its first one.
abbrev pub NoBlock : Fs → ℕ → Type 0
NoBlock s h =
    ((s.inode_table (s.open_file_table h).of_inumber).i_size ≡ 0)
    × ((b : ℕ) → b < s.fs_params.max_block_count → s.free_blocks b ≡ taken)

-- How many bytes fit
abbrev pub room : Fs → ℕ → ℕ → ℕ
room s h n = min n (s.fs_params.block_size - (s.open_file_table h).of_offset)

module _ (s : Fs) (v : IsValid s) (h n : ℕ) (buffer : List ℕ) (is_open : IsHandle s h)
    (long : n ≤ length buffer) (small : n < 2 ^ 63) where
  abbrev inumber : ℕ
  inumber = (s.open_file_table h).of_inumber

  at_most : (s.open_file_table h).of_offset ≤ s.fs_params.block_size
  at_most = omega (arith, v.opens.within h is_open, v.store.file inumber (v.opens.in_use h is_open))

  pub clamp-room : clamp_write s.fs_params.block_size (s.open_file_table h).of_offset n ≡ room s h n
  clamp-room = ground (arith, at_most, v.store.block_bound)

  pub Wrote-none : room s h n ≡ 0 → Wrote s h (take (room s h n) buffer) s
  Wrote-none e = rw e (record {
    valid = v;
    text = sym (memcpy_at_nil (s.open_file_table h).of_offset (content s inumber));
    others = λ j u ne. refl;
    params = refl;
    in_use = refl;
    entries = refl;
    handle = ground arith;
    handles = λ k ne. refl;
    is_open = refl;
  })

  new_bytes : length (take (room s h n) buffer) ≡ room s h n
  new_bytes = omega (arith, length-take {0} (room s h n) buffer)

  pub fits : (s.open_file_table h).of_offset + room s h n ≤ s.fs_params.block_size
  fits = omega (arith, at_most)

module _ (s : Fs) (v : IsValid s) (h n : ℕ) (buffer : List ℕ) (is_open : IsHandle s h)
    (long : n ≤ length buffer) (small : n < 2 ^ 63) (b : ℕ)
    (owns : Owns s (s.open_file_table h).of_inumber b) where
  abbrev pub new : List ℕ
  new = take (room s h n) buffer

  abbrev after : Fs
  after = written s v h b (room s h n) new

  pub Wrote-block : Wrote s h new after
  Wrote-block = record {
    valid = written-IsValid s v h b (room s h n) new is_open owns fit all;
    text = content-written s v h b (room s h n) new is_open owns fit all;
    others = content-written_ne s v h b (room s h n) new is_open owns fit all;
    params = refl;
    in_use = refl;
    entries = dir-written s v h b (room s h n) new is_open owns fit all;
    handle = ground (arith, all);
    handles = λ k ne. ground arith;
    is_open = refl;
  }
    where
      fit : (s.open_file_table h).of_offset + room s h n ≤ s.fs_params.block_size
      fit = fits s v h n buffer is_open long small

      all : length new ≡ room s h n
      all = new_bytes s v h n buffer is_open long small

  pub reaches :
      write_block h
        (s.open_file_table h)
        buffer
        (room s h n)
        (some (s.inode_table (s.open_file_table h).of_inumber))
        s
        (write_locks h (s.open_file_table h).of_inumber)
      ≡ done (some (room s h n)) after []
  reaches =
      write_block-done s v h b (room s h n) new is_open owns
        (fits s v h n buffer is_open long small) (new_bytes s v h n buffer is_open long small)
        buffer (omega arith) refl
