-- ===== src/Links/Import/Copied.antt =====
-- The loop of `tfs_copy_from_external_fs`.
use mathlib.Core.Path.{subst}
use mbroker_tfs.Base.{
  ℕ, zero, suc, ◌+◌, ◌-◌, ◌≤◌, ◌<◌, ◌≡◌, ◌≢◌, ◌⊎◌, refl, sym, ap, ◌∙◌, inl, inr, true, false,
  Option, some, List, [], ◌∷◌, ◌++◌, append_assoc, append-nil, length, length-append, length-take,
  length-drop, take, drop, take_long, drop_long, memcpy_at, min, arith, dec_le, take-take,
  Bool-cases, ◌==◌,
}
use mbroker_tfs.Tfs.State.{taken}
use mbroker_tfs.Links.State.{Fs, Cmd, Held}
use mbroker_tfs.Links.Returns.{Returns, returns, bind, weaken}
use mbroker_tfs.Links.Invariant.{dir, content, IsInUse, IsHandle, IsValid}
use mbroker_tfs.Links.ReadWrite.Written.{Wrote, NoBlock, room}
use mbroker_tfs.Links.ReadWrite.Write.{BytesWritten, tfs_write-BytesWritten}
use mbroker_tfs.Links.ReadWrite.Steps.{length-content}
use mbroker_tfs.Links.Import.{CopyEnd, copied, failed, after_write, copy_loop}

-- Copying at the end is appending.
memcpy_at_end : (old new : List ℕ) → memcpy_at (length old) new old ≡ old ++ new
unfolding memcpy_at
memcpy_at_end old new =
    let front : take (length old) old ≡ old = take_long (length old) old (omega arith) in
    let back : drop (length old + length new) old ≡ [] = drop_long _ old (omega arith) in
    rw (front, back, append-nil new) refl

no_bytes : (xs : List ℕ) → length xs ≡ 0 → xs ≡ []
no_bytes [] e = refl
no_bytes (x ∷ xs) e = absurd (omega arith)

-- The first `m` elements, in two parts
take_split :
    (n m : ℕ) (xs : List ℕ)
    → length (take n xs) ≤ m
    → take n xs ++ take (m - length (take n xs)) (drop n xs) ≡ take m xs
take_split zero m xs h = let e : m - 0 ≡ m = omega arith in rw e refl
take_split (suc n) m [] h = let e : m - 0 ≡ m = omega arith in rw e refl
take_split (suc n) zero (x ∷ xs) h = absurd (omega arith)
take_split (suc n) (suc m) (x ∷ xs) h =
    let e : suc m - suc (length (take n xs)) ≡ m - length (take n xs) = omega arith in
    rw e (ap (λ ys. x ∷ ys) (take_split n m xs (omega arith)))

-- In the middle of the copy: handle `h` stands at the end of file `j`, which holds `text`; all else is as in `s`.
pub record IsCopying (s : Fs) (h j : ℕ) (text : List ℕ) (t : Fs) : Type 0 where
  pub valid : IsValid t
  pub is_open : IsHandle t h
  pub inumber : (t.open_file_table h).of_inumber ≡ j
  pub offset : (t.open_file_table h).of_offset ≡ length text
  pub contents : content t j ≡ text
  pub others : (k : ℕ) → IsInUse s k → k ≢ j → content t k ≡ content s k
  pub params : t.fs_params ≡ s.fs_params
  pub in_use : t.freeinode_ts ≡ s.freeinode_ts
  pub entries : dir t ≡ dir s
  pub handles : (k : ℕ) → k ≢ h → t.open_file_table k ≡ s.open_file_table k
  pub frees : t.free_open_file_entries ≡ s.free_open_file_entries

-- What fits of the rest
abbrev pub all_of : Fs → List ℕ → List ℕ → List ℕ
all_of s text rest = text ++ take (s.fs_params.block_size - length text) rest

all_of-nil : (s : Fs) (text rest : List ℕ) → rest ≡ [] → text ≡ all_of s text rest
all_of-nil s text rest nothing =
    let none_taken =
      no_bytes (take (s.fs_params.block_size - length text) [])
        (omega (arith, length-take {0} (s.fs_params.block_size - length text) [])) in
    rw (nothing, none_taken) (sym (append-nil text))

is_zero : (n : ℕ) → (n == 0) ≡ true → n ≡ 0
is_zero n e = ground (arith, e)

not_zero : (n : ℕ) → (n == 0) ≡ false → 0 < n
not_zero n e = ground (arith, e)

-- Every block is in use.
abbrev pub IsDiskFull : Fs → Type 0
IsDiskFull s = (b : ℕ) → b < s.fs_params.max_block_count → s.free_blocks b ≡ taken

-- How the loop ends: what fits into a block is in the file, or no block was free and the file is empty
abbrev pub LoopEnd : Fs → ℕ → ℕ → List ℕ → List ℕ → CopyEnd → Fs → Held → Type 0
LoopEnd s h j text rest r t l =
    (l ≡ [])
    × (((r ≡ copied) × IsCopying s h j (all_of s text rest) t)
        ⊎ ((r ≡ failed) × (text ≡ []) × IsCopying s h j [] t × IsDiskFull t))

module _ (s : Fs) (h j : ℕ) where
  in_use_now : (text : List ℕ) (t : Fs) → IsCopying s h j text t → IsInUse t j
  in_use_now text t c = rw c.inumber at (c.valid.opens.in_use h c.is_open)

  Wrote-IsCopying :
      (text new : List ℕ) (t u : Fs)
      → IsCopying s h j text t
      → Wrote t h new u
      → IsCopying s h j (text ++ new) u
  Wrote-IsCopying text new t u c w = record {
    valid = w.valid;
    is_open = rw (w.params, w.is_open) c.is_open;
    inumber = ap (λ f. f.of_inumber) w.handle ∙ c.inumber;
    offset =
        ap (λ f. f.of_offset) w.handle
        ∙ ap (λ n. n + length new) c.offset
        ∙ sym (length-append {0} text new);
    contents = (rw (c.inumber, c.offset, c.contents) at w.text) ∙ memcpy_at_end text new;
    others = λ k before ne.
        let now : IsInUse t k = rw (c.params, c.in_use) before in
        let other : k ≢ (t.open_file_table h).of_inumber = rw c.inumber ne in
        w.others k now other ∙ c.others k before ne;
    params = w.params ∙ c.params;
    in_use = w.in_use ∙ c.in_use;
    entries = w.entries ∙ c.entries;
    handles = λ k ne. w.handles k ne ∙ c.handles k ne;
    frees = w.is_open ∙ c.frees;
  }

  module _ (text rest : List ℕ) (t : Fs) (c : IsCopying s h j text t) where
    abbrev chunk : List ℕ
    chunk = take 127 rest

    abbrev free_space : ℕ
    free_space = s.fs_params.block_size - length text

    room_left : room t h (length chunk) ≡ min (length chunk) free_space
    room_left = rw (c.params, c.offset) refl

    -- The file is as long as the text.
    empty : NoBlock t h → text ≡ []
    empty (size, full) = no_bytes text (
        sym (ap (λ xs. length xs) c.contents)
        ∙ length-content t c.valid.store j (in_use_now text t c)
        ∙ (rw c.inumber at size))

    -- The chunk fits.
    module _ (some_chunk : 0 < length chunk) (fits : length chunk ≤ free_space)
        (small : length text ≤ s.fs_params.block_size) where
      next_text : all_of s (text ++ chunk) (drop 127 rest) ≡ all_of s text rest
      next_text =
          let size = length-append {0} text chunk in
          let left : s.fs_params.block_size - length (text ++ chunk) ≡ free_space - length chunk =
            omega (arith, size) in
          rw left (
            append_assoc text chunk _ ∙ ap (λ xs. text ++ xs) (take_split 127 free_space rest fits))

      LoopEnd-next :
          (r : CopyEnd) (u : Fs) (l : Held)
          → LoopEnd s h j (text ++ chunk) (drop 127 rest) r u l
          → LoopEnd s h j text rest r u l
      LoopEnd-next r u l (el, inl (er, end)) = (el, inl (er, rw next_text at end))
      LoopEnd-next r u l (el, inr (er, nothing, end, full)) =
          let size = length-append {0} text chunk in
          let none_there = ap (λ xs. length xs) nothing in
          absurd (omega (arith, size, none_there, some_chunk))

    -- After the write of a chunk
    after-LoopEnd :
        (onward : Cmd CopyEnd) (r : Option ℕ) (u : Fs) (l : Held)
        → 0 < length chunk
        → length text ≤ s.fs_params.block_size
        → (IsCopying s h j (text ++ chunk) u
            → length (text ++ chunk) ≤ s.fs_params.block_size
            → Returns (LoopEnd s h j (text ++ chunk) (drop 127 rest)) (onward u []))
        → BytesWritten t h (length chunk) chunk r u l
        → Returns (LoopEnd s h j text rest) (after_write (length chunk) r onward u l)
    after-LoopEnd onward r u l p small go (el, inr (er, eu, q, full)) =
        let nothing = empty full in
        rw (er, eu) (returns (el, inr (refl, nothing, rw nothing at c, full.1)))
    after-LoopEnd onward r u l p small go (el, inl (er, w)) =
        elim (dec_le (length chunk) free_space) [
          | yes fits ↦
              let all : room t h (length chunk) ≡ length chunk = omega (arith, room_left, fits) in
              let whole : take (length chunk) chunk ≡ chunk =
                take_long (length chunk) chunk (omega arith) in
              let now = Wrote-IsCopying text _ t u c w in
              let equal : (length chunk == length chunk) ≡ true = ground arith in
              let size = length-append {0} text chunk in
              rw (er, el, all, equal)
                (weaken (go (rw (all, whole) at now) (omega (arith, size, fits, small)))
                  (LoopEnd-next p fits small))
          | no cut ↦
              let less : room t h (length chunk) ≡ free_space = omega (arith, room_left, cut) in
              let size = length-take {0} 127 rest in
              let same : take free_space chunk ≡ take free_space rest =
                take-take free_space 127 rest (omega (arith, size, cut)) in
              let now = Wrote-IsCopying text _ t u c w in
              let other : (free_space == length chunk) ≡ false = ground (arith, cut) in
              rw (er, less, other) (returns (el, inl (refl, rw (less, same) at now)))
        ]

  pub copy_loop-LoopEnd :
      (n : ℕ) (text rest : List ℕ) (t : Fs)
      → length rest < n
      → length text ≤ s.fs_params.block_size
      → IsCopying s h j text t
      → Returns (LoopEnd s h j text rest) (copy_loop n (some h) rest t [])
  unfolding copy_loop
  copy_loop-LoopEnd zero text rest t enough small c = absurd (omega arith)
  copy_loop-LoopEnd (suc n) text rest t enough small c =
      elim (Bool-cases (length (take 127 rest) == 0)) [
        | inl over ↦
            let nothing = no_bytes rest (omega (arith, length-take {0} 127 rest, is_zero _ over)) in
            rw over (
              returns (
                refl,
                inl (refl, subst (λ xs. IsCopying s h j xs t) (all_of-nil s text rest nothing) c),
              ))
        | inr more ↦
            let some_chunk = not_zero _ more in
            let size = length-take {0} 127 rest in
            rw more (
              bind
                (tfs_write-BytesWritten t h (length (take 127 rest)) (take 127 rest) c.valid
                  c.is_open (omega arith) (omega (arith, size)))
                (λ r u l x.
                  after-LoopEnd text rest t c _ r u l some_chunk small
                    (λ now fit.
                      copy_loop-LoopEnd n _ (drop 127 rest) u
                        (omega (arith, length-drop {0} 127 rest, size, some_chunk, enough)) fit now)
                    x))
      ]
