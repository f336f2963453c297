-- ===== src/Links/Open/Rounds.antt =====
-- How many rounds the loop of `tfs_open` over symbolic links needs.
use mbroker_tfs.Base.{
  ℕ, zero, suc, ◌+◌, ◌≤◌, ◌<◌, ◌≡◌, refl, sym, ap, ◌∙◌, inl, inr, Option, some, Array, arith,
  pigeonhole,
}
use mbroker_tfs.Links.State.{t_file, Fs}
use mbroker_tfs.Links.Invariant.{IsInUse, IsValid}
use mbroker_tfs.Links.Open.Resolve.{
  Leads, at_file, lost, onward, Goes, nowhere, along, next-IsInUse, Leads-or-Goes,
}

some_inj : {i j : ℕ} → some i ≡ some j → i ≡ j
some_inj e = cc

-- The number of steps does not depend on how they are counted.
Leads-unique : {s : Fs} {i n m : ℕ} {r q : Option ℕ} → Leads s i r n → Leads s i q m → n ≡ m
Leads-unique (at_file a) (at_file b) = refl
Leads-unique (at_file a) (lost b e) = absurd (cc)
Leads-unique (at_file a) (onward b e d) = absurd (cc)
Leads-unique (lost a e) (at_file b) = absurd (cc)
Leads-unique (lost a e) (lost b f) = refl
Leads-unique (lost a e) (onward b f d) = absurd (cc)
Leads-unique (onward a e d) (at_file b) = absurd (cc)
Leads-unique (onward a e d) (lost b f) = absurd (cc)
Leads-unique (onward {j = j} a e d) (onward {j = k} b f c) =
    let same : j ≡ k = some_inj (sym e ∙ f) in ap suc (Leads-unique (rw same at d) c)

-- A way of `n` links is none that ends sooner.
Goes-bound : {s : Fs} {i n m : ℕ} {r : Option ℕ} → Leads s i r n → Goes s i m → m ≤ n
Goes-bound d nowhere = omega arith
Goes-bound (at_file a) (along b f g) = absurd (cc)
Goes-bound (lost a e) (along b f g) = absurd (cc)
Goes-bound (onward {j = j} a e d) (along {j = k} b f g) =
    let same : j ≡ k = some_inj (sym e ∙ f) in omega (arith, Goes-bound (rw same at d) g)

-- The number after `a` steps
after : {s : Fs} {i n : ℕ} {r : Option ℕ} → Leads s i r n → Array ℕ
after {s} {i} d zero = i
after {s} {i} (at_file e) (suc a) = i
after {s} {i} (lost e f) (suc a) = i
after (onward e f d) (suc a) = after d a

after-Leads :
    {s : Fs} {i n : ℕ} {r : Option ℕ} (d : Leads s i r n) (a : ℕ)
    → a ≤ n
    → (m : ℕ) × (m + a ≡ n) × Leads s (after d a) r m
unfolding after
after-Leads {n = n} d zero h = (n, omega arith, d)
after-Leads (at_file e) (suc a) h = absurd (omega arith)
after-Leads (lost e f) (suc a) h = absurd (omega arith)
after-Leads (onward e f d) (suc a) h =
    let (m, sum, rest) = after-Leads d a (omega arith) in (m, omega arith, rest)

module _ (s : Fs) (v : IsValid s) where
  after-IsInUse :
      {i n : ℕ} {r : Option ℕ} (d : Leads s i r n) (a : ℕ) → IsInUse s i → IsInUse s (after d a)
  unfolding after
  after-IsInUse d zero u = u
  after-IsInUse (at_file e) (suc a) u = u
  after-IsInUse (lost e f) (suc a) u = u
  after-IsInUse (onward {i = i} {j = j} e f d) (suc a) u =
      after-IsInUse d a (next-IsInUse s v i j f)

  -- The file at the end
  pub Leads-file :
      {i j n : ℕ}
      → IsInUse s i
      → Leads s i (some j) n
      → IsInUse s j × ((s.inode_table j).i_node_type ≡ t_file)
  Leads-file u (at_file e) = (u, e)
  Leads-file u (onward {i = i} {j = k} e f d) = Leads-file (next-IsInUse s v i k f) d

  -- The links pass no number twice.
  pub Leads-bound :
      {i n : ℕ} {r : Option ℕ} → IsInUse s i → Leads s i r n → n < s.fs_params.max_inode_count
  Leads-bound {i} {n} {r} u d =
      let all =
        pigeonhole (after d) s.fs_params.max_inode_count (suc n) (λ a h. (after-IsInUse d a u).1)
          (λ a b h p e.
            let (m, sum, first) = after-Leads d a (omega arith) in
            let (k, total, second) = after-Leads d b (omega arith) in
            absurd (omega (arith, Leads-unique (rw e at first) second))) in
      omega (arith, all)

  -- A way through as many links as there are inodes has no end.
  pub Goes-forever :
      {i : ℕ} → IsInUse s i → Goes s i s.fs_params.max_inode_count → (m : ℕ) → Goes s i m
  Goes-forever {i} u g m = elim (Leads-or-Goes s v m i u) [
    | inl (r, n, h, d) ↦ absurd (omega (arith, Goes-bound d g, Leads-bound u d))
    | inr far ↦ far
  ]
