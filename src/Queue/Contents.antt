-- ===== src/Queue/Contents.antt =====
-- What the ring of a queue holds, as a list.
use native.Mathlib.Nat.{mod-eq_of_lt, mod-eq-sub-mod, mod-lt}
use mbroker_tfs.Base.{
  ℕ, zero, suc, ◌+◌, ◌-◌, ◌%◌, ◌≤◌, ◌<◌, ◌≡◌, ◌≢◌, refl, sym, ap, ap₂, ◌∙◌, List, [], ◌∷◌, ◌++◌,
  update, arith, ltb, dec_lt, if◌then◌else◌,
}
use mbroker_tfs.Queue.{Queue, store, advance}

-- Index `h + k` of a ring of `n`
abbrev pub at : ℕ → ℕ → ℕ → ℕ
at n h k = if ltb (h + k) n then h + k else (h + k) - n

next-at : (n h k : ℕ) → h < n → k < n → (at n h k + 1) % n ≡ at n h (suc k)
next-at n h k p q = elim (dec_lt (at n h k + 1) n) [
  | yes r ↦ let e = mod-eq_of_lt r in ground arith
  | no r ↦
      let e = mod-eq-sub-mod {n = at n h k + 1} {m = n} (ground arith) in
      let z = mod-eq_of_lt {n = at n h k + 1 - n} {m = n} (ground arith) in ground arith
]

-- Going round fewer than `n` steps does not come back.
at-ne : (n h k l : ℕ) → h < n → k < l → l < n → at n h k ≢ at n h l
at-ne n h k l p q r e = ground arith

at-suc : (n h k : ℕ) → h < n → k < n → at n ((h + 1) % n) k ≡ at n h (suc k)
at-suc n h k p q = elim (dec_lt (h + 1) n) [
  | yes r ↦ let e = mod-eq_of_lt r in ground arith
  | no r ↦
      let e = mod-eq-sub-mod {n = h + 1} {m = n} (ground arith) in
      let z = mod-eq_of_lt {n = h + 1 - n} {m = n} (ground arith) in ground arith
]

module _ {ℓ} {A : Type ℓ} where
  -- The elements `f 0`, …, `f (n - 1)`
  abbrev pub tabulate : ℕ → (ℕ → A) → List A
  tabulate zero f = []
  tabulate (suc n) f = f 0 ∷ tabulate n (λ k. f (suc k))

  tabulate-snoc : (n : ℕ) (f : ℕ → A) → tabulate (suc n) f ≡ tabulate n f ++ (f n ∷ [])
  tabulate-snoc zero f = refl
  tabulate-snoc (suc n) f = ap (λ xs. f 0 ∷ xs) (tabulate-snoc n (λ k. f (suc k)))

  tabulate-ext : (n : ℕ) (f g : ℕ → A) → ((k : ℕ) → k < n → f k ≡ g k) → tabulate n f ≡ tabulate n g
  tabulate-ext zero f g e = refl
  tabulate-ext (suc n) f g e =
      ap₂ (λ x xs. x ∷ xs) (e 0 (omega arith))
        (tabulate-ext n (λ k. f (suc k)) (λ k. g (suc k)) (λ k h. e (suc k) (omega arith)))

  abbrev pub window : Queue A → ℕ → List A
  window q n = tabulate n (λ k. q.pcq_buffer (at q.pcq_capacity q.pcq_head k))

  -- The queue holds `n` elements, from the head up to the tail.
  pub record IsRing (q : Queue A) (n : ℕ) : Type 0 where
    pub head : q.pcq_head < q.pcq_capacity
    pub fits : n ≤ q.pcq_capacity
    pub tail : q.pcq_tail ≡ at q.pcq_capacity q.pcq_head n

  pub IsRing-count :
      {q : Queue A} {n : ℕ} (m : ℕ) → IsRing q n → IsRing (record q { pcq_current_size = m }) n
  IsRing-count m ring = record { head = ring.head; fits = ring.fits; tail = ring.tail }

  module _ (q : Queue A) (n : ℕ) (ring : IsRing q n) where
    pub store-IsRing : (x : A) → n < q.pcq_capacity → IsRing (store x q) (suc n)
    store-IsRing x h = record {
      head = ring.head;
      fits = omega arith;
      tail =
          ap (λ t. (t + 1) % q.pcq_capacity) ring.tail
          ∙ next-at q.pcq_capacity q.pcq_head n ring.head h;
    }

    pub window-store :
        (x : A) → n < q.pcq_capacity → window (store x q) (suc n) ≡ window q n ++ (x ∷ [])
    window-store x h =
        tabulate-snoc n _ ∙ ap₂ (λ xs y. xs ++ (y ∷ [])) kept (ground (arith, ring.tail))
      where
        kept :
            tabulate n (λ k. update q.pcq_buffer q.pcq_tail x (at q.pcq_capacity q.pcq_head k))
            ≡ window q n
        kept =
            tabulate-ext n _ _
              (λ k l. ground (arith, ring.tail, at-ne q.pcq_capacity q.pcq_head k n ring.head l h))

  module _ (q : Queue A) (n : ℕ) (ring : IsRing q (suc n)) where
    pub advance-IsRing : IsRing (advance q) n
    advance-IsRing = record {
      head = mod-lt (q.pcq_head + 1) (omega (arith, ring.head));
      fits = omega (arith, ring.fits);
      tail =
          ring.tail ∙ sym (at-suc q.pcq_capacity q.pcq_head n ring.head (omega (arith, ring.fits)));
    }

    pub window-advance : window q (suc n) ≡ q.pcq_buffer q.pcq_head ∷ window (advance q) n
    window-advance =
        ap₂ (λ x xs. x ∷ xs) (ground (arith, ring.head))
          (tabulate-ext n _ _ (λ k l.
            ap q.pcq_buffer
              (sym (at-suc q.pcq_capacity q.pcq_head k ring.head (omega (arith, ring.fits))))))
