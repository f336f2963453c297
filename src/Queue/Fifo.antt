-- ===== src/Queue/Fifo.antt =====
-- Whole calls on a queue, one after the other, against a list.
use mathlib.Core.Path.{subst}
use mbroker_tfs.Base.{
  ℕ, suc, ◌+◌, ◌-◌, ◌<◌, ◌≡◌, ◌≢◌, ◌⊎◌, refl, sym, ap, ◌∙◌, inl, inr, Option, none, some, List, [],
  ◌∷◌, ◌++◌, Array, arith, ℕ_discrete,
}
use mbroker_tfs.Queue.{
  Queue, pcq_create, count_push, count_pop, pcq_enqueue, pcq_dequeue, store, advance, fetch,
}
use mbroker_tfs.Queue.Contents.{
  IsRing, IsRing-count, window, store-IsRing, window-store, advance-IsRing, window-advance,
}

module _ {ℓ} {A : Type ℓ} where
  -- A queue between calls
  abbrev pub IsQueue : Queue A → Type 0
  IsQueue q = IsRing q q.pcq_current_size

  abbrev pub contents : Queue A → List A
  contents q = window q q.pcq_current_size

  abbrev pub EnqueueResult : A → Queue A → Option (Queue A) → Type ℓ
  EnqueueResult x q o =
      ((o ≡ none) × (q.pcq_current_size ≡ q.pcq_capacity))
      ⊎ ((r : Queue A) × (o ≡ some r)
          × IsQueue r
          × (contents r ≡ contents q ++ (x ∷ []))
          × (r.pcq_capacity ≡ q.pcq_capacity))

  abbrev pub DequeueResult : Queue A → Option (A × Queue A) → Type ℓ
  DequeueResult q o =
      ((o ≡ none) × (contents q ≡ []))
      ⊎ ((x : A) × (r : Queue A) × (o ≡ some (x, r))
          × IsQueue r
          × (contents q ≡ x ∷ contents r)
          × (r.pcq_capacity ≡ q.pcq_capacity))

  -- A new queue of a positive capacity is valid and holds nothing.
  pub create-IsQueue : (memory : Array A) (n : ℕ) → 0 < n → IsQueue (pcq_create memory n)
  create-IsQueue memory n p = record { head = p; fits = omega arith; tail = ground arith }

  module _ (q : Queue A) (v : IsQueue q) where
    put-lem : (x : A) → q.pcq_current_size ≢ q.pcq_capacity → EnqueueResult x q (pcq_enqueue x q)
    unfolding pcq_enqueue count_push
    put-lem x e =
        let more : q.pcq_current_size + 1 ≡ suc q.pcq_current_size = omega arith in
        let room : q.pcq_current_size < q.pcq_capacity = omega (arith, v.fits) in
        inr (
          store x (record q { pcq_current_size = q.pcq_current_size + 1 }),
          ground arith,
          rw more (store-IsRing _ _ (IsRing-count (suc q.pcq_current_size) v) x room),
          ap (λ n. window (store x (record q { pcq_current_size = q.pcq_current_size + 1 })) n) more
              ∙ window-store _ _ (IsRing-count (q.pcq_current_size + 1) v) x room,
          refl,
        )

    get-lem : (n : ℕ) → q.pcq_current_size ≡ suc n → DequeueResult q (pcq_dequeue q)
    unfolding pcq_dequeue count_pop
    get-lem n e =
        let ring : IsRing q (suc n) = subst (λ m. IsRing q m) e v in
        let fewer : q.pcq_current_size - 1 ≡ n = omega (arith, e) in
        inr (
          fetch q,
          advance (record q { pcq_current_size = q.pcq_current_size - 1 }),
          ground arith,
          rw fewer (IsRing-count n (advance-IsRing q n ring)),
          ap (λ m. window q m) e
              ∙ window-advance q n ring
              ∙ ap (λ m. fetch q ∷ window (advance q) m) (sym fewer),
          refl,
        )

  -- On a valid queue `pcq_enqueue` either sleeps, and the queue is at its capacity, or puts the element
  -- behind the ones that the queue holds; the queue stays valid.
  pub enqueue-EnqueueResult :
      (x : A) (q : Queue A) → IsQueue q → EnqueueResult x q (pcq_enqueue x q)
  enqueue-EnqueueResult x q v = elim (ℕ_discrete q.pcq_current_size q.pcq_capacity) [
    | yes e ↦ inl (asleep e, e)
    | no e ↦ put-lem q v x e
  ]
    where
      asleep : q.pcq_current_size ≡ q.pcq_capacity → pcq_enqueue x q ≡ none
      asleep e = unfold pcq_enqueue count_push in ground (arith, e)

  -- On a valid queue `pcq_dequeue` either sleeps, and the queue holds nothing, or returns the first
  -- element and leaves the others; the queue stays valid.
  pub dequeue-DequeueResult : (q : Queue A) → IsQueue q → DequeueResult q (pcq_dequeue q)
  dequeue-DequeueResult q v = elim (ℕ_discrete q.pcq_current_size 0) [
    | yes e ↦ inl (asleep e, ap (λ n. window q n) e)
    | no e ↦ get-lem q v (q.pcq_current_size - 1) (omega arith)
  ]
    where
      asleep : q.pcq_current_size ≡ 0 → pcq_dequeue q ≡ none
      asleep e = unfold pcq_dequeue count_pop in ground (arith, e)
