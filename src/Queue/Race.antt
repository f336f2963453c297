-- ===== src/Queue/Race.antt =====
-- Runs of the two calls in which they may overlap on an empty or a full ring.
use native.Mathlib.Nat.{mod-lt}
use mbroker_tfs.Base.{◌+◌, ◌≤◌, ◌<◌, ◌≡◌, refl, false, Option, none, some, List, [], ◌∷◌, arith}
use mbroker_tfs.Queue.{Queue}
use mbroker_tfs.Queue.Calls.{
  Calls, Step, push_counts, push_stores, pop_counts, pop_fetches, push_counted, pop_counted,
}

module _ {ℓ} {A : Type ℓ} where
  -- Any number of steps, with what the calls of `pcq_dequeue` return
  pub data Run : Calls A → List A → Calls A → Type ℓ where
    stop : {c : Calls A} → Run c [] c
    silent : {c d e : Calls A} {xs : List A} → Step c none d → Run d xs e → Run c xs e
    returned :
        {c d e : Calls A} {x : A} {xs : List A} → Step c (some x) d → Run d xs e → Run c (x ∷ xs) e

  -- The count is within the capacity, and both indices lie in the buffer.
  abbrev pub IsInBounds : Queue A → Type 0
  IsInBounds q =
      (q.pcq_current_size ≤ q.pcq_capacity)
      × (q.pcq_head < q.pcq_capacity)
      × (q.pcq_tail < q.pcq_capacity)

  Step-IsInBounds :
      {c d : Calls A} {out : Option A}
      → Step c out d
      → IsInBounds c.queue
      → IsInBounds d.queue × (d.queue.pcq_capacity ≡ c.queue.pcq_capacity)
  Step-IsInBounds (push_counts x q r popper e) (a, b, c) =
      let (room, same) = push_counted q r e in rw same ((omega arith, b, c), refl)
  Step-IsInBounds (push_stores x q popper) (a, b, c) =
      ((a, b, mod-lt (q.pcq_tail + 1) (omega arith)), refl)
  Step-IsInBounds (pop_counts q r pusher e) (a, b, c) =
      let (left, same) = pop_counted q r e in rw same ((omega arith, b, c), refl)
  Step-IsInBounds (pop_fetches q pusher) (a, b, c) =
      ((a, mod-lt (q.pcq_head + 1) (omega arith), c), refl)

  -- However the steps of the two calls are interleaved, the count stays within the capacity, both
  -- indices stay in the buffer, and the capacity stays.
  pub Run-IsInBounds :
      {c d : Calls A} {xs : List A}
      → Run c xs d
      → IsInBounds c.queue
      → IsInBounds d.queue × (d.queue.pcq_capacity ≡ c.queue.pcq_capacity)
  Run-IsInBounds stop b = (b, refl)
  Run-IsInBounds (silent step run) b =
      let (b', e) = Step-IsInBounds step b in
      let (b'', e') = Run-IsInBounds run b' in (b'', omega (arith, e, e'))
  Run-IsInBounds (returned step run) b =
      let (b', e) = Step-IsInBounds step b in
      let (b'', e') = Run-IsInBounds run b' in (b'', omega (arith, e, e'))

  -- No call is past its wait.
  abbrev pub idle : Queue A → Calls A
  idle q = record { queue = q; pusher = none; popper = false }
