-- ===== src/Queue/Calls.antt =====
-- One `pcq_enqueue` and one `pcq_dequeue` at the same time, as steps.
--
-- `pcq_pusher_condvar_lock` and `pcq_popper_condvar_lock` are each held through a whole call, so at
-- most one call of each kind is past its wait. Each of the four critical sections is one step.
use mbroker_tfs.Base.{
  ℕ, ◌+◌, ◌-◌, ◌≤◌, ◌<◌, ◌≡◌, ◌≢◌, Bool, true, false, Option, none, some, List, [], ◌∷◌, ◌++◌,
  length, arith, ℕ_discrete,
}
use mbroker_tfs.Queue.{Queue, count_push, count_pop, store, advance, fetch}
use mbroker_tfs.Queue.Contents.{IsRing, window}

-- The element that a call of `pcq_enqueue` has counted and not yet stored, and whether a call of
-- `pcq_dequeue` has counted an element that it has not yet fetched.
pub record Calls {ℓ} (A : Type ℓ) : Type ℓ where
  pub queue : Queue A
  pub pusher : Option A
  pub popper : Bool

abbrev pub popping : Bool → ℕ
popping true = 1
popping false = 0

module _ {ℓ} {A : Type ℓ} where
  -- `Step c out d`: from `c` to `d`, with the element that a call of `pcq_dequeue` returns
  pub data Step : Calls A → Option A → Calls A → Type ℓ where
    push_counts :
        (x : A) (q r : Queue A) (popper : Bool)
        → count_push q ≡ some r
        → Step
            (record { queue = q; pusher = none; popper = popper })
            none
            (record { queue = r; pusher = some x; popper = popper })
    push_stores :
        (x : A) (q : Queue A) (popper : Bool)
        → Step
            (record { queue = q; pusher = some x; popper = popper })
            none
            (record { queue = store x q; pusher = none; popper = popper })
    pop_counts :
        (q r : Queue A) (pusher : Option A)
        → count_pop q ≡ some r
        → Step
            (record { queue = q; pusher = pusher; popper = false })
            none
            (record { queue = r; pusher = pusher; popper = true })
    pop_fetches :
        (q : Queue A) (pusher : Option A)
        → Step
            (record { queue = q; pusher = pusher; popper = true })
            (some (fetch q))
            (record { queue = advance q; pusher = pusher; popper = false })

  abbrev pub pushing : Option A → ℕ
  pushing none = 0
  pushing (some x) = 1

  -- The ring holds `xs`, and the count takes in the calls that are between their two steps.
  pub record Holds (c : Calls A) (xs : List A) : Type ℓ where
    pub ring : IsRing c.queue (length xs)
    pub window : window c.queue (length xs) ≡ xs
    pub count : c.queue.pcq_current_size + popping c.popper ≡ length xs + pushing c.pusher
    pub bound : c.queue.pcq_current_size ≤ c.queue.pcq_capacity

  -- While a call of each kind is between its steps, the ring is neither empty nor full.
  abbrev pub IsApart : Calls A → List A → Type 0
  IsApart c xs =
      pushing c.pusher ≡ 1
      → popping c.popper ≡ 1
      → (0 < length xs) × (length xs < c.queue.pcq_capacity)

  -- What a step does to the elements held
  pub data Fifo : List A → Option A → List A → Type ℓ where
    keeps : {xs : List A} → Fifo xs none xs
    puts : {xs : List A} (x : A) → Fifo xs none (xs ++ (x ∷ []))
    gets : {x : A} {xs : List A} → Fifo (x ∷ xs) (some x) xs

  pub push_counted :
      (q r : Queue A)
      → count_push q ≡ some r
      → (q.pcq_current_size ≢ q.pcq_capacity)
        × (r ≡ record q { pcq_current_size = q.pcq_current_size + 1 })
  unfolding count_push
  push_counted q r e = elim (ℕ_discrete q.pcq_current_size q.pcq_capacity) [
    | yes full ↦ absurd (ground (arith, e, full))
    | no room ↦ (room, ground (arith, e, room))
  ]

  pub pop_counted :
      (q r : Queue A)
      → count_pop q ≡ some r
      → (q.pcq_current_size ≢ 0) × (r ≡ record q { pcq_current_size = q.pcq_current_size - 1 })
  unfolding count_pop
  pop_counted q r e = elim (ℕ_discrete q.pcq_current_size 0) [
    | yes full ↦ absurd (ground (arith, e, full))
    | no room ↦ (room, ground (arith, e, room))
  ]
