-- ===== src/Queue.antt =====
-- The queue between the thread that listens and the workers
-- (p2/producer-consumer/producer-consumer.c).
--
-- A call that would sleep returns `none`. Each call first counts the element, and only then moves it:
-- the two halves are functions of their own, since `pcq_current_size_lock` is released in between.
pub mod Contents
pub mod Fifo
pub mod Calls
pub mod Race
mod Tests
use mbroker_tfs.Base.{ℕ, ◌+◌, ◌-◌, ◌%◌, Option, none, some, Array, update, ◌==◌, if◌then◌else◌}

pub record Queue {ℓ} (A : Type ℓ) : Type ℓ where
  pub pcq_buffer : Array A
  pub pcq_capacity : ℕ
  pub pcq_current_size : ℕ
  pub pcq_head : ℕ
  pub pcq_tail : ℕ

module _ {ℓ} {A : Type ℓ} where
  -- `memory` is what `malloc` gives.
  abbrev pub pcq_create : Array A → ℕ → Queue A
  pcq_create memory capacity = record {
    pcq_buffer = memory;
    pcq_capacity = capacity;
    pcq_current_size = 0;
    pcq_head = 0;
    pcq_tail = 0;
  }

  -- `while (pcq_current_size == pcq_capacity) wait; pcq_current_size++;`
  unfoldable pub count_push : Queue A → Option (Queue A)
  count_push q =
      if q.pcq_current_size == q.pcq_capacity
      then none
      else some (record q { pcq_current_size = q.pcq_current_size + 1 })

  abbrev pub store : A → Queue A → Queue A
  store elem q = record q {
    pcq_buffer = update q.pcq_buffer q.pcq_tail elem;
    pcq_tail = (q.pcq_tail + 1) % q.pcq_capacity;
  }

  unfoldable pub pcq_enqueue : A → Queue A → Option (Queue A)
  pcq_enqueue elem q = elim (count_push q) [ none ↦ none | some r ↦ some (store elem r) ]

  -- `while (pcq_current_size == 0) wait; pcq_current_size--;`
  unfoldable pub count_pop : Queue A → Option (Queue A)
  count_pop q =
      if q.pcq_current_size == 0
      then none
      else some (record q { pcq_current_size = q.pcq_current_size - 1 })

  abbrev pub fetch : Queue A → A
  fetch q = q.pcq_buffer q.pcq_head

  abbrev pub advance : Queue A → Queue A
  advance q = record q { pcq_head = (q.pcq_head + 1) % q.pcq_capacity }

  unfoldable pub pcq_dequeue : Queue A → Option (A × Queue A)
  pcq_dequeue q = elim (count_pop q) [ none ↦ none | some r ↦ some (fetch r, advance r) ]
