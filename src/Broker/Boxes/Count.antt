-- ===== src/Broker/Boxes/Count.antt =====
-- Counting the slots of the table that are taken.
use mbroker_tfs.Base.{
  ℕ, zero, suc, ◌+◌, ◌≤◌, ◌<◌, ◌≡◌, refl, length, Array, update, arith, dec_le, inl, inr,
  Bool-cases,
}
use mbroker_tfs.Tfs.State.{Allocation, free, taken, is_taken}
use mbroker_tfs.Broker.Boxes.{Server, taken_boxes}

abbrev pub weight : Allocation → ℕ
weight free = 0
weight taken = 1

count_taken : ℕ → ℕ → Array Allocation → ℕ
count_taken zero i table = 0
count_taken (suc n) i table = weight (table i) + count_taken n (suc i) table

count-below :
    (n i k : ℕ) (table : Array Allocation) (a : Allocation)
    → k < i
    → count_taken n i (update table k a) ≡ count_taken n i table
unfolding count_taken
count-below zero i k table a h = refl
count-below (suc n) i k table a h =
    let here : update table k a i ≡ table i = ground arith in
    rw (here, count-below n (suc i) k table a (omega arith)) refl

count-update :
    (n i k : ℕ) (table : Array Allocation) (a : Allocation)
    → i ≤ k
    → k < i + n
    → count_taken n i (update table k a) + weight (table k) ≡ count_taken n i table + weight a
unfolding count_taken
count-update zero i k table a h l = absurd (omega arith)
count-update (suc n) i k table a h l = elim (dec_le (suc i) k) [
  | yes q ↦
      let here : update table k a i ≡ table i = ground arith in
      rw here (omega (arith, count-update n (suc i) k table a q (omega arith)))
  | no q ↦ let same : k ≡ i = omega arith in rw same (at_first (omega arith))
]
  where
    at_first :
        i ≤ i
        → weight (update table i a i) + count_taken n (suc i) (update table i a) + weight (table i)
          ≡ weight (table i) + count_taken n (suc i) table + weight a
    at_first p =
        let here : update table i a i ≡ a = ground arith in
        rw (here, count-below n (suc i) i table a (omega arith)) (omega arith)

length-taken_boxes :
    (n i : ℕ) (s : Server) → length (taken_boxes n i s) ≡ count_taken n i s.free_box_table
unfolding taken_boxes count_taken
length-taken_boxes zero i s = refl
length-taken_boxes (suc n) i s = elim (Bool-cases (is_taken (s.free_box_table i))) [
  | inl e ↦
      let w : weight (s.free_box_table i) ≡ 1 = ground (arith, e) in
      rw (e, w) (omega (arith, length-taken_boxes n (suc i) s))
  | inr e ↦
      let w : weight (s.free_box_table i) ≡ 0 = ground (arith, e) in
      rw (e, w) (omega (arith, length-taken_boxes n (suc i) s))
]

-- The number of boxes in the table
pub taken_count : Array Allocation → ℕ
unfolding count_taken
taken_count table = count_taken 32 0 table

pub taken_count-update :
    (k : ℕ) (table : Array Allocation) (a : Allocation)
    → k < 32
    → taken_count (update table k a) + weight (table k) ≡ taken_count table + weight a
unfolding taken_count
taken_count-update k table a h = count-update 32 0 k table a (omega arith) (omega arith)

count_none : (n i : ℕ) → count_taken n i (λ _. free) ≡ 0
unfolding count_taken
count_none zero i = refl
count_none (suc n) i = omega (arith, count_none n (suc i))

pub taken_count_none : taken_count (λ _. free) ≡ 0
unfolding taken_count
taken_count_none = count_none 32 0

pub length-all_boxes : (s : Server) → length (taken_boxes 32 0 s) ≡ taken_count s.free_box_table
unfolding taken_count
length-all_boxes s = length-taken_boxes 32 0 s
