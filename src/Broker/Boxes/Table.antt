-- ===== src/Broker/Boxes/Table.antt =====
-- What holds of the table of boxes between calls, and the changes that keep it.
use mbroker_tfs.Base.{
  ℕ, ◌+◌, ◌-◌, ◌≤◌, ◌<◌, ◌≡◌, ◌≢◌, refl, sym, ap, ◌∙◌, List, ◌∷◌, ◌++◌, append-nil, length, take,
  take_long, drop_long, replicate, Array, update, CString, c_str, memcpy_at, arith,
}
use mbroker_tfs.Tfs.State.{Allocation, free, taken}
use mbroker_tfs.Broker.{Box, name}
use mbroker_tfs.Broker.Boxes.{box_init, named_box, box_alloc}
use mbroker_tfs.Broker.Boxes.Count.{weight, taken_count, taken_count-update, taken_count_none}

-- Slot `i` has a box.
abbrev pub IsBox : Array Allocation → ℕ → Type 0
IsBox table i = (i < 32) × (table i ≡ taken)

-- The path of a box is a slash and its name, in 33 bytes.
abbrev pub IsPath : Box → Type 0
IsPath b = (b.path ≡ b'/' ∷ name b) × (length (name b) ≡ 32)

-- The amount is the number of boxes, no two have one name, and each has at most one publisher.
pub record IsTable (boxes : Array Box) (table : Array Allocation) (amount : ℕ) : Type 0 where
  pub amount_counts : amount ≡ taken_count table
  pub path : (i : ℕ) → IsPath (boxes i)
  pub apart :
      (i j : ℕ)
      → IsBox table i
      → IsBox table j
      → c_str (name (boxes i)) ≡ c_str (name (boxes j))
      → i ≡ j
  pub one_publisher : (i : ℕ) → IsBox table i → (boxes i).n_publishers ≤ 1

-- A copy over the whole name
path-memcpy_at :
    (c : ℕ) (old new : List ℕ)
    → length old ≡ 32
    → length new ≡ 32
    → memcpy_at 1 new (c ∷ old) ≡ c ∷ new
unfolding memcpy_at
path-memcpy_at c old new e f =
    ap (λ xs. c ∷ (new ++ xs)) (drop_long (1 + length new) (c ∷ old) (omega (arith, e, f)))
    ∙ ap (λ xs. c ∷ xs) (append-nil new)

box_init-path : (b : Box) → IsPath b → (box_init b).path ≡ b'/' ∷ replicate 32 0
box_init-path b (e, size) =
    ap (λ p. memcpy_at 1 (replicate 32 0) p) e
    ∙ path-memcpy_at b'/' (name b) (replicate 32 0) size refl

pub named_box-path :
    (b : Box) (box_name : CString)
    → IsPath b
    → length box_name ≡ 32
    → (named_box b box_name).path ≡ b'/' ∷ box_name
named_box-path b box_name p size =
    ap (λ x. memcpy_at 1 (take 32 box_name) x) (box_init-path b p)
    ∙ ap (λ x. memcpy_at 1 x (b'/' ∷ replicate 32 0)) (take_long 32 box_name (omega (arith, size)))
    ∙ path-memcpy_at b'/' (replicate 32 0) box_name refl size

pub named_box-IsPath :
    (b : Box) (box_name : CString) → IsPath b → length box_name ≡ 32 → IsPath (named_box b box_name)
named_box-IsPath b box_name p size = rw (named_box-path b box_name p size) (refl, size)

module _ (boxes : Array Box) (table : Array Allocation) (amount : ℕ)
    (v : IsTable boxes table amount) (i : ℕ) where
  -- A box changes, but not its path.
  pub put-IsTable :
      (b : Box)
      → b.path ≡ (boxes i).path
      → (IsBox table i → b.n_publishers ≤ 1)
      → IsTable (update boxes i b) table amount
  put-IsTable b same one = record {
    amount_counts = v.amount_counts;
    path = λ j. ground (arith, same, v.path j);
    apart = λ j k x y e. ground (arith, same, v.apart j k x y);
    one_publisher = λ j x. ground (arith, one, v.one_publisher j x);
  }

  -- A free slot's box changes.
  pub free-IsTable : (b : Box) → IsPath b → table i ≡ free → IsTable (update boxes i b) table amount
  free-IsTable b p unused = record {
    amount_counts = v.amount_counts;
    path = λ j. ground (arith, p, v.path j);
    apart = λ j k x y e. ground (arith, v.apart j k x y);
    one_publisher = λ j x. ground (arith, v.one_publisher j x);
  }

  -- A free slot is taken, by a box of a new name.
  pub take-IsTable :
      (b : Box)
      → IsPath b
      → b.n_publishers ≤ 1
      → i < 32
      → table i ≡ free
      → ((j : ℕ) → IsBox table j → c_str (name (boxes j)) ≢ c_str (name b))
      → IsTable (update boxes i b) (update table i taken) (amount + 1)
  take-IsTable b p one in_range unused fresh = record {
    amount_counts =
        let w : weight (table i) ≡ 0 = ground (arith, unused) in
        omega (arith, v.amount_counts, taken_count-update i table taken in_range, w);
    path = λ j. ground (arith, p, v.path j);
    apart = λ j k x y e. ground (arith, v.apart j k, fresh j, fresh k);
    one_publisher = λ j x. ground (arith, v.one_publisher j, one);
  }

  -- A taken slot is given back.
  pub erase-IsTable : IsBox table i → IsTable boxes (update table i free) (amount - 1)
  erase-IsTable (in_range, used) = record {
    amount_counts =
        let w : weight (table i) ≡ 1 = ground (arith, used) in
        omega (arith, v.amount_counts, taken_count-update i table free in_range, w);
    path = v.path;
    apart = λ j k x y e. ground (arith, v.apart j k);
    one_publisher = λ j x. ground (arith, v.one_publisher j);
  }

pub init-IsTable : (memory : Array Box) → IsTable (λ i. box_alloc (memory i)) (λ _. free) 0
init-IsTable memory = record {
  amount_counts = sym taken_count_none;
  path = λ i. rw (path-memcpy_at b'/' (replicate 32 0) (replicate 32 0) refl refl) (refl, refl);
  apart = λ i j x y e. ground arith;
  one_publisher = λ i x. ground arith;
}
