-- ===== src/Broker/Boxes/Sessions.antt =====
-- What the sessions and the list request get from the table of boxes.
use mbroker_tfs.Base.{
  ℕ, ◌<◌, ◌≡◌, ◌≢◌, ◌⊎◌, refl, ap, true, false, Option, none, some, List, [], ◌∷◌, length,
  first-some, CString, c_str, strcmp_iff, arith, ◌==◌, inl, inr, Option-cases, ℕ_discrete, le→ltb,
  lt→ltb,
}
use mbroker_tfs.Broker.{name}
use mbroker_tfs.Broker.Boxes.{
  Server, Outcome, answered, is_box, find_box, put_box, box_add_pub, taken_boxes, box_get_all,
}
use mbroker_tfs.Broker.Boxes.Count.{length-all_boxes}
use mbroker_tfs.Broker.Boxes.Table.{IsBox}
use mbroker_tfs.Broker.Boxes.Steps.{IsServer, find_box-none}

nil_of_length : {A : Type 0} (xs : List A) → length xs ≡ 0 → [] ≡ xs
nil_of_length [] e = refl
nil_of_length (x ∷ xs) e = absurd (omega arith)

==-same : (a b : ℕ) → a ≡ b → (a == b) ≡ true
==-same a b e = ground (arith, e)

==-other : (a b : ℕ) → a ≢ b → (a == b) ≡ false
==-other a b e = ground (arith, e)

-- On a table that is in order, `box_get_all` returns every box in use, in the order of the table, and
-- changes nothing: its copies fit in the array that it allocates and its sanity check does not fail.
pub box_get_all-answered :
    (s : Server) → IsServer s → box_get_all s ≡ answered (taken_boxes 32 0 s) s
unfolding box_get_all
box_get_all-answered s v = elim (ℕ_discrete s.box_amount 0) [
  | yes e ↦
      rw (==-same s.box_amount 0 e)
        (ap (λ xs. answered xs s) (nil_of_length (taken_boxes 32 0 s) (omega (arith, all, e))))
  | no e ↦
      rw
        (
          ==-other s.box_amount 0 e,
          le→ltb (length (taken_boxes 32 0 s)) s.box_amount (omega (arith, all)),
          ==-same (length (taken_boxes 32 0 s)) s.box_amount all,
        )
        refl
]
  where
    all : length (taken_boxes 32 0 s) ≡ s.box_amount
    all = omega (arith, length-all_boxes s, v.amount_counts)

-- Slot `i` has the box of the name.
abbrev pub IsBoxOf : Server → CString → ℕ → Type 0
IsBoxOf s box_name i = IsBox s.free_box_table i × (c_str (name (s.server_boxes i)) ≡ c_str box_name)

pub find_box-some :
    (s : Server) (box_name : CString) (i : ℕ) → find_box s box_name ≡ some i → IsBoxOf s box_name i
find_box-some s box_name i e =
    let (hit, in_range, _) = first-some (λ j. is_box s box_name j) 32 i e in
    (
      (in_range, ground (arith, hit)),
      (strcmp_iff (name (s.server_boxes i)) box_name).0 (ground (arith, hit)),
    )

-- The publisher has the box for itself, or is turned away.
abbrev pub AddPubResult : Server → CString → Outcome (Option ℕ) → Type 0
AddPubResult s box_name o =
    ((i : ℕ) × IsBoxOf s box_name i
      × ((s.server_boxes i).n_publishers ≡ 0)
      × (o ≡ answered (some i) (put_box i (record (s.server_boxes i) { n_publishers = 1 }) s)))
    ⊎ ((o ≡ answered none s)
        × (((j : ℕ) → ¬ IsBoxOf s box_name j)
            ⊎ ((i : ℕ) × IsBoxOf s box_name i × (0 < (s.server_boxes i).n_publishers))))

-- On a table that is in order, `box_add_pub` gives a publisher the box of the name if there is one
-- and it has no publisher yet; it then has one, and nothing else changes. Else the call returns 0 and
-- changes nothing, since no box has the name or the box has a publisher.
pub box_add_pub-AddPubResult :
    (s : Server) (box_name : CString)
    → IsServer s
    → AddPubResult s box_name (box_add_pub box_name s)
unfolding box_add_pub
box_add_pub-AddPubResult s box_name v = elim (Option-cases (find_box s box_name)) [
  | inl e ↦
      rw (e, box_add_pub) (inr (refl, inl (λ j (x, same). find_box-none s v box_name e j x same)))
  | inr (i, e) ↦
      let x = find_box-some s box_name i e in
      elim (ℕ_discrete (s.server_boxes i).n_publishers 0) [
        | yes none_yet ↦ inl (i, x, none_yet, rw (e, box_add_pub, none_yet) refl)
        | no taken_up ↦ inr (
          rw (e, box_add_pub, lt→ltb 0 (s.server_boxes i).n_publishers (omega arith)) refl,
          inr (i, x, omega arith),
        )
      ]
]
