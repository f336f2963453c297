-- ===== src/Manager/Insert.antt =====
-- Where the manager puts the nodes that it reads.
use mathlib.Core.List.{Perm}
use mathlib.Core.List.Perm
use mbroker_tfs.Base.{refl, List, [], ◌∷◌, inl, inr, Bool-cases}
use mbroker_tfs.Manager.{Node, strcmp_lt, insert_after, insert_node}

insert_after-Perm :
    (new current : Node) (nodes : List Node)
    → Perm (insert_after new current nodes) (new ∷ current ∷ nodes)
unfolding insert_after
insert_after-Perm new current [] = Perm.swap new current []
insert_after-Perm new current (next ∷ rest) =
    elim (Bool-cases (strcmp_lt current.box_name new.box_name)) [
      | inl e ↦ rw e (
          Perm.trans (Perm.cons current (insert_after-Perm new next rest))
            (Perm.swap new current (next ∷ rest)))
      | inr e ↦ rw e (Perm.swap new current (next ∷ rest))
    ]

-- Inserting a node loses none: the chain is a permutation of the node and the old chain.
pub insert_node-Perm : (new : Node) (nodes : List Node) → Perm (insert_node new nodes) (new ∷ nodes)
unfolding insert_node
insert_node-Perm new [] = Perm.refl (new ∷ [])
insert_node-Perm new (head ∷ rest) = elim (Bool-cases (strcmp_lt head.box_name new.box_name)) [
  | inl e ↦ rw e (insert_after-Perm new head rest)
  | inr e ↦ rw e (Perm.refl (new ∷ head ∷ rest))
]
