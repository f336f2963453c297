-- ===== src/Manager/Listing.antt =====
-- What the manager reads when the broker lists its boxes.
use mathlib.Core.List.{Perm, perm_middle}
use mathlib.Core.List.Perm
use mathlib.Core.Path.{subst}
use mbroker_tfs.Base.{
  ℕ, zero, suc, ◌^◌, ◌≤◌, ◌<◌, ◌≡◌, refl, sym, ap, ◌∙◌, false, ◌&&◌, some, List, [], ◌∷◌, ◌++◌,
  append_assoc, append-nil, take, length, length-append, strlen, memcpy_at, arith, ◌==◌,
  Option-cases, inl, inr,
}
use mbroker_tfs.Wire.{le_bytes}
use mbroker_tfs.Wire.Fill.{drop-front, length-le_bytes, of_bytes-le_bytes}
use mbroker_tfs.Wire.Layout.{length-take_of, build_list_boxes_response-layout}
use mbroker_tfs.Broker.{Box, name}
use mbroker_tfs.Broker.Listen.{read_pipe-front}
use mbroker_tfs.Broker.Listing.{box_response, box_responses, list_responses}
use mbroker_tfs.Manager.{
  Node, read_uint64, parse_node, insert_node, read_nodes, process_list_response,
}
use mbroker_tfs.Manager.Insert.{insert_node-Perm}

-- The node that a box is read as
abbrev pub node_of : ℕ → Box → Node
node_of last b = record {
  box_name = take 32 (name b);
  n_subscribers = b.n_subscribers;
  n_publishers = b.n_publishers;
  box_size = b.box_size;
  last = last;
}

abbrev pub nodes_of : Box → List Box → List Node
nodes_of b [] = node_of 1 b ∷ []
nodes_of b (c ∷ cs) = node_of 0 b ∷ nodes_of c cs

abbrev pub node_list : List Box → List Node
node_list [] = []
node_list (b ∷ bs) = nodes_of b bs

-- A box that can be sent: a name that is not empty, and counters of 64 bits
pub record IsSendable (b : Box) : Type 0 where
  pub some_name : 0 < strlen (take 32 (name b))
  pub name_size : 32 ≤ length (name b)
  pub size : b.box_size < 2 ^ 64
  pub publishers : b.n_publishers < 2 ^ 64
  pub subscribers : b.n_subscribers < 2 ^ 64

abbrev pub AllSendable : List Box → Type 0
AllSendable [] = Unit
AllSendable (b ∷ bs) = IsSendable b × AllSendable bs

read_uint64-le_bytes :
    (old n : ℕ) (rest : List ℕ) → n < 2 ^ 64 → read_uint64 old (le_bytes 8 n ++ rest) ≡ n
read_uint64-le_bytes old n rest h =
    rw
      (read_pipe-front 8 (le_bytes 8 old) (le_bytes 8 n) rest (length-le_bytes 8 n)
        (length-le_bytes 8 old))
      (of_bytes-le_bytes 8 n h)

box_response-layout :
    (last : ℕ) (b : Box) (rest : List ℕ)
    → 32 ≤ length (name b)
    → box_response last b ++ rest
      ≡ 8
        ∷ last
        ∷ (take 32 (name b)
            ++ (le_bytes 8 b.box_size
                ++ (le_bytes 8 b.n_publishers ++ (le_bytes 8 b.n_subscribers ++ rest))))
box_response-layout last b rest h =
    rw
      (
        build_list_boxes_response-layout last (name b) b.box_size b.n_publishers b.n_subscribers h,
        append_assoc,
        append_assoc,
        append_assoc,
      )
      refl

has_name :
    (last : ℕ) (b : Box) → IsSendable b → (last == 1 && strlen (take 32 (name b)) == 0) ≡ false
has_name last b s = let h = s.some_name in ground arith

-- The manager reads back what the broker sent of one box.
pub parse_node-box_response :
    (memory : Node) (last : ℕ) (b : Box) (rest : List ℕ)
    → length memory.box_name ≡ 32
    → IsSendable b
    → parse_node memory (box_response last b ++ rest) ≡ some (false, node_of last b, rest)
unfolding parse_node
parse_node-box_response memory last b rest m s =
    rw
      (
        box_response-layout last b rest s.name_size,
        read_pipe-front 32 memory.box_name (take 32 (name b)) _
            (length-take_of 32 (name b) s.name_size) m,
        drop-front 32 (take 32 (name b)) _ (length-take_of 32 (name b) s.name_size),
        read_uint64-le_bytes memory.box_size b.box_size _ s.size,
        drop-front 8 (le_bytes 8 b.box_size) _ (length-le_bytes 8 b.box_size),
        read_uint64-le_bytes memory.n_publishers b.n_publishers _ s.publishers,
        drop-front 8 (le_bytes 8 b.n_publishers) _ (length-le_bytes 8 b.n_publishers),
        read_uint64-le_bytes memory.n_subscribers b.n_subscribers _ s.subscribers,
        drop-front 8 (le_bytes 8 b.n_subscribers) rest (length-le_bytes 8 b.n_subscribers),
      )
      (rw (has_name last b s) refl)

box_responses-nil : (b : Box) → box_responses b [] ≡ box_response 1 b ++ []
unfolding box_responses
box_responses-nil b = sym (append-nil _)

box_responses-cons :
    (b c : Box) (cs : List Box) → box_responses b (c ∷ cs) ≡ box_response 0 b ++ box_responses c cs
unfolding box_responses
box_responses-cons b c cs = refl

some_bytes : (last : ℕ) (b : Box) → IsSendable b → 0 < length (box_response last b)
some_bytes last b s = omega (
  arith,
  ap (λ xs. length xs) (box_response-layout last b [] s.name_size),
  length-append {0} (box_response last b) [],
)

length-box_responses :
    (b : Box) (bs : List Box) → AllSendable (b ∷ bs) → length bs < length (box_responses b bs)
unfolding box_responses
length-box_responses b [] s = some_bytes 1 b s.0
length-box_responses b (c ∷ cs) s = omega (
  arith,
  length-box_responses c cs s.1,
  some_bytes 0 b s.0,
  length-append {0} (box_response 0 b) (box_responses c cs),
)

module _ (memory : Node) (m : length memory.box_name ≡ 32) where
  read_nodes-last :
      (fuel : ℕ) (new : Node) (nodes : List Node) (input : List ℕ)
      → new.last ≡ 1
      → read_nodes fuel memory new nodes input ≡ some nodes
  unfolding read_nodes
  read_nodes-last zero new nodes input e = rw e refl
  read_nodes-last (suc fuel) new nodes input e = elim (Option-cases (parse_node memory input)) [
    | inl none_read ↦ rw (none_read, e, read_nodes) refl
    | inr ((found, node, rest), some_read) ↦ rw (some_read, e, read_nodes) refl
  ]

  read_nodes-step :
      (fuel : ℕ) (new : Node) (nodes : List Node) (last : ℕ) (b : Box) (rest : List ℕ)
      → new.last ≡ 0
      → IsSendable b
      → read_nodes (suc fuel) memory new nodes (box_response last b ++ rest)
        ≡ read_nodes fuel memory (node_of last b) (insert_node (node_of last b) nodes) rest
  unfolding read_nodes
  read_nodes-step fuel new nodes last b rest e s =
      rw (parse_node-box_response memory last b rest m s, e, read_nodes) refl

  -- The loop reads the nodes of all boxes to come.
  read_nodes-Perm :
      (b : Box) (bs : List Box) (fuel : ℕ) (new : Node) (nodes : List Node)
      → new.last ≡ 0
      → AllSendable (b ∷ bs)
      → length bs < fuel
      → (ns : List Node) × (read_nodes fuel memory new nodes (box_responses b bs) ≡ some ns)
        × Perm ns (nodes_of b bs ++ nodes)
  read_nodes-Perm b bs zero new nodes e s h = absurd (omega arith)
  read_nodes-Perm b [] (suc fuel) new nodes e s h = (
    insert_node (node_of 1 b) nodes,
    ap (λ xs. read_nodes (suc fuel) memory new nodes xs) (box_responses-nil b)
        ∙ read_nodes-step fuel new nodes 1 b [] e s.0
        ∙ read_nodes-last fuel (node_of 1 b) _ [] refl,
    insert_node-Perm (node_of 1 b) nodes,
  )
  read_nodes-Perm b (c ∷ cs) (suc fuel) new nodes e s h =
      let (ns, done, p) =
        read_nodes-Perm c cs fuel (node_of 0 b) (insert_node (node_of 0 b) nodes) refl s.1
          (omega arith) in
      (
        ns,
        ap (λ xs. read_nodes (suc fuel) memory new nodes xs) (box_responses-cons b c cs)
            ∙ read_nodes-step fuel new nodes 0 b (box_responses c cs) e s.0
            ∙ done,
        Perm.trans p (
            Perm.trans (Perm.append_left (nodes_of c cs) (insert_node-Perm (node_of 0 b) nodes))
              (perm_middle (nodes_of c cs) nodes)),
      )

  all_nodes :
      (b c : Box) (cs : List Box) (ns : List Node)
      → Perm ns (nodes_of c cs ++ (node_of 0 b ∷ []))
      → Perm ns (node_of 0 b ∷ nodes_of c cs)
  all_nodes b c cs ns p = Perm.trans p (
      subst (λ xs. Perm (nodes_of c cs ++ (node_of 0 b ∷ [])) (node_of 0 b ∷ xs))
        (append-nil (nodes_of c cs)) (perm_middle (nodes_of c cs) []))

  no_boxes : process_list_response memory (list_responses []) ≡ some []
  unfolding process_list_response list_responses parse_node memcpy_at strlen
  no_boxes = refl

  -- Whatever boxes the broker lists, with names that are not empty and counters of 64 bits, the
  -- manager reads the whole response without a failed assertion and prints exactly one line for each box, with
  -- its name and counters, in some order; for no box it prints none.
  pub process_list_response-Perm :
      (bs : List Box)
      → AllSendable bs
      → (ns : List Node) × (process_list_response memory (list_responses bs) ≡ some ns)
        × Perm ns (node_list bs)
  unfolding process_list_response list_responses
  process_list_response-Perm [] s = ([], no_boxes, Perm.nil)
  process_list_response-Perm (b ∷ []) s = (
    node_of 1 b ∷ [],
    rw (box_responses-nil b, parse_node-box_response memory 1 b [] m s.0, process_list_response)
        (read_nodes-last 0 (node_of 1 b) (node_of 1 b ∷ []) [] refl),
    Perm.refl (node_of 1 b ∷ []),
  )
  process_list_response-Perm (b ∷ c ∷ cs) s =
      let (ns, done, p) =
        read_nodes-Perm c cs (length (box_responses c cs)) (node_of 0 b) (node_of 0 b ∷ []) refl s.1
          (length-box_responses c cs s.1) in
      (
        ns,
        rw
            (
              box_responses-cons b c cs,
              parse_node-box_response memory 0 b (box_responses c cs) m s.0,
              process_list_response,
            )
            done,
        all_nodes b c cs ns p,
      )
