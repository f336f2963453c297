-- ===== src/Manager.antt =====
-- The manager client (p2/manager/manager.c): reading the broker's responses.
--
-- A client's pipe is the list of the bytes that the broker writes until it closes the pipe; a read at
-- the end returns 0 and leaves the variable as it was. `none` is a failed ALWAYS_ASSERT.
pub mod Insert
pub mod Listing
pub mod Answers
mod Tests
use mbroker_tfs.Base.{
  ℕ, zero, suc, ◌<◌, Bool, true, false, not, ◌&&◌, Option, none, some, List, [], ◌∷◌, CString,
  c_str, strlen, take, drop, memcpy_at, ltb, ◌==◌, if◌then◌else◌, length,
}
use mbroker_tfs.Wire.Code
use mbroker_tfs.Wire.{max_box_name, error_msg_len, le_bytes, of_bytes}
use mbroker_tfs.Broker.Listen.{first_or}

-- `box_node_t` without `next`: a chain of nodes is a list.
pub record Node : Type 0 where
  pub box_name : List ℕ
  pub n_subscribers : ℕ
  pub n_publishers : ℕ
  pub box_size : ℕ
  pub last : ℕ

-- A `uint8_t`, and a `uint64_t`, after `read_pipe` into it
abbrev pub read_byte : ℕ → List ℕ → ℕ
read_byte old input = first_or old input

abbrev pub read_uint64 : ℕ → List ℕ → ℕ
read_uint64 old input = of_bytes (memcpy_at 0 (take 8 input) (le_bytes 8 old))

-- The value returned (`true` is 1), the node and the bytes left. `memory` is the node that `malloc`
-- gives.
unfoldable pub parse_node : Node → List ℕ → Option (Bool × Node × List ℕ)
unfolding le_bytes of_bytes
parse_node memory input =
    let code = read_byte 0 input in
    let input = drop 1 input in
    if code == Code.manager_list_response
    then (let last = read_byte memory.last input in
        let input = drop 1 input in
        let box_name = memcpy_at 0 (take max_box_name input) memory.box_name in
        let input = drop max_box_name input in
        let named = record memory { last = last; box_name = box_name } in
        if last == 1 && strlen box_name == 0
        then some (true, named, input)
        else (let box_size = read_uint64 memory.box_size input in
            let input = drop 8 input in
            let n_publishers = read_uint64 memory.n_publishers input in
            let input = drop 8 input in
            let n_subscribers = read_uint64 memory.n_subscribers input in
            some (
              false,
              record named {
                box_size = box_size;
                n_publishers = n_publishers;
                n_subscribers = n_subscribers;
              },
              drop 8 input,
            )))
    else none

-- `strcmp(s, t) < 0`
pub less : List ℕ → List ℕ → Bool
less [] [] = false
less [] (y ∷ ys) = true
less (x ∷ xs) [] = false
less (x ∷ xs) (y ∷ ys) = if x == y then less xs ys else ltb x y

unfoldable pub strcmp_lt : CString → CString → Bool
unfolding less c_str
strcmp_lt s t = less (c_str s) (c_str t)

-- The loop from `current` on, and the new node put behind the node where it ends
pub insert_after : Node → Node → List Node → List Node
unfolding strcmp_lt
insert_after new current [] = current ∷ new ∷ []
insert_after new current (next ∷ rest) =
    let onward = insert_after new next rest in
    if strcmp_lt current.box_name new.box_name
    then current ∷ onward
    else current ∷ new ∷ next ∷ rest

-- One round of the loop of `process_list_response` on the chain, which is not empty
unfoldable pub insert_node : Node → List Node → List Node
unfolding insert_after strcmp_lt
insert_node new [] = new ∷ []
insert_node new (head ∷ rest) =
    if strcmp_lt head.box_name new.box_name then insert_after new head rest else new ∷ head ∷ rest

-- The loop, on as many rounds as there are bytes: each round reads some.
unfoldable pub read_nodes : ℕ → Node → Node → List Node → List ℕ → Option (List Node)
read_nodes zero memory new nodes input = if new.last == 0 then none else some nodes
read_nodes (suc fuel) memory new nodes input = elim (parse_node memory input) [
  | none ↦ if new.last == 0 then none else some nodes
  | some (found, node, rest) ↦
      let onward = read_nodes fuel memory node (insert_node node nodes) rest in
      if new.last == 0 then onward else some nodes
]

-- The chain that is printed; it is empty when the broker has no box.
unfoldable pub process_list_response : Node → List ℕ → Option (List Node)
process_list_response memory input = elim (parse_node memory input) [
  | none ↦ none
  | some (true, head, rest) ↦ some []
  | some (false, head, rest) ↦ read_nodes (length rest) memory head (head ∷ []) rest
]

-- What `handle_create_remove` reads: the response's code, its return code and its message
pub record Reply : Type 0 where
  pub response_code : ℕ
  pub return_code : ℕ
  pub error_message : List ℕ

abbrev pub expected_code : ℕ → ℕ
expected_code code =
    if code == Code.manager_create
    then Code.manager_create_response
    else Code.manager_remove_response

-- The line printed: `OK`, `ERROR` with the message, or none
pub data Printed : Type 0 where
  printed_ok printed_nothing : Printed
  printed_error : CString → Printed

-- The rest of `handle_create_remove` once the request is sent; `memory` is what the variables hold
-- before they are read.
unfoldable pub read_reply : ℕ → Reply → List ℕ → Option Printed
read_reply code memory input =
    let response_code = first_or memory.response_code input in
    let input = drop 1 input in
    let return_code = of_bytes (memcpy_at 0 (take 4 input) (le_bytes 4 memory.return_code)) in
    let input = drop 4 input in
    let error_message = memcpy_at 0 (take error_msg_len input) memory.error_message in
    if response_code == expected_code code
    then some (
        if return_code == 0
        then printed_ok
        else if strlen error_message == 0
        then printed_nothing
        else printed_error (c_str error_message))
    else none
