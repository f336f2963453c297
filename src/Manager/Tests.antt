-- ===== src/Manager/Tests.antt =====
-- The theorems on the manager, on concrete messages.
use mathlib.Core.List.{Perm}
use mbroker_tfs.Base.{ℕ, ◌≡◌, refl, some, List, [], ◌∷◌, replicate, strlen, c_str, arith}
use mbroker_tfs.Broker.{Box, normal}
use mbroker_tfs.Broker.Listing.{list_responses}
use mbroker_tfs.Broker.Replies.{box_exists, create_response, remove_response}
use mbroker_tfs.Manager.Answers.{printed, read_reply-responses}
use mbroker_tfs.Manager.{Reply, read_reply, Node, process_list_response}
use mbroker_tfs.Manager.Listing.{node_list, IsSendable, AllSendable, process_list_response-Perm}

abbrev memory : Node
memory = record {
  box_name = replicate 32 7;
  n_subscribers = 0;
  n_publishers = 0;
  box_size = 0;
  last = 9;
}

abbrev box : ℕ → Box
box c = record {
  path = b'/' ∷ c ∷ replicate 31 0;
  n_subscribers = 2;
  n_publishers = 1;
  box_size = 2048;
  pub_pipe_name = [];
  status = normal;
}

box-IsSendable : IsSendable (box b'x')
unfolding strlen c_str
box-IsSendable = record {
  some_name = ground arith;
  name_size = ground arith;
  size = ground arith;
  publishers = ground arith;
  subscribers = ground arith;
}

two : List Box
two = box b'x' ∷ box b'x' ∷ []

two-AllSendable : AllSendable two
unfolding two
two-AllSendable = (box-IsSendable, (box-IsSendable, tt))

process_list_response-Perm_example :
    (ns : List Node) × (process_list_response memory (list_responses two) ≡ some ns)
    × Perm ns (node_list two)
process_list_response-Perm_example = process_list_response-Perm memory refl two two-AllSendable

abbrev node : ℕ → Node
node c = record { box_name = c ∷ []; n_subscribers = 0; n_publishers = 0; box_size = 0; last = 0 }

abbrev unread : Reply
unread = record { response_code = 0; return_code = 0; error_message = replicate 1024 7 }

read_reply-responses_example :
    (read_reply 3 unread (create_response box_exists) ≡ some (printed box_exists))
    × (read_reply 5 unread (remove_response box_exists) ≡ some (printed box_exists))
read_reply-responses_example = read_reply-responses unread refl box_exists
