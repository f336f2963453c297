-- ===== src/Broker/Tests.antt =====
-- The theorems on the broker, on concrete states and messages.
use mbroker_tfs.Base.{length, ℕ, ◌≡◌, refl, [], ◌∷◌, ◌++◌, replicate, CString, c_str, strlen, arith}
use mbroker_tfs.Broker.Demo.{name_a, any_box, new_box, running, talking, talking-IsReady}
use mbroker_tfs.Tfs.State.{free, taken}
use mbroker_tfs.Tfs.Demo.{quiet}
use mbroker_tfs.Wire.{request_with_box, build_list_request}
use mbroker_tfs.Broker.{Session}
use mbroker_tfs.Broker.Listen.{
  IsSession, IsRead, read_request, read_request-IsRead, read_request-build_list_request,
}
use mbroker_tfs.Broker.Boxes.{
  Server, answered, data_init, box_alloc, box_add_pub, box_get_all, taken_boxes,
}
use mbroker_tfs.Broker.Boxes.Table.{named_box-IsPath, take-IsTable, init-IsTable}
use mbroker_tfs.Broker.Boxes.Steps.{IsServer, initial, Reachable-IsServer}
use mbroker_tfs.Broker.Boxes.Sessions.{AddPubResult, box_add_pub-AddPubResult, box_get_all-answered}
use mbroker_tfs.Broker.Sessions.{and_then, publisher_round, subscriber_round, sends}
use mbroker_tfs.Broker.Sessions.Deliver.{
  Published, received, subscriber_round-publisher_round, publisher_round-queued,
}
use mbroker_tfs.Wire.{sent_message}
use mbroker_tfs.Wire.Code
use mbroker_tfs.Base.{take, List, ◌≤◌, ◌<◌}
use mbroker_tfs.Broker.Boxes.Create.{Answers}

abbrev memory : Session
memory = record { code = 77; box_name = replicate 32 1; pipe_name = replicate 256 1 }

memory-IsSession : IsSession memory
memory-IsSession = record { box_size = refl; pipe_size = refl }

abbrev pipe : CString
pipe = b'p' ∷ replicate 255 0

read_request-IsRead_example :
    IsRead memory
      (9 ∷ [])
      3
      pipe
      name_a
      (read_request memory (request_with_box 3 pipe name_a ++ (9 ∷ [])))
unfolding strlen c_str
read_request-IsRead_example =
    read_request-IsRead memory 3 pipe name_a (9 ∷ []) memory-IsSession refl (ground arith)
      (ground arith) (ground arith) (ground arith)

read_request-build_list_request_example :
    IsRead memory [] 7 pipe memory.box_name (read_request memory (build_list_request pipe ++ []))
unfolding strlen c_str
read_request-build_list_request_example =
    read_request-build_list_request memory pipe [] memory-IsSession (ground arith) (ground arith)

abbrev before : Server
before = record { tfs = quiet; server_boxes = any_box; free_box_table = λ i. taken; box_amount = 9 }

abbrev started : Server
started = data_init any_box before

Reachable-IsServer_example : IsServer (data_init any_box before)
Reachable-IsServer_example = Reachable-IsServer (initial any_box before)

running-IsServer : IsServer running
running-IsServer =
    take-IsTable (λ i. box_alloc (any_box i)) (λ _. free) 0 (init-IsTable any_box) 0 new_box
      (named_box-IsPath (box_alloc (any_box 0)) name_a ((init-IsTable any_box).path 0) refl)
      (ground arith) (ground arith) refl (λ j x e. ground arith)

box_add_pub-AddPubResult_example : AddPubResult running name_a (box_add_pub name_a running)
box_add_pub-AddPubResult_example = box_add_pub-AddPubResult running name_a running-IsServer

box_get_all-answered_example : box_get_all running ≡ answered (taken_boxes 32 0 running) running
box_get_all-answered_example = box_get_all-answered running running-IsServer

message : List ℕ
message = b'h' ∷ b'i' ∷ replicate 1022 0

long_message : 1024 ≤ length message
unfolding message
long_message = ground arith

short_message : strlen message < 1023
unfolding message strlen c_str
short_message = ground arith

subscriber_round-publisher_round_example :
    Answers
      (λ x t.
        (x ≡ sends (10 ∷ received message (replicate 1024 1)))
        × (length (received message (replicate 1024 1)) ≡ 1024)
        × (c_str (received message (replicate 1024 1)) ≡ c_str message))
      (and_then
        (publisher_round (replicate 1024 1) 0 0 (sent_message message) talking)
        (λ r t. subscriber_round (replicate 1024 2) 0 1 t))
subscriber_round-publisher_round_example =
    subscriber_round-publisher_round talking 0 0 1 message (replicate 1024 1) (replicate 1024 2)
      talking-IsReady (ground arith) (ground arith) refl long_message short_message refl refl

publisher_round-queued_example :
    Answers (Published talking 0 0 (take 1023 message ++ (Code.publish ∷ [])) (take 1023 message)) (
      publisher_round (replicate 1024 1) 0 0 (sent_message message ++ sent_message message) talking)
publisher_round-queued_example =
    publisher_round-queued talking 0 0 message message (replicate 1024 1) talking-IsReady
      long_message long_message refl
