-- ===== src/Delivery/Tests.antt =====
-- The theorem on the whole way of a line, on a concrete one.
use mbroker_tfs.Base.{ℕ, ◌≡◌, refl, some, List, [], ◌∷◌, ◌++◌, CString, c_str, replicate, arith}
use mbroker_tfs.Wire.{sent_message}
use mbroker_tfs.Broker.Boxes.Create.{Answers}
use mbroker_tfs.Broker.Demo.{talking, talking-IsReady}
use mbroker_tfs.Broker.Sessions.{publisher_round, sends, subscriber_round}
use mbroker_tfs.Broker.Sessions.{and_then}
use mbroker_tfs.Broker.Sessions.Deliver.{}
use mbroker_tfs.Publisher.{process_messages}
use mbroker_tfs.Subscriber.{subscribe}
use mbroker_tfs.Delivery.{buffer_of, subscribe-process_messages}

abbrev line : CString
line = b'h' ∷ b'i' ∷ []

subscribe-process_messages_example :
    (process_messages (line ++ (b'\n' ∷ [])) ≡ sent_message (buffer_of line) ∷ [])
    × Answers
        (λ x t.
          (bytes : List ℕ) × (x ≡ sends bytes)
          × (subscribe 0 (replicate 1024 7) bytes ≡ some (c_str line ∷ [])))
        (and_then
          (publisher_round (replicate 1024 1) 0 0 (sent_message (buffer_of line)) talking)
          (λ r t. subscriber_round (replicate 1024 2) 0 1 t))
subscribe-process_messages_example =
    subscribe-process_messages talking 0 0 1 0 line (replicate 1024 1) (replicate 1024 2)
      (replicate 1024 7) talking-IsReady (ground arith) (ground arith) refl
      (ground arith, ground arith, (ground arith, ground arith, tt)) (ground arith) (ground arith)
      refl refl refl
