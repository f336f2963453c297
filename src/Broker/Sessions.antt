-- ===== src/Broker/Sessions.antt =====
-- The loops of the sessions (`handle_register_publisher` and `handle_register_subscriber` of
-- p2/mbroker/mbroker.c), one round at a time, and the whole session of a publisher.
--
-- A publisher's pipe is the list of the bytes that the client writes until it closes the pipe. `i` is
-- the box's slot, `h` the handle of its file, and `memory` what `message` holds before it is read.
pub mod Deliver
pub mod Live
pub mod Whole
use mbroker_tfs.Base.{
  zero, suc, Array, CString, ℕ, ◌+◌, Option, none, some, List, [], take, drop, length, memcpy_at,
  ltb, ◌==◌, if◌then◌else◌,
}
use mbroker_tfs.Tfs.Open.{tfs_open, tfs_close, tfs_o_append}
use mbroker_tfs.Tfs.ReadWrite.{tfs_write, tfs_read}
use mbroker_tfs.Wire.{client_pipe_length, max_msg_length, build_subscriber_response}
use mbroker_tfs.Wire.Code
use mbroker_tfs.Broker.{Box, BoxStatus, normal, closed}
use mbroker_tfs.Broker.Listen.{first_or}
use mbroker_tfs.Broker.Boxes.{
  Server, Outcome, answered, panics, faults, with_tfs, put_box, box_add_pub, publisher_leaves,
  subscriber_leaves,
}

-- One call after another
abbrev pub and_then : {A B : Type 0} → Outcome A → (A → Server → Outcome B) → Outcome B
and_then (answered a s) k = k a s
and_then panics k = panics
and_then faults k = faults

-- The end of a publisher's session; the result is that there is no next round.
abbrev pub publisher_ends : ℕ → ℕ → Server → Outcome (Option (List ℕ))
publisher_ends i h s =
    with_tfs s (tfs_close (some h) s.tfs) (λ r t. answered none (publisher_leaves i t))

-- After the write: `ret < MAX_MSG_LENGTH`, or `box->box_size += ret`
abbrev pub publisher_wrote : ℕ → ℕ → List ℕ → Option ℕ → Server → Outcome (Option (List ℕ))
publisher_wrote i h rest none s = publisher_ends i h s
publisher_wrote i h rest (some n) s =
    if ltb n max_msg_length
    then publisher_ends i h s
    else answered (some rest)
        (put_box i (record (s.server_boxes i) { box_size = (s.server_boxes i).box_size + n }) s)

-- One round of the publisher's loop on the bytes that are left: the bytes left for the next round
unfoldable pub publisher_round : List ℕ → ℕ → ℕ → List ℕ → Server → Outcome (Option (List ℕ))
publisher_round memory i h input s = elim (s.server_boxes i).status [
  | closed ↦ publisher_ends i h s
  | normal ↦
      if length (take 1 input) == 0
      then publisher_ends i h s
      else if first_or 0 input == Code.publish
      then (let text = take max_msg_length (drop 1 input) in
          if length text == 0
          then publisher_ends i h s
          else with_tfs s (tfs_write (some h) (memcpy_at 0 text memory) max_msg_length s.tfs)
              (λ r t. publisher_wrote i h (drop max_msg_length (drop 1 input)) r t))
      else publisher_ends i h s
]

-- How a session ends: with -1, with 0, or the rounds ran out.
pub data SessionEnd : Type 0 where
  refused served unfinished : SessionEnd

-- The publisher's loop, for at most as many rounds as the first argument says; `memory n` is what `message`
-- holds when `n` rounds are left after this one.
unfoldable pub publisher_rounds : ℕ → Array (List ℕ) → ℕ → ℕ → List ℕ → Server → Outcome SessionEnd
publisher_rounds zero memory i h input s = answered unfinished s
publisher_rounds (suc n) memory i h input s =
    let onward = λ (rest : List ℕ) (t : Server). publisher_rounds n memory i h rest t in
    and_then (publisher_round (memory n) i h input s)
      (λ left t. elim left [ none ↦ answered served t | some rest ↦ onward rest t ])

-- `tfs_open` returned -1 or a handle. The box is given the name of the publisher's pipe.
pub publisher_opened : Array (List ℕ) → ℕ → List ℕ → List ℕ → Option ℕ → Server → Outcome SessionEnd
publisher_opened memory i pipe_name input none s = answered refused (publisher_leaves i s)
publisher_opened memory i pipe_name input (some h) s =
    let b = s.server_boxes i in
    publisher_rounds (suc (length input)) memory i h input (
      put_box i
        (record b {
          pub_pipe_name = memcpy_at 0 (take client_pipe_length pipe_name) b.pub_pipe_name;
        })
        s)

pub publisher_added : Array (List ℕ) → List ℕ → List ℕ → Option ℕ → Server → Outcome SessionEnd
unfolding publisher_opened
publisher_added memory pipe_name input none s = answered refused s
publisher_added memory pipe_name input (some i) s =
    with_tfs s (tfs_open (some (s.server_boxes i).path) tfs_o_append s.tfs)
      (λ r t. publisher_opened memory i pipe_name input r t)

-- The whole session of a publisher that no other session interrupts. `pipe` is what comes through the pipe,
-- or `none` if it cannot be opened.
unfoldable pub handle_register_publisher :
    Array (List ℕ) → List ℕ → CString → Option (List ℕ) → Server → Outcome SessionEnd
unfolding publisher_added
handle_register_publisher memory pipe_name box_name none s = answered refused s
handle_register_publisher memory pipe_name box_name (some input) s =
    and_then (box_add_pub box_name s) (publisher_added memory pipe_name input)

-- What a round of the subscriber's loop does: it waits for a signal, ends the session, or sends.
pub data SubscriberRound : Type 0 where
  waits ended : SubscriberRound
  sends : List ℕ → SubscriberRound

abbrev pub subscriber_ends : ℕ → ℕ → Server → Outcome SubscriberRound
subscriber_ends i h s =
    with_tfs s (tfs_close (some h) s.tfs) (λ r t. answered ended (subscriber_leaves i t))

-- After the read. A short read leaves the rest of `message` as it was, and all of it is sent.
abbrev pub subscriber_read : List ℕ → ℕ → ℕ → Option (List ℕ) → Server → Outcome SubscriberRound
subscriber_read memory i h none s = subscriber_ends i h s
subscriber_read memory i h (some xs) s = elim (s.server_boxes i).status [
  | closed ↦ subscriber_ends i h s
  | normal ↦
      if length xs == 0
      then answered waits s
      else answered (sends (build_subscriber_response (memcpy_at 0 xs memory))) s
]

unfoldable pub subscriber_round : List ℕ → ℕ → ℕ → Server → Outcome SubscriberRound
subscriber_round memory i h s =
    with_tfs s (tfs_read (some h) max_msg_length s.tfs) (λ r t. subscriber_read memory i h r t)
