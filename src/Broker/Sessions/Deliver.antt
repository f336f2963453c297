-- ===== src/Broker/Sessions/Deliver.antt =====
-- A message goes from a publisher's pipe through the box's file to a subscriber's pipe.
use mathlib.Core.Path.{subst}
use mbroker_tfs.Base.{
  c_str-cut, ◌<◌, false, [], append_assoc, drop, strlen, c_str, length-append, length-take,
  length-drop, ◌==◌,
}
use mbroker_tfs.Wire.Code
use mbroker_tfs.Base.{
  ℕ, ◌+◌, ◌≤◌, ◌≡◌, ◌≢◌, refl, sym, ap, ◌∙◌, inl, inr, Option, some, List, ◌∷◌, ◌++◌, append-nil,
  take, take_long, drop_long, length, Array, update, memcpy_at, arith,
}
use mbroker_tfs.Tfs.State.{Tfs}
use mbroker_tfs.Tfs.Invariant.{IsHandle, IsValid}
use mbroker_tfs.Tfs.ReadWrite.{tfs_write, tfs_read}
use mbroker_tfs.Tfs.ReadWrite.Write.{Wrote, NoBlock, room, WriteResult, tfs_write-WriteResult}
use mbroker_tfs.Tfs.ReadWrite.Read.{next_bytes, ReadResult, tfs_read-ReadResult}
use mbroker_tfs.Tfs.ReadWrite.RoundTrip.{next_bytes-Wrote}
use mbroker_tfs.Wire.{sent_message}
use mbroker_tfs.Wire.Fill.{take-front, drop-front}
use mbroker_tfs.Wire.Layout.{length-take_of, sent_message-layout, build_subscriber_response-layout}
use mbroker_tfs.Broker.{Box, normal}
use mbroker_tfs.Broker.Boxes.{Server, Outcome, with_tfs}
use mbroker_tfs.Broker.Boxes.Create.{Answers, answers, with_tfs-Answers}
use mbroker_tfs.Broker.Sessions.{
  and_then, publisher_wrote, publisher_round, sends, subscriber_read, subscriber_round,
}

pub and_then-Answers :
    {A B : Type 0} {P : A → Server → Type 0} {Q : B → Server → Type 0} {o : Outcome A}
    (k : A → Server → Outcome B)
    → Answers P o
    → ((a : A) (t : Server) → P a t → Answers Q (k a t))
    → Answers Q (and_then o k)
and_then-Answers k (answers p) each = each _ _ p

pub Answers-map :
    {A : Type 0} {P Q : A → Server → Type 0} {o : Outcome A}
    → ((a : A) (t : Server) → P a t → Q a t)
    → Answers P o
    → Answers Q o
Answers-map f (answers p) = answers (f _ _ p)

update_same : (boxes : Array Box) (i : ℕ) (b : Box) → update boxes i b i ≡ b
update_same boxes i b = ground arith

copy_all : (xs dst : List ℕ) → length dst ≡ length xs → memcpy_at 0 xs dst ≡ xs
unfolding memcpy_at
copy_all xs dst e =
    ap (λ ys. xs ++ ys) (drop_long (0 + length xs) dst (omega (arith, e))) ∙ append-nil xs

-- The text stands in the box's file, and the box has grown by it.
abbrev pub Published : Server → ℕ → ℕ → List ℕ → List ℕ → Option (List ℕ) → Server → Type 0
Published s i h text rest r t =
    (r ≡ some rest)
    × Wrote s.tfs h text t.tfs
    × ((t.server_boxes i).status ≡ normal)
    × ((t.server_boxes i).box_size ≡ (s.server_boxes i).box_size + 1024)

-- The session has the file open, the box is not being removed, and its file has room.
pub record IsReady (s : Server) (i h : ℕ) : Type 0 where
  pub files : IsValid s.tfs
  pub is_open : IsHandle s.tfs h
  pub status : (s.server_boxes i).status ≡ normal
  pub has_room : (s.tfs.open_file_table h).of_offset + 1024 ≤ s.tfs.fs_params.block_size
  pub some_block : ¬ NoBlock s.tfs h

-- `body` is what the second read takes, and `text` is what `message` then holds.
module _ (s : Server) (i h : ℕ) (ready : IsReady s i h) (body rest memory text : List ℕ)
    (some_body : 0 < length body) (taken_body : take 1024 (body ++ rest) ≡ body)
    (left : drop 1024 (body ++ rest) ≡ rest) (copied : memcpy_at 0 body memory ≡ text)
    (size : length text ≡ 1024) where
  all_fits : room s.tfs h 1024 ≡ 1024
  all_fits = omega (arith, ready.has_room)

  wrote-Published :
      (r : Option ℕ) (f : Tfs)
      → WriteResult s.tfs h 1024 text r f
      → Answers (Published s i h text rest) (publisher_wrote i h rest r (record s { tfs = f }))
  wrote-Published r f (inl (e, w)) =
      let whole : take (room s.tfs h 1024) text ≡ text =
        ap (λ n. take n text) all_fits ∙ take_long 1024 text (omega (arith, size)) in
      rw (e, all_fits)
        (answers (
          refl,
          subst (λ xs. Wrote s.tfs h xs f) whole w,
          ap (λ b. b.status) (update_same s.server_boxes i _) ∙ ready.status,
          ap (λ b. b.box_size) (update_same s.server_boxes i _),
        ))
  wrote-Published r f (inr (e, same, some_bytes, none_free)) = absurd (ready.some_block none_free)

  has_body : (length body == 0) ≡ false
  has_body = ground (arith, some_body)

  publisher_round-writes :
      publisher_round memory i h (9 ∷ (body ++ rest)) s
      ≡ with_tfs s (tfs_write (some h) text 1024 s.tfs) (λ r t. publisher_wrote i h rest r t)
  unfolding publisher_round
  publisher_round-writes =
      rw (ready.status, taken_body, left, has_body, copied, publisher_round) refl

  pub publisher_round-Published :
      Answers (Published s i h text rest) (publisher_round memory i h (9 ∷ (body ++ rest)) s)
  publisher_round-Published = rw publisher_round-writes (
      with_tfs-Answers s (tfs_write (some h) text 1024 s.tfs) (λ r t. publisher_wrote i h rest r t)
        (tfs_write-WriteResult s.tfs h 1024 text ready.files ready.is_open (omega (arith, size))
          (ground arith))
        wrote-Published)

module _ (s : Server) (i k : ℕ) (files : IsValid s.tfs) (is_open : IsHandle s.tfs k)
    (status : (s.server_boxes i).status ≡ normal) (memory text : List ℕ)
    (size : length memory ≡ 1024) (whole : length text ≡ 1024)
    (waiting : next_bytes s.tfs k 1024 ≡ text) where
  read-sends :
      (r : Option (List ℕ)) (f : Tfs)
      → ReadResult s.tfs k 1024 r f
      → Answers (λ x t. x ≡ sends (10 ∷ text)) (subscriber_read memory i k r (record s { tfs = f }))
  read-sends r f (e, same, valid) =
      rw (e ∙ ap some waiting, status, whole, copy_all text memory (omega (arith, size, whole)))
        (answers (
          ap sends (
            build_subscriber_response-layout text (omega (arith, whole))
            ∙ ap (λ xs. 10 ∷ xs) (take_long 1024 text (omega (arith, whole))))))

  -- A subscriber is sent what is in the file behind its handle.
  pub subscriber_round-sends :
      Answers (λ x t. x ≡ sends (10 ∷ text)) (subscriber_round memory i k s)
  unfolding subscriber_round
  subscriber_round-sends =
      with_tfs-Answers s (tfs_read (some k) 1024 s.tfs) (λ r t. subscriber_read memory i k r t)
        (tfs_read-ReadResult s.tfs k 1024 files is_open) read-sends

-- What the broker holds of a message that is alone in the pipe: the last byte of its buffer is old.
abbrev pub received : List ℕ → List ℕ → List ℕ
received message memory = take 1023 message ++ drop 1023 memory

length-received :
    (message memory : List ℕ)
    → 1024 ≤ length message
    → length memory ≡ 1024
    → length (received message memory) ≡ 1024
length-received message memory long size = omega (
  arith,
  long,
  size,
  length-append {0} (take 1023 message) (drop 1023 memory),
  length-take {0} 1023 message,
  length-drop {0} 1023 memory,
)

module _ (s : Server) (i h : ℕ) (ready : IsReady s i h) (message memory : List ℕ)
    (long : 1024 ≤ length message) (size : length memory ≡ 1024) where
  length-body : length (take 1023 message) ≡ 1023
  length-body = length-take_of 1023 message (omega (arith, long))

  copied-received : memcpy_at 0 (take 1023 message) memory ≡ received message memory
  unfolding memcpy_at
  copied-received = rw length-body refl

  publisher_round-sent_message :
      Answers
        (Published s i h (received message memory) [])
        (publisher_round memory i h (sent_message message) s)
  publisher_round-sent_message =
      rw
        (sent_message-layout message long
          ∙ ap (λ xs. 9 ∷ xs) (sym (append-nil (take 1023 message))))
        (publisher_round-Published s i h ready (take 1023 message) [] memory
          (received message memory) (omega (arith, length-body))
          (rw append-nil (take_long 1024 (take 1023 message) (omega (arith, length-body))))
          (rw append-nil (drop_long 1024 (take 1023 message) (omega (arith, length-body))))
          copied-received (length-received message memory long size))

-- A message that a publisher sends while the pipe is empty, its text ended by a NUL among the first 1023
-- of its 1024 bytes, on a valid file system, with room in the box's file and a subscriber whose handle
-- stands where the publisher's does: the publisher's next round and then the subscriber's end without a
-- failed assertion and without undefined behaviour, and the subscriber is sent the subscriber's code and
-- 1024 bytes that hold the same text.
pub subscriber_round-publisher_round :
    (s : Server) (i h k : ℕ) (message memory buffer : List ℕ)
    → IsReady s i h
    → IsHandle s.tfs k
    → h ≢ k
    → s.tfs.open_file_table k ≡ s.tfs.open_file_table h
    → 1024 ≤ length message
    → strlen message < 1023
    → length memory ≡ 1024
    → length buffer ≡ 1024
    → Answers
        (λ x t.
          (x ≡ sends (10 ∷ received message memory))
          × (length (received message memory) ≡ 1024)
          × (c_str (received message memory) ≡ c_str message))
        (and_then
          (publisher_round memory i h (sent_message message) s)
          (λ r t. subscriber_round buffer i k t))
subscriber_round-publisher_round s i h k message memory buffer ready open_k ne same long short size
      size' =
    and_then-Answers (λ r t. subscriber_round buffer i k t)
      (publisher_round-sent_message s i h ready message memory long size) after
  where
    after :
        (r : Option (List ℕ)) (t : Server)
        → Published s i h (received message memory) [] r t
        → Answers
            (λ x u.
              (x ≡ sends (10 ∷ received message memory))
              × (length (received message memory) ≡ 1024)
              × (c_str (received message memory) ≡ c_str message))
            (subscriber_round buffer i k t)
    after r t (e, w, status, grown) =
        Answers-map
          (λ x u sent. (
            sent,
            length-received message memory long size,
            c_str-cut 1023 message (drop 1023 memory) short (omega (arith, long)),
          ))
          (subscriber_round-sends t i k w.valid (rw (w.params, w.is_open) open_k) status buffer
            (received message memory) size' (length-received message memory long size)
            (ap (λ n. next_bytes t.tfs k n) (sym (length-received message memory long size))
              ∙ next_bytes-Wrote s.tfs ready.files h k ready.is_open ne same
                  (received message memory) w))

-- Two messages of one publisher that are in the pipe at once, on a valid file system with room in the
-- box's file: the round stores the first message with the code of the second as its last byte, and
-- leaves the second without its code.
pub publisher_round-queued :
    (s : Server) (i h : ℕ) (message next memory : List ℕ)
    → IsReady s i h
    → 1024 ≤ length message
    → 1024 ≤ length next
    → length memory ≡ 1024
    → Answers
        (Published s i h (take 1023 message ++ (Code.publish ∷ [])) (take 1023 next))
        (publisher_round memory i h (sent_message message ++ sent_message next) s)
publisher_round-queued s i h message next memory ready long long' size =
    rw
      (
        sent_message-layout message long,
        sent_message-layout next long',
        sym (append_assoc (take 1023 message) (9 ∷ []) (take 1023 next)),
      )
      (publisher_round-Published s i h ready first (take 1023 next) memory first
        (omega (arith, length-first)) (take-front 1024 first (take 1023 next) length-first)
        (drop-front 1024 first (take 1023 next) length-first)
        (copy_all first memory (omega (arith, size, length-first))) length-first)
  where
    first : List ℕ
    first = take 1023 message ++ (9 ∷ [])

    length-first : length (take 1023 message ++ (9 ∷ [])) ≡ 1024
    length-first = omega (
      arith,
      length-take_of 1023 message (omega (arith, long)),
      length-append {0} (take 1023 message) (9 ∷ []),
    )
