-- ===== src/Delivery.antt =====
-- A line of text on its whole way: from the input of a publisher (p2/publisher/pub.c) through the broker
-- and the file system (p2/mbroker/mbroker.c, p2/fs/operations.c) to what a subscriber prints
-- (p2/subscriber/sub.c).
mod Tests
use mbroker_tfs.Base.{
  ℕ, zero, suc, ◌+◌, ◌-◌, ◌≤◌, ◌<◌, ◌≡◌, ◌≢◌, refl, sym, ap, ◌∙◌, inl, inr, Bool-cases, some, List,
  [], ◌∷◌, ◌++◌, append-nil, CString, c_str, strlen, take_long, replicate, length, length-append,
  length-replicate, length-memcpy_at, memcpy_at, arith, ◌==◌,
}
use mbroker_tfs.Wire.{sent_message}
use mbroker_tfs.Wire.Fill.{drop-replicate}
use mbroker_tfs.Wire.Layout.{build_subscriber_response-layout}
use mbroker_tfs.Tfs.Invariant.{IsHandle}
use mbroker_tfs.Broker.Boxes.{Server}
use mbroker_tfs.Broker.Boxes.Create.{Answers}
use mbroker_tfs.Broker.Sessions.{publisher_round, sends, subscriber_round}
use mbroker_tfs.Broker.Sessions.{and_then}
use mbroker_tfs.Broker.Sessions.Deliver.{
  IsReady, received, Answers-map, subscriber_round-publisher_round,
}
use mbroker_tfs.Publisher.{process_messages, text_messages}
use mbroker_tfs.Publisher.Lines.{
  IsLine, all_lines, all_messages, last_message, process_messages-all_lines,
}
use mbroker_tfs.Subscriber.{subscribe, all_responses, subscribe-all_responses}

-- The publisher's buffer with a text in it
abbrev pub buffer_of : List ℕ → List ℕ
buffer_of text = memcpy_at 0 text (replicate 1024 0)

length-c_str : (s : CString) → length (c_str s) ≤ length s
unfolding c_str
length-c_str [] = ground arith
length-c_str (x ∷ xs) = ground (arith, length-c_str xs)

c_str-zeros : (n : ℕ) → c_str (replicate n 0) ≡ []
unfolding c_str
c_str-zeros zero = refl
c_str-zeros (suc n) = refl

c_str-padded : (n : ℕ) (s : CString) → c_str (s ++ replicate n 0) ≡ c_str s
unfolding c_str
c_str-padded n [] = c_str-zeros n
c_str-padded n (x ∷ xs) = ground (arith, c_str-padded n xs)

c_str-buffer_of : (text : List ℕ) → length text ≤ 1024 → c_str (buffer_of text) ≡ c_str text
unfolding memcpy_at
c_str-buffer_of text h =
    ap (λ ys. c_str (text ++ ys))
      (drop-replicate (0 + length text) (1024 - length text) 1024 (omega (arith, h)))
    ∙ c_str-padded (1024 - length text) text

strlen-buffer_of : (text : List ℕ) → length text < 1023 → strlen (buffer_of text) < 1023
unfolding strlen
strlen-buffer_of text h =
    omega (arith, ap (λ s. length s) (c_str-buffer_of text (omega (arith, h))), length-c_str text)

length-buffer_of : (text : List ℕ) → length text ≤ 1024 → length (buffer_of text) ≡ 1024
length-buffer_of text h =
    length-memcpy_at 0 text (replicate 1024 0)
      (omega (arith, h, length-replicate {0} {A = ℕ} 1024 0))
    ∙ length-replicate {0} {A = ℕ} 1024 0

strlen-short : (s t : CString) → c_str s ≡ c_str t → length t < 1024 → strlen s < 1024
unfolding strlen
strlen-short s t e h = omega (arith, h, ap (λ u. length u) e, length-c_str t)

process_messages-line :
    (line : List ℕ)
    → IsLine line
    → 0 < length line
    → length line ≤ 1023
    → process_messages (line ++ (b'\n' ∷ [])) ≡ sent_message (buffer_of line) ∷ []
unfolding all_lines all_messages last_message text_messages
process_messages-line line is_line some_text short =
    process_messages-all_lines (line ∷ []) [] (is_line, tt) tt
    ∙ rw (take_long 1023 line short) (ground (arith, some_text))

subscribe-message :
    (code : ℕ) (message text : List ℕ)
    → length message ≡ 1024
    → length text ≡ 1024
    → strlen text < 1024
    → subscribe code message (10 ∷ text) ≡ some (c_str text ∷ [])
unfolding all_responses
subscribe-message code message text size whole short =
    ap (λ xs. subscribe code message xs)
      (sym (
        append-nil _
        ∙ build_subscriber_response-layout text (omega (arith, whole))
        ∙ ap (λ xs. 10 ∷ xs) (take_long 1024 text (omega (arith, whole)))))
    ∙ subscribe-all_responses code message text [] size (omega (arith, whole), short) tt

-- A line of 1 to 1022 characters without the character 255, on a valid file system, with room in the
-- box's file and a subscriber whose handle stands where the publisher's does: the publisher writes one
-- message, and if this is alone in the pipe, the publisher's next round and then the subscriber's in the
-- broker end without a failed assertion and without undefined behaviour, and the subscriber is sent
-- bytes of which it prints exactly the line (up to a NUL in it).
pub subscribe-process_messages :
    (s : Server) (i h k code : ℕ) (line memory buffer message : List ℕ)
    → IsReady s i h
    → IsHandle s.tfs k
    → h ≢ k
    → s.tfs.open_file_table k ≡ s.tfs.open_file_table h
    → IsLine line
    → 0 < length line
    → length line < 1023
    → length memory ≡ 1024
    → length buffer ≡ 1024
    → length message ≡ 1024
    → (process_messages (line ++ (b'\n' ∷ [])) ≡ sent_message (buffer_of line) ∷ [])
      × Answers
          (λ x t.
            (bytes : List ℕ) × (x ≡ sends bytes)
            × (subscribe code message bytes ≡ some (c_str line ∷ [])))
          (and_then
            (publisher_round memory i h (sent_message (buffer_of line)) s)
            (λ r t. subscriber_round buffer i k t))
subscribe-process_messages s i h k code line memory buffer message ready open_k ne same is_line
      some_text short size size' size'' =
    (
      process_messages-line line is_line some_text (omega (arith, short)),
      Answers-map
          (λ x t (sent, whole, text).
            let same_text : c_str (received (buffer_of line) memory) ≡ c_str line =
              text ∙ c_str-buffer_of line (omega (arith, short)) in
            let ended : strlen (received (buffer_of line) memory) < 1024 = ended_by same_text in
            (
              10 ∷ received (buffer_of line) memory,
              sent,
              subscribe-message code message (received (buffer_of line) memory) size'' whole ended
                  ∙ ap (λ l. some (l ∷ [])) same_text,
            ))
          (subscriber_round-publisher_round s i h k (buffer_of line) memory buffer ready open_k ne
            same (omega (arith, length-buffer_of line (omega (arith, short))))
            (strlen-buffer_of line short) size size'),
    )
  where
    ended_by :
        c_str (received (buffer_of line) memory) ≡ c_str line
        → strlen (received (buffer_of line) memory) < 1024
    ended_by e = strlen-short (received (buffer_of line) memory) line e (omega (arith, short))
