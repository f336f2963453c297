-- ===== src/Subscriber.antt =====
-- The subscriber client (p2/subscriber/sub.c): the loop that prints the messages.
--
-- The client's pipe is the list of the bytes that the broker writes until it closes the pipe; a read at
-- the end returns 0 and leaves the variable as it was. `none` is a failed ALWAYS_ASSERT. The loop is not
-- interrupted by a signal.
mod Tests
use mbroker_tfs.Base.{
  ℕ, zero, suc, ◌+◌, ◌≤◌, ◌<◌, ◌≡◌, refl, sym, ap, map, ◌∙◌, false, Option, none, some, List, [],
  ◌∷◌, ◌++◌, append_assoc, append-nil, CString, c_str, c_str-cut, strlen, take, take_long, drop,
  replicate, length, length-append, length-replicate, memcpy_at, arith, ◌==◌, if◌then◌else◌,
}
use mbroker_tfs.Wire.Code
use mbroker_tfs.Wire.{max_msg_length, build_subscriber_response}
use mbroker_tfs.Wire.Fill.{take-front, drop-front}
use mbroker_tfs.Wire.Layout.{length-take_of, build_subscriber_response-layout}
use mbroker_tfs.Broker.Listen.{first_or, read_pipe-front}

abbrev pub print_first : CString → Option (List CString) → Option (List CString)
print_first line none = none
print_first line (some lines) = some (c_str line ∷ lines)

-- The loop: the lines that are printed. `code` and `message` are what the variables hold.
unfoldable pub subscribe_rounds : ℕ → ℕ → List ℕ → List ℕ → Option (List CString)
subscribe_rounds zero code message input = none
subscribe_rounds (suc fuel) code message input =
    let code = first_or code input in
    let input = drop 1 input in
    let read = take max_msg_length input in
    let onward =
      subscribe_rounds fuel code (replicate max_msg_length 0) (drop max_msg_length input) in
    if code == 0
    then some []
    else if code == Code.subscriber_response
    then if length read == 0 then some [] else print_first (memcpy_at 0 read message) onward
    else none

-- A round that goes on reads some of the bytes, so that these rounds are enough.
unfoldable pub subscribe : ℕ → List ℕ → List ℕ → Option (List CString)
subscribe code message input = subscribe_rounds (suc (length input)) code message input

-- What the broker sends of messages, and what should be printed of them
unfoldable pub all_responses : List (List ℕ) → List ℕ
all_responses [] = []
all_responses (text ∷ texts) = build_subscriber_response text ++ all_responses texts

-- A message of the broker: 1024 bytes with a NUL among them
abbrev pub IsText : List ℕ → Type 0
IsText text = (1024 ≤ length text) × (strlen text < 1024)

abbrev pub AllText : List (List ℕ) → Type 0
AllText [] = Unit
AllText (text ∷ texts) = IsText text × AllText texts

subscribe_rounds-step :
    (fuel code : ℕ) (message text rest : List ℕ)
    → length message ≡ 1024
    → IsText text
    → subscribe_rounds (suc fuel) code message (build_subscriber_response text ++ rest)
      ≡ print_first text (subscribe_rounds fuel 10 (replicate 1024 0) rest)
unfolding subscribe_rounds
subscribe_rounds-step fuel code message text rest size (long, short) =
    rw
      (
        build_subscriber_response-layout text long,
        drop-front 1024 (take 1024 text) rest (length-take_of 1024 text long),
        read_pipe-front 1024 message (take 1024 text) rest (length-take_of 1024 text long) size,
        take-front 1024 (take 1024 text) rest (length-take_of 1024 text long),
        length-take_of 1024 text long,
        subscribe_rounds,
      )
      (print_first-cut (subscribe_rounds fuel 10 (replicate 1024 0) rest))
  where
    print_first-cut :
        (o : Option (List CString)) → print_first (take 1024 text) o ≡ print_first text o
    print_first-cut none = refl
    print_first-cut (some lines) =
        ap (λ s. some (s ∷ lines))
          (ap c_str (sym (append-nil (take 1024 text))) ∙ c_str-cut 1024 text [] short long)

at_the_end : (fuel : ℕ) (message : List ℕ) → subscribe_rounds (suc fuel) 10 message [] ≡ some []
unfolding subscribe_rounds
at_the_end fuel message = refl

subscribe_rounds-all_responses :
    (fuel : ℕ) (message : List ℕ) (texts : List (List ℕ))
    → length message ≡ 1024
    → AllText texts
    → length texts < fuel
    → subscribe_rounds fuel 10 message (all_responses texts) ≡ some (map c_str texts)
unfolding all_responses
subscribe_rounds-all_responses zero message texts size all h = absurd (omega arith)
subscribe_rounds-all_responses (suc fuel) message [] size all h = at_the_end fuel message
subscribe_rounds-all_responses (suc fuel) message (text ∷ texts) size (is_text, all) h =
    subscribe_rounds-step fuel 10 message text (all_responses texts) size is_text
    ∙ ap (print_first text) (
        subscribe_rounds-all_responses fuel (replicate 1024 0) texts
          (length-replicate {0} {A = ℕ} 1024 0) all (omega arith))

length-all_responses :
    (texts : List (List ℕ)) → AllText texts → length texts ≤ length (all_responses texts)
unfolding all_responses
length-all_responses [] all = ground arith
length-all_responses (text ∷ texts) (is_text, all) = omega (
  arith,
  length-all_responses texts all,
  ap (λ xs. length xs) (build_subscriber_response-layout text is_text.0),
  length-append {0} (build_subscriber_response text) (all_responses texts),
)

-- Whatever messages the broker sends a subscriber before it closes the pipe, at least one, each of 1024
-- bytes with a NUL among them: the subscriber's loop ends without a failed assertion and prints the text
-- of each message, in order, whatever its variables held.
pub subscribe-all_responses :
    (code : ℕ) (message text : List ℕ) (texts : List (List ℕ))
    → length message ≡ 1024
    → IsText text
    → AllText texts
    → subscribe code message (all_responses (text ∷ texts)) ≡ some (map c_str (text ∷ texts))
unfolding subscribe all_responses
subscribe-all_responses code message text texts size is_text all =
    let some_bytes : length texts < length (build_subscriber_response text ++ all_responses texts) =
      omega (
        arith,
        length-all_responses texts all,
        ap (λ xs. length xs) (build_subscriber_response-layout text is_text.0),
        length-append {0} (build_subscriber_response text) (all_responses texts),
      ) in
    subscribe_rounds-step _ code message text (all_responses texts) size is_text
    ∙ ap (print_first text) (
        subscribe_rounds-all_responses _ (replicate 1024 0) texts
          (length-replicate {0} {A = ℕ} 1024 0) all some_bytes)
