-- ===== src/Publisher.antt =====
-- The publisher client (p2/publisher/pub.c): the loop that splits its input into messages.
--
-- The input is the list of the characters that `getchar` returns until the end of the file. Since `c` is a
-- `char`, the character 255 and EOF are the same.
pub mod Lines
mod Tests
use mbroker_tfs.Base.{
  ltb, leb, dec_lt, take_none, ℕ, zero, suc, ◌+◌, ◌-◌, ◌≤◌, ◌<◌, ◌≡◌, ◌≢◌, refl, sym, ap, ◌∙◌,
  Bool-cases, inl, inr, false, true, List, [], ◌∷◌, ◌++◌, append_assoc, take, replicate, length,
  length-append, memcpy_at, arith, ◌==◌, ◌||◌, if◌then◌else◌,
}
use mbroker_tfs.Wire.{max_msg_length, sent_message}

-- How the reading of a message ends, with the input that is left: at a `\n`, at EOF, or with the `return`
-- at an EOF in the text that is cut off
pub data LineEnd : Type 0 where
  at_newline : List ℕ → LineEnd
  at_eof returned : LineEnd

-- The loop under `Truncate text`
unfoldable pub skip_text : List ℕ → LineEnd
skip_text [] = returned
skip_text (c ∷ input) =
    if c == b'\n' then at_newline input else if c == 255 then returned else skip_text input

-- The inner loop: what it puts in the buffer from `buffer[len]` on, and how it ends
unfoldable pub read_text : ℕ → List ℕ → List ℕ × LineEnd
read_text len [] = ([], at_eof)
read_text len (c ∷ input) =
    let onward = read_text (len + 1) input in
    if c == b'\n'
    then ([], at_newline input)
    else if c == 255
    then ([], at_eof)
    else if leb (max_msg_length - 1) len
    then ([], skip_text input)
    else (c ∷ onward.0, onward.1)

-- The buffer that is sent when the text is not empty
unfoldable pub text_messages : List ℕ → List (List ℕ)
text_messages text =
    if ltb 0 (length text)
    then sent_message (memcpy_at 0 text (replicate max_msg_length 0)) ∷ []
    else []

abbrev pub is_left : LineEnd → List (List ℕ) → List (List ℕ) → List (List ℕ)
is_left (at_newline input) sent onward = sent ++ onward
is_left at_eof sent onward = sent
is_left returned sent onward = []

abbrev pub rest_of : LineEnd → List ℕ
rest_of (at_newline input) = input
rest_of at_eof = []
rest_of returned = []

-- The outer loop: what is written to the pipe, one list for each message. A round that goes on reads at
-- least one character.
unfoldable pub process_rounds : ℕ → List ℕ → List (List ℕ)
process_rounds zero input = []
process_rounds (suc fuel) input =
    let (text, end) = read_text 0 input in
    let onward = process_rounds fuel (rest_of end) in is_left end (text_messages text) onward

unfoldable pub process_messages : List ℕ → List (List ℕ)
process_messages input = process_rounds (suc (length input)) input
