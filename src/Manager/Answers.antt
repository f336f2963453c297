-- ===== src/Manager/Answers.antt =====
-- What the manager prints of the broker's response to a create or a remove request.
use mbroker_tfs.Base.{
  ℕ, ◌^◌, ◌<◌, ◌≡◌, refl, sym, ap, ◌∙◌, true, some, List, [], ◌++◌, append_assoc, append-nil, take,
  take_long, length, strlen, c_str, memcpy_at, arith, ◌==◌, if◌then◌else◌,
}
use mbroker_tfs.Wire.Code
use mbroker_tfs.Wire.{le_bytes, build_manager_response}
use mbroker_tfs.Wire.Fill.{drop-front, length-le_bytes, of_bytes-le_bytes}
use mbroker_tfs.Wire.Layout.{length-take_of, build_manager_response-layout}
use mbroker_tfs.Broker.Listen.{read_pipe-front}
use mbroker_tfs.Broker.Replies.{
  BoxResult, box_ok, box_exists, too_many_boxes, tfs_failed, box_missing, ret_code, error_text,
  error_buffer, create_response, remove_response,
}
use mbroker_tfs.Manager.{
  Reply, expected_code, Printed, printed_ok, printed_nothing, printed_error, read_reply,
}

same : (n : ℕ) → (n == n) ≡ true
same n = ground arith

length-error_buffer : (r : BoxResult) → length (error_buffer r) ≡ 1024
unfolding memcpy_at
length-error_buffer box_ok = refl
length-error_buffer box_exists = refl
length-error_buffer too_many_boxes = refl
length-error_buffer tfs_failed = refl
length-error_buffer box_missing = refl

c_str-error_buffer : (r : BoxResult) → c_str (error_buffer r) ≡ error_text r
unfolding memcpy_at c_str
c_str-error_buffer box_ok = refl
c_str-error_buffer box_exists = refl
c_str-error_buffer too_many_boxes = refl
c_str-error_buffer tfs_failed = refl
c_str-error_buffer box_missing = refl

ret_code-bound : (r : BoxResult) → ret_code r < 2 ^ 32
ret_code-bound box_ok = ground arith
ret_code-bound box_exists = ground arith
ret_code-bound too_many_boxes = ground arith
ret_code-bound tfs_failed = ground arith
ret_code-bound box_missing = ground arith

-- What should be printed of a result
abbrev pub printed : BoxResult → Printed
printed box_ok = printed_ok
printed r = printed_error (error_text r)

printed-lem :
    (r : BoxResult)
    → (if ret_code r == 0
        then printed_ok
        else if strlen (error_buffer r) == 0
        then printed_nothing
        else printed_error (c_str (error_buffer r)))
      ≡ printed r
unfolding strlen
printed-lem box_ok = refl
printed-lem box_exists = rw (c_str-error_buffer box_exists) refl
printed-lem too_many_boxes = rw (c_str-error_buffer too_many_boxes) refl
printed-lem tfs_failed = rw (c_str-error_buffer tfs_failed) refl
printed-lem box_missing = rw (c_str-error_buffer box_missing) refl

module _ (memory : Reply) (m : length memory.error_message ≡ 1024) where
  read_reply-lem :
      (code ret : ℕ) (message : List ℕ)
      → ret < 2 ^ 32
      → length message ≡ 1024
      → read_reply code memory (build_manager_response (expected_code code) ret message ++ [])
        ≡ some (
            if ret == 0
            then printed_ok
            else if strlen message == 0
            then printed_nothing
            else printed_error (c_str message))
  unfolding read_reply
  read_reply-lem code ret message small size =
      rw
        (
          build_manager_response-layout (expected_code code) ret message (omega (arith, size)),
          append_assoc (le_bytes 4 ret) (take 1024 message) [],
          read_pipe-front 4 (le_bytes 4 memory.return_code) (le_bytes 4 ret)
              (take 1024 message ++ []) (length-le_bytes 4 ret)
              (length-le_bytes 4 memory.return_code),
          drop-front 4 (le_bytes 4 ret) (take 1024 message ++ []) (length-le_bytes 4 ret),
          read_pipe-front 1024 memory.error_message (take 1024 message) []
              (length-take_of 1024 message (omega (arith, size))) m,
          of_bytes-le_bytes 4 ret small,
          take_long 1024 message (omega (arith, size)),
        )
        (rw (same (expected_code code)) refl)

  -- Whatever `box_create` or `box_remove` returns, the manager that asked reads the broker's response
  -- without a failed assertion, and prints `OK` if the box was created or removed, and else the text of
  -- the error.
  pub read_reply-responses :
      (r : BoxResult)
      → (read_reply Code.manager_create memory (create_response r) ≡ some (printed r))
        × (read_reply Code.manager_remove memory (remove_response r) ≡ some (printed r))
  unfolding create_response remove_response
  read_reply-responses r = (answer Code.manager_create, answer Code.manager_remove)
    where
      answer :
          (code : ℕ)
          → read_reply code memory
              (build_manager_response (expected_code code) (ret_code r) (error_buffer r))
            ≡ some (printed r)
      answer code =
          ap (λ xs. read_reply code memory xs) (sym (append-nil _))
          ∙ read_reply-lem code (ret_code r) (error_buffer r) (ret_code-bound r)
              (length-error_buffer r)
          ∙ ap some (printed-lem r)
