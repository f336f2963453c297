-- ===== src/Wire/Layout.antt =====
-- The bytes of each message, in order.
use mbroker_tfs.Base.{
  ℕ, ◌≤◌, ◌≡◌, refl, ◌∙◌, List, [], ◌∷◌, ◌++◌, append_assoc, append-nil, take, take_long, length,
  length-take, CString, arith,
}
use mbroker_tfs.Base.{take-take, ap}
use mbroker_tfs.Wire.Code
use mbroker_tfs.Wire.{
  le_bytes, request_with_box, build_list_request, build_publish_request, sent_message,
  build_subscriber_response, build_manager_response, build_list_boxes_response,
}
use mbroker_tfs.Wire.Fill.{blank-IsFilled, requestcpy-IsFilled, length-le_bytes}

pub length-take_of : (n : ℕ) (xs : List ℕ) → n ≤ length xs → length (take n xs) ≡ n
length-take_of n xs h = omega (arith, length-take {0} n xs)

le_bytes-take : (k n : ℕ) → take k (le_bytes k n) ≡ le_bytes k n
le_bytes-take k n = take_long k (le_bytes k n) (omega (arith, length-le_bytes k n))

pub request_with_box-layout :
    (code : ℕ) (pipe_name box_name : CString)
    → 256 ≤ length pipe_name
    → 32 ≤ length box_name
    → request_with_box code pipe_name box_name ≡ code ∷ (take 256 pipe_name ++ take 32 box_name)
unfolding request_with_box
request_with_box-layout code pipe_name box_name p b =
    let f1 = requestcpy-IsFilled _ [] _ (code ∷ []) 1 288 289 (blank-IsFilled 289) refl refl refl in
    let f2 =
      requestcpy-IsFilled _ _ _ pipe_name 256 32 288 f1 refl refl
        (length-take_of 256 pipe_name p) in
    let f3 =
      requestcpy-IsFilled _ _ _ box_name 32 0 32 f2 refl refl (length-take_of 32 box_name b) in
    f3.bytes ∙ append-nil _

pub build_list_request-layout :
    (pipe_name : CString)
    → 256 ≤ length pipe_name
    → build_list_request pipe_name ≡ Code.manager_list ∷ take 256 pipe_name
unfolding build_list_request
build_list_request-layout pipe_name p =
    let f1 = requestcpy-IsFilled _ [] _ (7 ∷ []) 1 256 257 (blank-IsFilled 257) refl refl refl in
    let f2 =
      requestcpy-IsFilled _ _ _ pipe_name 256 0 256 f1 refl refl (length-take_of 256 pipe_name p) in
    f2.bytes ∙ append-nil _

pub build_publish_request-layout :
    (message : List ℕ)
    → 1024 ≤ length message
    → build_publish_request message ≡ Code.publish ∷ take 1024 message
unfolding build_publish_request
build_publish_request-layout message p =
    let f1 = requestcpy-IsFilled _ [] _ (9 ∷ []) 1 1024 1025 (blank-IsFilled 1025) refl refl refl in
    let f2 =
      requestcpy-IsFilled _ _ _ message 1024 0 1024 f1 refl refl (length-take_of 1024 message p) in
    f2.bytes ∙ append-nil _

pub sent_message-layout :
    (message : List ℕ)
    → 1024 ≤ length message
    → sent_message message ≡ Code.publish ∷ take 1023 message
unfolding sent_message
sent_message-layout message p =
    rw (build_publish_request-layout message p)
      (ap (λ xs. 9 ∷ xs) (take-take 1023 1024 message (omega arith)))

pub build_subscriber_response-layout :
    (message : List ℕ)
    → 1024 ≤ length message
    → build_subscriber_response message ≡ Code.subscriber_response ∷ take 1024 message
unfolding build_subscriber_response
build_subscriber_response-layout message p =
    let f1 =
      requestcpy-IsFilled _ [] _ (10 ∷ []) 1 1024 1025 (blank-IsFilled 1025) refl refl refl in
    let f2 =
      requestcpy-IsFilled _ _ _ message 1024 0 1024 f1 refl refl (length-take_of 1024 message p) in
    f2.bytes ∙ append-nil _

pub build_manager_response-layout :
    (code ret_code : ℕ) (error_msg : List ℕ)
    → 1024 ≤ length error_msg
    → build_manager_response code ret_code error_msg
      ≡ code ∷ (le_bytes 4 ret_code ++ take 1024 error_msg)
unfolding build_manager_response
build_manager_response-layout code ret_code error_msg p =
    let f1 =
      requestcpy-IsFilled _ [] _ (code ∷ []) 1 1028 1029 (blank-IsFilled 1029) refl refl refl in
    let f2 =
      requestcpy-IsFilled _ _ _ (le_bytes 4 ret_code) 4 1024 1028 f1 refl (le_bytes-take 4 ret_code)
        (length-le_bytes 4 ret_code) in
    let f3 =
      requestcpy-IsFilled _ _ _ error_msg 1024 0 1024 f2 refl refl
        (length-take_of 1024 error_msg p) in
    f3.bytes ∙ append-nil _

append_assoc₃ : (a b c d : List ℕ) → ((a ++ b) ++ c) ++ d ≡ a ++ (b ++ (c ++ d))
append_assoc₃ a b c d = append_assoc (a ++ b) c d ∙ append_assoc a b (c ++ d)

pub build_list_boxes_response-layout :
    (last : ℕ) (name : CString) (box_size n_publishers n_subscribers : ℕ)
    → 32 ≤ length name
    → build_list_boxes_response last name box_size n_publishers n_subscribers
      ≡ Code.manager_list_response
        ∷ last
        ∷ (take 32 name
            ++ (le_bytes 8 box_size ++ (le_bytes 8 n_publishers ++ le_bytes 8 n_subscribers)))
unfolding build_list_boxes_response
build_list_boxes_response-layout last name box_size n_publishers n_subscribers p =
    let f1 = requestcpy-IsFilled _ [] _ (8 ∷ []) 1 57 58 (blank-IsFilled 58) refl refl refl in
    let f2 = requestcpy-IsFilled _ _ _ (last ∷ []) 1 56 57 f1 refl refl refl in
    let f3 = requestcpy-IsFilled _ _ _ name 32 24 56 f2 refl refl (length-take_of 32 name p) in
    let f4 =
      requestcpy-IsFilled _ _ _ (le_bytes 8 box_size) 8 16 24 f3 refl (le_bytes-take 8 box_size)
        (length-le_bytes 8 box_size) in
    let f5 =
      requestcpy-IsFilled _ _ _ (le_bytes 8 n_publishers) 8 8 16 f4 refl
        (le_bytes-take 8 n_publishers) (length-le_bytes 8 n_publishers) in
    let f6 =
      requestcpy-IsFilled _ _ _ (le_bytes 8 n_subscribers) 8 0 8 f5 refl
        (le_bytes-take 8 n_subscribers) (length-le_bytes 8 n_subscribers) in
    f6.bytes ∙ append-nil _ ∙ append_assoc₃ (8 ∷ last ∷ take 32 name) (le_bytes 8 box_size) _ _
