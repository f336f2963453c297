-- ===== src/Wire.antt =====
-- The messages between the broker and its clients: constants and builders (p2/utils/pipeutils.h,
-- p2/utils/pipeutils.c, p2/mbroker/mbroker.c, p2/manager/manager.c, p2/publisher/pub.c,
-- p2/subscriber/sub.c).
--
-- A message is the list of its bytes. Integers are stored with the lowest byte first. A pointer is the
-- list of the bytes from it on.
pub mod Code
pub mod Fill
pub mod Layout
use mbroker_tfs.Wire.Code
use mbroker_tfs.Base.{
  ℕ, zero, suc, ◌+◌, ◌*◌, ◌/◌, ◌%◌, List, [], ◌∷◌, CString, take, replicate, memcpy_at,
}

abbrev pub max_msg_length : ℕ
max_msg_length = 1024

-- MAX_BOX_NAME and BOX_NAME_LENGTH
abbrev pub max_box_name : ℕ
max_box_name = 32

abbrev pub client_pipe_length : ℕ
client_pipe_length = 256

abbrev pub error_msg_len : ℕ
error_msg_len = 1024

-- The bytes of a number in `k` bytes, and back
unfoldable pub le_bytes : ℕ → ℕ → List ℕ
le_bytes zero n = []
le_bytes (suc k) n = (n % 256) ∷ le_bytes k (n / 256)

unfoldable pub of_bytes : List ℕ → ℕ
of_bytes [] = 0
of_bytes (x ∷ xs) = x + 256 * of_bytes xs

pub record Request : Type 0 where
  pub request : List ℕ
  pub request_offset : ℕ

-- `request = myalloc(n); memset(request, 0, n); request_offset = 0`
abbrev pub blank : ℕ → Request
blank n = record { request = replicate n 0; request_offset = 0 }

abbrev pub requestcpy : List ℕ → ℕ → Request → Request
requestcpy bytes size r = record {
  request = memcpy_at r.request_offset (take size bytes) r.request;
  request_offset = r.request_offset + size;
}

-- `creation_request` of the publisher and of the subscriber, which differ in the code, and
-- `build_manager_request`, are this.
unfoldable pub request_with_box : ℕ → CString → CString → List ℕ
request_with_box code pipe_name box_name =
    (requestcpy box_name max_box_name
      (requestcpy pipe_name client_pipe_length (requestcpy (code ∷ []) 1 (blank 289)))).request

unfoldable pub publisher_request : CString → CString → List ℕ
unfolding request_with_box
publisher_request pipe_name box_name = request_with_box Code.pub_creation pipe_name box_name

unfoldable pub subscriber_request : CString → CString → List ℕ
unfolding request_with_box
subscriber_request pipe_name box_name = request_with_box Code.sub_creation pipe_name box_name

unfoldable pub build_manager_request : ℕ → CString → CString → List ℕ
unfolding request_with_box
build_manager_request code pipe_name box_name = request_with_box code pipe_name box_name

unfoldable pub build_list_request : CString → List ℕ
build_list_request pipe_name =
    (requestcpy pipe_name client_pipe_length
      (requestcpy (Code.manager_list ∷ []) 1 (blank 257))).request

unfoldable pub build_publish_request : List ℕ → List ℕ
build_publish_request message =
    (requestcpy message max_msg_length (requestcpy (Code.publish ∷ []) 1 (blank 1025))).request

-- What `process_messages` writes of that request: its first MAX_MSG_LENGTH bytes
unfoldable pub sent_message : List ℕ → List ℕ
sent_message message = take max_msg_length (build_publish_request message)

unfoldable pub build_subscriber_response : List ℕ → List ℕ
build_subscriber_response message =
    (requestcpy message max_msg_length
      (requestcpy (Code.subscriber_response ∷ []) 1 (blank 1025))).request

-- `ret_code` is the `int32_t` as a number below 2^32.
unfoldable pub build_manager_response : ℕ → ℕ → List ℕ → List ℕ
unfolding le_bytes
build_manager_response code ret_code error_msg =
    (requestcpy error_msg error_msg_len
      (requestcpy (le_bytes 4 ret_code) 4 (requestcpy (code ∷ []) 1 (blank 1029)))).request

unfoldable pub build_list_boxes_response : ℕ → CString → ℕ → ℕ → ℕ → List ℕ
unfolding le_bytes
build_list_boxes_response last name box_size n_publishers n_subscribers =
    (requestcpy (le_bytes 8 n_subscribers) 8 (
      requestcpy (le_bytes 8 n_publishers) 8 (
        requestcpy (le_bytes 8 box_size) 8 (
          requestcpy name max_box_name (
            requestcpy (last ∷ []) 1
              (requestcpy (Code.manager_list_response ∷ []) 1 (blank 58))))))).request
