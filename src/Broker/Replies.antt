-- ===== src/Broker/Replies.antt =====
-- The responses to requests that create or remove a box (`handle_create_box` and `handle_remove_box` of
-- p2/mbroker/mbroker.c).
use mbroker_tfs.Base.{ℕ, ◌-◌, ◌^◌, List, [], ◌∷◌, replicate, memcpy_at}
use mbroker_tfs.Wire.Code
use mbroker_tfs.Wire.{error_msg_len, build_manager_response}

-- What `box_create` and `box_remove` return
pub data BoxResult : Type 0 where
  box_ok box_exists too_many_boxes tfs_failed box_missing : BoxResult

abbrev pub ret_code : BoxResult → ℕ
ret_code box_ok = 0
ret_code box_exists = 2 ^ 32 - 1
ret_code too_many_boxes = 2 ^ 32 - 1
ret_code tfs_failed = 2 ^ 32 - 1
ret_code box_missing = 2 ^ 32 - 1

-- The characters of the text of an error
abbrev pub error_text : BoxResult → List ℕ
error_text box_ok = []
error_text box_exists =
    b'B' ∷ b'o' ∷ b'x' ∷ b' ' ∷ b'a' ∷ b'l' ∷ b'r' ∷ b'e' ∷ b'a' ∷ b'd' ∷ b'y' ∷ b' ' ∷ b'e' ∷ b'x'
    ∷ b'i' ∷ b's' ∷ b't' ∷ b's' ∷ b'!' ∷ []
error_text too_many_boxes =
    b'M' ∷ b'a' ∷ b'x' ∷ b' ' ∷ b'a' ∷ b'm' ∷ b'o' ∷ b'u' ∷ b'n' ∷ b't' ∷ b' ' ∷ b'o' ∷ b'f' ∷ b' '
    ∷ b'b' ∷ b'o' ∷ b'x' ∷ b'e' ∷ b's' ∷ b' ' ∷ b'r' ∷ b'e' ∷ b'a' ∷ b'c' ∷ b'h' ∷ b'e' ∷ b'd'
    ∷ b'!' ∷ []
error_text tfs_failed =
    b'C' ∷ b'o' ∷ b'u' ∷ b'l' ∷ b'd' ∷ b' ' ∷ b'n' ∷ b'o' ∷ b't' ∷ b' ' ∷ b'c' ∷ b'r' ∷ b'e' ∷ b'a'
    ∷ b't' ∷ b'e' ∷ b' ' ∷ b'f' ∷ b'i' ∷ b'l' ∷ b'e' ∷ b' ' ∷ b'i' ∷ b'n' ∷ b' ' ∷ b't' ∷ b'f'
    ∷ b's' ∷ b'!' ∷ []
error_text box_missing =
    b'B' ∷ b'o' ∷ b'x' ∷ b' ' ∷ b'd' ∷ b'o' ∷ b'e' ∷ b's' ∷ b' ' ∷ b'n' ∷ b'o' ∷ b't' ∷ b' ' ∷ b'e'
    ∷ b'x' ∷ b'i' ∷ b's' ∷ b't' ∷ b'!' ∷ []

-- `memset` and SET_ERROR on the message's buffer
abbrev pub error_buffer : BoxResult → List ℕ
error_buffer r = memcpy_at 0 (error_text r) (replicate error_msg_len 0)

unfoldable pub create_response : BoxResult → List ℕ
create_response r =
    build_manager_response Code.manager_create_response (ret_code r) (error_buffer r)

unfoldable pub remove_response : BoxResult → List ℕ
remove_response r =
    build_manager_response Code.manager_remove_response (ret_code r) (error_buffer r)
