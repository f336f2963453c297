-- ===== src/Broker/Listing.antt =====
-- The responses to a list request (`handle_list_boxes` of p2/mbroker/mbroker.c).
use mbroker_tfs.Base.{ℕ, List, [], ◌∷◌, ◌++◌, replicate}
use mbroker_tfs.Wire.Code
use mbroker_tfs.Wire.{blank, requestcpy, build_list_boxes_response}
use mbroker_tfs.Broker.{Box, name}

-- The bytes sent for the copies of boxes that `box_get_all` returns; `last` is set on the last one.
abbrev pub box_response : ℕ → Box → List ℕ
box_response last b =
    build_list_boxes_response last (name b) b.box_size b.n_publishers b.n_subscribers

unfoldable pub box_responses : Box → List Box → List ℕ
box_responses b [] = box_response 1 b
box_responses b (c ∷ cs) = box_response 0 b ++ box_responses c cs

-- The response when there is no box. `sizeof(MAX_BOX_NAME * sizeof(char))` is 8, and the bytes that are
-- not copied are 0 already.
abbrev pub no_box_response : List ℕ
no_box_response =
    (requestcpy (replicate 32 0) 8
      (requestcpy (1 ∷ []) 1 (requestcpy (Code.manager_list_response ∷ []) 1 (blank 34)))).request

unfoldable pub list_responses : List Box → List ℕ
unfolding box_responses
list_responses [] = no_box_response
list_responses (b ∷ bs) = box_responses b bs
