-- ===== src/Subscriber/Tests.antt =====
-- The theorem on the subscriber's loop, on two messages.
use mbroker_tfs.Base.{◌≡◌, refl, some, List, ℕ, [], ◌∷◌, replicate, strlen, c_str, arith}
use mbroker_tfs.Subscriber.{IsText, all_responses, subscribe, subscribe-all_responses}

text : ℕ → List ℕ
text c = c ∷ c ∷ replicate 1022 0

text-IsText : IsText (text b'a')
unfolding text strlen c_str
text-IsText = (ground arith, ground arith)

other-IsText : IsText (text b'b')
unfolding text strlen c_str
other-IsText = (ground arith, ground arith)

subscribe-all_responses_example :
    subscribe 77 (replicate 1024 5) (all_responses (text b'a' ∷ text b'b' ∷ []))
    ≡ some (c_str (text b'a') ∷ c_str (text b'b') ∷ [])
subscribe-all_responses_example =
    subscribe-all_responses 77 (replicate 1024 5) (text b'a') (text b'b' ∷ []) refl text-IsText
      (other-IsText, tt)
