-- ===== src/Base/Totals.antt =====
-- Sums of a weight over the first elements of an array.
use Prim.Native.Nat.{ℕ, zero, suc, ◌+◌, ◌≤◌, ◌<◌}
use mathlib.Core.Path.{◌≡◌, refl}
use native.Mathlib.Decide.{dec_lt}
use native.Mathlib.Omega.{arith}
use mbroker_tfs.Base.Arrays.{Array, update}

module _ {ℓ} {A : Type ℓ} (weight : A → ℕ) where
  unfoldable pub total : ℕ → Array A → ℕ
  total zero xs = 0
  total (suc n) xs = weight (xs n) + total n xs

  total-above : (n i : ℕ) (xs : Array A) (v : A) → n ≤ i → total n (update xs i v) ≡ total n xs
  unfolding total
  total-above zero i xs v h = refl
  total-above (suc n) i xs v h =
      let same : update xs i v n ≡ xs n = ground arith in
      rw (same, total-above n i xs v (omega arith)) refl

  -- A write trades the old weight for the new one.
  pub total-update :
      (n i : ℕ) (xs : Array A) (v : A)
      → i < n
      → total n (update xs i v) + weight (xs i) ≡ total n xs + weight v
  unfolding total
  total-update zero i xs v h = absurd (omega arith)
  total-update (suc n) i xs v h = elim (dec_lt i n) [
    | yes below ↦
        let same : update xs i v n ≡ xs n = ground arith in
        rw same (omega (arith, total-update n i xs v below))
    | no last ↦
        let here : i ≡ n = omega arith in
        let new : update xs i v n ≡ v = ground arith in
        rw (new, here, total-above n n xs v (omega arith)) (omega arith)
  ]

  pub weight-le-total : (n i : ℕ) (xs : Array A) → i < n → weight (xs i) ≤ total n xs
  unfolding total
  weight-le-total zero i xs h = absurd (omega arith)
  weight-le-total (suc n) i xs h = elim (dec_lt i n) [
    | yes below ↦ omega (arith, weight-le-total n i xs below)
    | no last ↦ let here : i ≡ n = omega arith in rw here (omega arith)
  ]

  pub total_none : (n : ℕ) (xs : Array A) → ((i : ℕ) → i < n → weight (xs i) ≡ 0) → total n xs ≡ 0
  unfolding total
  total_none zero xs h = refl
  total_none (suc n) xs h =
      omega (arith, h n (omega arith), total_none n xs (λ i p. h i (omega arith)))
