-- ===== src/Base/Pigeonhole.antt =====
-- Different numbers below a bound are at most as many as the bound.
use Prim.Native.Nat.{ℕ, zero, suc, ◌≤◌, ◌<◌}
use mathlib.Core.Path.{◌≡◌, refl}
use mathlib.Core.Logic.{◌≢◌}
use native.Mathlib.Omega.{arith}
use mbroker_tfs.Base.Arrays.{Array, update}
use mbroker_tfs.Base.Totals.{total, total-update, total_none}

abbrev weight : ℕ → ℕ
weight n = n

-- 1 at the first `k` numbers of a sequence
marked : Array ℕ → ℕ → Array ℕ
marked x zero = λ _. 0
marked x (suc k) = update (marked x k) (x k) 1

marked-le-one : (x : Array ℕ) (k j : ℕ) → marked x k j ≤ 1
unfolding marked
marked-le-one x zero j = omega arith
marked-le-one x (suc k) j = let before = marked-le-one x k j in ground (arith, before)

unmarked : (x : Array ℕ) (k j : ℕ) → ((a : ℕ) → a < k → x a ≢ j) → marked x k j ≡ 0
unfolding marked
unmarked x zero j away = refl
unmarked x (suc k) j away =
    let before = unmarked x k j (λ a h. away a (omega arith)) in
    let here : x k ≢ j = away k (omega arith) in ground (arith, before, here)

total-le-bound : (n : ℕ) (xs : Array ℕ) → ((j : ℕ) → xs j ≤ 1) → total weight n xs ≤ n
unfolding total
total-le-bound zero xs small = omega arith
total-le-bound (suc n) xs small =
    let below = total-le-bound n xs small in let here = small n in omega (arith, below, here)

module _ (x : Array ℕ) (n : ℕ) where
  total-marked :
      (k : ℕ)
      → ((a : ℕ) → a < k → x a < n)
      → ((a b : ℕ) → a < b → b < k → x a ≢ x b)
      → total weight n (marked x k) ≡ k
  unfolding marked
  total-marked zero within apart = total_none weight n (λ _. 0) (λ i p. refl)
  total-marked (suc k) within apart =
      let before =
        total-marked k (λ a h. within a (omega arith)) (λ a b h p. apart a b h (omega arith)) in
      let unused = unmarked x k (x k) (λ a h. apart a k h (omega arith)) in
      let more = total-update weight n (x k) (marked x k) 1 (within k (omega arith)) in
      omega (arith, before, unused, more)

  pub pigeonhole :
      (k : ℕ) → ((a : ℕ) → a < k → x a < n) → ((a b : ℕ) → a < b → b < k → x a ≢ x b) → k ≤ n
  pigeonhole k within apart =
      let all = total-marked k within apart in
      let most = total-le-bound n (marked x k) (marked-le-one x k) in omega (arith, all, most)
