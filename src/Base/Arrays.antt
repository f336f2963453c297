-- ===== src/Base/Arrays.antt =====
-- C arrays as functions from an index, and the loop `for (i = 0; i < n; i++) if (p(i)) return i;`.
use Prim.Native.Nat.{ℕ, zero, suc, ◌+◌, ◌≤◌, ◌<◌}
use mathlib.Core.Path.{◌≡◌, ap}
use mathlib.Core.Bool.{Bool, true, false}
use mathlib.Core.Logic.{inl, inr}
use mathlib.Core.Option.{Option, none, some}
use native.Mathlib.Decide.{dec_le}
use native.Mathlib.Omega.{arith}
use mbroker_tfs.Base.Tests.{◌==◌, if◌then◌else◌, Bool-cases, Option-cases}

abbrev pub Array {ℓ} : Type ℓ → Type ℓ
Array A = ℕ → A

-- `xs[i] = v`
abbrev pub update {ℓ} : {A : Type ℓ} → Array A → ℕ → A → Array A
update xs i v j = if i == j then v else xs j

-- `n` rounds from index `i`
pub first_from : (ℕ → Bool) → ℕ → ℕ → Option ℕ
first_from p zero i = none
first_from p (suc n) i = let rest = first_from p n (suc i) in if p i then some i else rest

-- The first index below `n` that passes the test.
unfoldable pub first : (ℕ → Bool) → ℕ → Option ℕ
unfolding first_from
first p n = first_from p n 0

first_from-some :
    (p : ℕ → Bool) (n i k : ℕ)
    → first_from p n i ≡ some k
    → (p k ≡ true) × (k < i + n) × (i ≤ k) × ((j : ℕ) → i ≤ j → j < k → p j ≡ false)
unfolding first_from
first_from-some p zero i k e = cc
first_from-some p (suc n) i k e = elim (Bool-cases (p i)) [
  | inl hit ↦ ground (arith, e, hit)
  | inr miss ↦
      let (a, b, c, d) = first_from-some p n (suc i) k (rw miss at e) in
      (
        a,
        omega arith,
        omega arith,
        λ j l h. elim (dec_le (suc i) j) [
          | yes q ↦ d j q h
          | no q ↦ let same : i ≡ j = omega arith in rw same at miss
        ],
      )
]

first_from-none :
    (p : ℕ → Bool) (n i : ℕ) → first_from p n i ≡ none → (j : ℕ) → i ≤ j → j < i + n → p j ≡ false
unfolding first_from
first_from-none p zero i e j l h = absurd (omega arith)
first_from-none p (suc n) i e j l h = elim (Bool-cases (p i)) [
  | inl hit ↦ absurd (ground (arith, e, hit))
  | inr miss ↦ elim (dec_le (suc i) j) [
    | yes q ↦ first_from-none p n (suc i) (rw miss at e) j q (omega arith)
    | no q ↦ let same : i ≡ j = omega arith in rw same at miss
  ]
]

-- The index that is found passes the test, lies in range, and is the first that does.
pub first-some :
    (p : ℕ → Bool) (n k : ℕ)
    → first p n ≡ some k
    → (p k ≡ true) × (k < n) × ((j : ℕ) → j < k → p j ≡ false)
unfolding first
first-some p n k e =
    let (a, b, c, d) = first_from-some p n 0 k e in (a, omega arith, λ j h. d j (omega arith) h)

pub first-none : (p : ℕ → Bool) (n : ℕ) → first p n ≡ none → (j : ℕ) → j < n → p j ≡ false
unfolding first
first-none p n e j h = first_from-none p n 0 e j (omega arith) (omega arith)

-- The index that a unique index passing the test gives.
pub first_unique :
    (p : ℕ → Bool) (n k : ℕ)
    → k < n
    → p k ≡ true
    → ((j : ℕ) → j < n → p j ≡ true → j ≡ k)
    → first p n ≡ some k
first_unique p n k h hit only = elim (Option-cases (first p n)) [
  | inl e ↦ absurd (ground (arith, first-none p n e k h))
  | inr (m, e) ↦ let (a, b, c) = first-some p n m e in rw e (ap some (only m b a))
]

-- Testing alike below `n` finds alike.
pub first-absent : (p : ℕ → Bool) (n : ℕ) → ((j : ℕ) → j < n → p j ≡ false) → first p n ≡ none
first-absent p n miss = elim (Option-cases (first p n)) [
  | inl e ↦ e
  | inr (m, e) ↦ let (a, b, c) = first-some p n m e in absurd (ground (arith, miss m b))
]

pub first-zero : (p : ℕ → Bool) (n : ℕ) → 0 < n → p 0 ≡ true → first p n ≡ some 0
unfolding first first_from
first-zero p zero h hit = absurd (omega arith)
first-zero p (suc n) h hit = rw hit
