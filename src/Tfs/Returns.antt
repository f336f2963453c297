-- ===== src/Tfs/Returns.antt =====
-- Total correctness of a run: it ends without a failed assertion and without undefined behaviour,
-- and what it returns meets a postcondition.
use mbroker_tfs.Base.{◌≡◌, refl}
use mbroker_tfs.Tfs.State.{Tfs, Run, done, Cmd, and_then}

pub data Returns {A : Type 0} (P : A → Tfs → Type 0) : Run A → Type 0 where
  returns : {a : A} {s : Tfs} → P a s → Returns P (done a s)

module _ {A : Type 0} {P : A → Tfs → Type 0} where
  pub bind :
      {B : Type 0} {Q : B → Tfs → Type 0} {r : Run A} {k : A → Cmd B}
      → Returns P r
      → ((a : A) (t : Tfs) → P a t → Returns Q (k a t))
      → Returns Q (and_then r k)
  bind (returns p) next = next _ _ p

  pub weaken :
      {Q : A → Tfs → Type 0} {r : Run A}
      → Returns P r
      → ((a : A) (t : Tfs) → P a t → Q a t)
      → Returns Q r
  weaken (returns p) use_it = returns (use_it _ _ p)

  -- A run that returns has a result and a state.
  pub outcome : {r : Run A} → Returns P r → (a : A) × (s : Tfs) × (r ≡ done a s) × P a s
  outcome (returns p) = (_, _, refl, p)
