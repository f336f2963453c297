-- ===== src/Links/Returns.antt =====
-- Total correctness of a run: it ends without a failed assertion, undefined behaviour, a deadlock or an
-- endless loop, and what it returns meets a postcondition.
use mbroker_tfs.Base.{◌≡◌}
use mbroker_tfs.Links.State.{Fs, Held, Run, done, Cmd, and_then}

pub data Returns {A : Type 0} (P : A → Fs → Held → Type 0) : Run A → Type 0 where
  returns : {a : A} {s : Fs} {l : Held} → P a s l → Returns P (done a s l)

module _ {A : Type 0} {P : A → Fs → Held → Type 0} where
  pub bind :
      {B : Type 0} {Q : B → Fs → Held → Type 0} {r : Run A} {k : A → Cmd B}
      → Returns P r
      → ((a : A) (t : Fs) (l : Held) → P a t l → Returns Q (k a t l))
      → Returns Q (and_then r k)
  bind (returns p) next = next _ _ _ p

  pub weaken :
      {Q : A → Fs → Held → Type 0} {r : Run A}
      → Returns P r
      → ((a : A) (t : Fs) (l : Held) → P a t l → Q a t l)
      → Returns Q r
  weaken (returns p) use_it = returns (use_it _ _ _ p)

  -- What the run that is known to end has returned
  pub result : {r : Run A} {a : A} {s : Fs} {l : Held} → Returns P r → r ≡ done a s l → P a s l
  result {r} {a} {s} {l} ended e = elim (rw e at ended) [ returns p ↦ p ]
