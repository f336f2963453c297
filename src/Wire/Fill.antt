-- ===== src/Wire/Fill.antt =====
-- What a chain of `requestcpy` builds, and integers in bytes.
use native.Mathlib.Nat.{pow-suc}
use mbroker_tfs.Base.{
  ℕ, zero, suc, ◌+◌, ◌/◌, ◌^◌, ◌<◌, ◌≡◌, refl, sym, ap, ◌∙◌, List, [], ◌++◌, append_assoc,
  append-nil, take, drop, replicate, length, length-append, take-append, drop-append, memcpy_at,
  arith,
}
use mbroker_tfs.Wire.{Request, blank, requestcpy, le_bytes, of_bytes}

-- The request holds `xs`, and then `k` zeros.
pub record IsFilled (r : Request) (xs : List ℕ) (k : ℕ) : Type 0 where
  pub bytes : r.request ≡ xs ++ replicate k 0
  pub offset : r.request_offset ≡ length xs

pub blank-IsFilled : (n : ℕ) → IsFilled (blank n) [] n
blank-IsFilled n = record { bytes = refl; offset = refl }

pub drop-replicate :
    (n k j : ℕ) → j ≡ n + k → drop n (replicate {A = ℕ} j 0) ≡ replicate {A = ℕ} k 0
drop-replicate zero k j e = ap (λ m. replicate m 0) (omega (arith, e))
drop-replicate (suc n) k zero e = absurd (omega arith)
drop-replicate (suc n) k (suc j) e = drop-replicate n k j (omega arith)

pub requestcpy-IsFilled :
    (r : Request) (xs ys source : List ℕ) (n k j : ℕ)
    → IsFilled r xs j
    → j ≡ n + k
    → take n source ≡ ys
    → length ys ≡ n
    → IsFilled (requestcpy source n r) (xs ++ ys) k
unfolding memcpy_at
requestcpy-IsFilled r xs ys source n k j f e cut size = record {
  bytes =
      rw
        (
          f.bytes,
          f.offset,
          cut,
          take-append (length xs) 0 xs (replicate j 0) (omega arith),
          drop-append (length xs + length ys) (length ys) xs (replicate j 0) refl,
          drop-replicate (length ys) k j (omega (arith, e, size)),
          append-nil xs,
        )
        (sym (append_assoc xs ys (replicate k 0)));
  offset = omega (arith, f.offset, size, length-append xs ys);
}

module _ {ℓ} {A : Type ℓ} where
  -- Taking off what stands in front
  pub take-front : (n : ℕ) (xs ys : List A) → length xs ≡ n → take n (xs ++ ys) ≡ xs
  take-front n xs ys e = take-append n 0 xs ys (omega (arith, e)) ∙ append-nil xs

  pub drop-front : (n : ℕ) (xs ys : List A) → length xs ≡ n → drop n (xs ++ ys) ≡ ys
  drop-front n xs ys e = drop-append n 0 xs ys (omega (arith, e))

pub length-le_bytes : (k n : ℕ) → length (le_bytes k n) ≡ k
unfolding le_bytes
length-le_bytes zero n = refl
length-le_bytes (suc k) n = ap suc (length-le_bytes k (n / 256))

pub of_bytes-le_bytes : (k n : ℕ) → n < 256 ^ k → of_bytes (le_bytes k n) ≡ n
unfolding le_bytes of_bytes
of_bytes-le_bytes zero n h = omega arith
of_bytes-le_bytes (suc k) n h =
    omega (arith, of_bytes-le_bytes k (n / 256) (omega (arith, pow-suc 256 k)))
