-- ===== src/Base/Bytes.antt =====
-- Bytes of memory and the functions of <string.h> that the program calls. A `char *` is the list of
-- the bytes that it points at; reading past the list's end reads the terminating NUL.
use Prim.Native.Nat.{ℕ, zero, suc, ◌+◌, ◌-◌, ◌≤◌, ◌<◌}
use mathlib.Core.Path.{◌≡◌, refl, ap}
use mathlib.Core.Bool.{Bool, true, false, ◌&&◌}
use mathlib.Core.Logic.{◌↔◌, inl, inr}
use mathlib.Core.List.{List, [], ◌∷◌, ◌++◌, append_assoc, append-nil}
use native.Mathlib.Decide.{dec_lt}
use native.Mathlib.Omega.{arith}
use mbroker_tfs.Base.Tests.{Bool-cases, ltb, ◌==◌, if◌then◌else◌, lt→ltb, le→ltb}
use mbroker_tfs.Base.Lists.{
  length, take, drop, replicate, length-append, take-append-drop, length-take, length-drop,
  length-replicate,
}

abbrev pub CString : Type 0
CString = List ℕ

-- The characters in front of the first NUL.
unfoldable pub c_str : CString → CString
c_str [] = []
c_str (x ∷ xs) = if x == 0 then [] else x ∷ c_str xs

unfoldable pub strlen : CString → ℕ
unfolding c_str
strlen s = length (c_str s)

unfoldable pub bytes_eq : List ℕ → List ℕ → Bool
bytes_eq [] [] = true
bytes_eq [] (y ∷ ys) = false
bytes_eq (x ∷ xs) [] = false
bytes_eq (x ∷ xs) (y ∷ ys) = (x == y) && bytes_eq xs ys

-- `strcmp(s, t) == 0`
unfoldable pub strcmp_eq : CString → CString → Bool
unfolding c_str bytes_eq
strcmp_eq s t = bytes_eq (c_str s) (c_str t)

-- `strncmp(s, t, n) == 0`
unfoldable pub strncmp_eq : CString → CString → ℕ → Bool
unfolding c_str bytes_eq
strncmp_eq s t n = bytes_eq (take n (c_str s)) (take n (c_str t))

-- `memcpy(dst + offset, src, length of src)`
unfoldable pub memcpy_at : ℕ → List ℕ → List ℕ → List ℕ
memcpy_at offset src dst = take offset dst ++ (src ++ drop (offset + length src) dst)

-- `strncpy(dst, src, n)` writes `n` bytes: the string, cut or filled up with NULs.
unfoldable pub strncpy : List ℕ → CString → ℕ → List ℕ
strncpy dst src n = memcpy_at 0 (take n (c_str src ++ replicate n 0)) dst

pub bytes_eq_iff : (xs ys : List ℕ) → (bytes_eq xs ys ≡ true) ↔ (xs ≡ ys)
unfolding bytes_eq
bytes_eq_iff [] [] = (λ _. refl, λ _. refl)
bytes_eq_iff [] (y ∷ ys) = (λ e. cc, λ e. cc)
bytes_eq_iff (x ∷ xs) [] = (λ e. cc, λ e. cc)
bytes_eq_iff (x ∷ xs) (y ∷ ys) =
    let (f, g) = bytes_eq_iff xs ys in (λ e. ground (arith, f), λ e. ground (arith, g))

pub strcmp_iff : (s t : CString) → (strcmp_eq s t ≡ true) ↔ (c_str s ≡ c_str t)
unfolding strcmp_eq
strcmp_iff s t = bytes_eq_iff (c_str s) (c_str t)

pub strncmp_iff :
    (s t : CString) (n : ℕ) → (strncmp_eq s t n ≡ true) ↔ (take n (c_str s) ≡ take n (c_str t))
unfolding strncmp_eq
strncmp_iff s t n = bytes_eq_iff (take n (c_str s)) (take n (c_str t))

pub c_str-append : (xs ys : List ℕ) → c_str (c_str xs ++ ys) ≡ c_str xs ++ c_str ys
unfolding c_str
c_str-append [] ys = refl
c_str-append (x ∷ xs) ys = ground (arith, c_str-append xs ys)

-- A cut behind the end of the string leaves the string.
pub c_str-cut :
    (m : ℕ) (s r : List ℕ) → strlen s < m → m ≤ length s → c_str (take m s ++ r) ≡ c_str s
unfolding c_str strlen
c_str-cut zero s r h l = absurd (omega arith)
c_str-cut (suc m) [] r h l = absurd (omega arith)
c_str-cut (suc m) (x ∷ xs) r h l = elim (Bool-cases (x == 0)) [
  | inl e ↦ rw e refl
  | inr e ↦
      let h' : strlen xs < m = ground (arith, h, e) in
      rw e (ap (λ ys. x ∷ ys) (c_str-cut m xs r h' (omega arith)))
]

c_str-zeros : (k n : ℕ) (ys : List ℕ) → c_str (take k (replicate n 0) ++ (0 ∷ ys)) ≡ []
unfolding c_str
c_str-zeros zero n ys = refl
c_str-zeros (suc k) zero ys = refl
c_str-zeros (suc k) (suc n) ys = refl

module _ {ℓ} {A : Type ℓ} where
  drop-nil : (n : ℕ) → ◌≡◌ {A = List A} [] (drop n [])
  drop-nil zero = refl
  drop-nil (suc n) = refl

  take-nil : (n : ℕ) → ◌≡◌ {A = List A} [] (take n [])
  take-nil zero = refl
  take-nil (suc n) = refl

  pub take_none : (n : ℕ) (xs : List A) → n ≡ 0 → [] ≡ take n xs
  take_none n xs e = rw e

  pub take_long : (n : ℕ) (xs : List A) → length xs ≤ n → take n xs ≡ xs
  take_long zero [] h = refl
  take_long zero (x ∷ xs) h = absurd (omega arith)
  take_long (suc n) [] h = refl
  take_long (suc n) (x ∷ xs) h = ap (λ ys. x ∷ ys) (take_long n xs (omega arith))

  pub drop_long : (n : ℕ) (xs : List A) → length xs ≤ n → drop n xs ≡ []
  drop_long zero [] h = refl
  drop_long zero (x ∷ xs) h = absurd (omega arith)
  drop_long (suc n) [] h = refl
  drop_long (suc n) (x ∷ xs) h = drop_long n xs (omega arith)

  -- Taking past `xs` takes `m` of what follows, and dropping past it drops `m`.
  pub take-append :
      (n m : ℕ) (xs ys : List A) → n ≡ length xs + m → take n (xs ++ ys) ≡ xs ++ take m ys
  take-append n m [] ys e = ap (λ k. take k ys) (omega arith)
  take-append zero m (x ∷ xs) ys e = absurd (omega arith)
  take-append (suc n) m (x ∷ xs) ys e = ap (λ zs. x ∷ zs) (take-append n m xs ys (omega arith))

  pub drop-append : (n m : ℕ) (xs ys : List A) → n ≡ length xs + m → drop n (xs ++ ys) ≡ drop m ys
  drop-append n m [] ys e = ap (λ k. drop k ys) (omega arith)
  drop-append zero m (x ∷ xs) ys e = absurd (omega arith)
  drop-append (suc n) m (x ∷ xs) ys e = drop-append n m xs ys (omega arith)

  pub take-append_short : (n : ℕ) (xs ys : List A) → n ≤ length xs → take n (xs ++ ys) ≡ take n xs
  take-append_short zero xs ys h = refl
  take-append_short (suc n) [] ys h = absurd (omega arith)
  take-append_short (suc n) (x ∷ xs) ys h =
      ap (λ zs. x ∷ zs) (take-append_short n xs ys (omega arith))

  pub drop-append_short :
      (n : ℕ) (xs ys : List A) → n ≤ length xs → drop n (xs ++ ys) ≡ drop n xs ++ ys
  drop-append_short zero xs ys h = refl
  drop-append_short (suc n) [] ys h = absurd (omega arith)
  drop-append_short (suc n) (x ∷ xs) ys h = drop-append_short n xs ys (omega arith)

  pub take-take : (n m : ℕ) (xs : List A) → n ≤ m → take n (take m xs) ≡ take n xs
  take-take zero m xs h = refl
  take-take (suc n) zero xs h = absurd (omega arith)
  take-take (suc n) (suc m) [] h = refl
  take-take (suc n) (suc m) (x ∷ xs) h = ap (λ zs. x ∷ zs) (take-take n m xs (omega arith))

  pub drop-drop : (n m : ℕ) (xs : List A) → drop n (drop m xs) ≡ drop (m + n) xs
  drop-drop n zero xs = ap (λ k. drop k xs) (omega arith)
  drop-drop zero (suc m) [] = drop-nil (suc m + 0)
  drop-drop (suc n) (suc m) [] = drop-nil (suc m + suc n)
  drop-drop n (suc m) (x ∷ xs) =
      let e : suc m + n ≡ suc (m + n) = omega arith in rw e (drop-drop n m xs)

  pub drop-take : (n m : ℕ) (xs : List A) → drop n (take m xs) ≡ take (m - n) (drop n xs)
  drop-take zero m xs = ap (λ k. take k xs) (omega arith)
  drop-take (suc n) zero xs = take_none (0 - suc n) (drop (suc n) xs) (omega arith)
  drop-take (suc n) (suc m) [] = ap (λ ys. ys) (take-nil (suc m - suc n))
  drop-take (suc n) (suc m) (x ∷ xs) =
      let e : suc m - suc n ≡ m - n = omega arith in rw e (drop-take n m xs)

-- A copy into the middle of a block of memory: its length, and what stands where afterwards.
pub length-memcpy_at :
    (i : ℕ) (src dst : List ℕ)
    → i + length src ≤ length dst
    → length (memcpy_at i src dst) ≡ length dst
unfolding memcpy_at
length-memcpy_at i src dst h = omega (
  arith,
  length-append {0} (take i dst) (src ++ drop (i + length src) dst),
  length-append {0} src (drop (i + length src) dst),
  length-take {0} i dst,
  length-drop {0} (i + length src) dst,
)

-- A copy of nothing changes nothing.
pub memcpy_at_nil : (i : ℕ) (dst : List ℕ) → memcpy_at i [] dst ≡ dst
unfolding memcpy_at
memcpy_at_nil i dst = let e : i + 0 ≡ i = omega arith in rw e (take-append-drop i dst)

-- What is copied in is read back.
pub take-drop-memcpy_at :
    (i : ℕ) (src dst : List ℕ)
    → i ≤ length dst
    → take (length src) (drop i (memcpy_at i src dst)) ≡ src
unfolding memcpy_at
take-drop-memcpy_at i src dst h =
    let tail = drop (i + length src) dst in
    rw
      (
        drop-append i 0 (take i dst) (src ++ tail) (omega (arith, length-take {0} i dst)),
        take-append (length src) 0 src tail (omega arith),
      )
      (append-nil src)

module _ (size i : ℕ) (src dst : List ℕ) (h : i ≤ size) (k : size ≤ length dst)
    (l : i + length src ≤ length dst) where
  -- The copy ends past the first `size` bytes, or among them.
  take-memcpy_at_longer :
      size < i + length src
      → take (i + length src) (memcpy_at i src dst) ≡ memcpy_at i src (take size dst)
  unfolding memcpy_at
  take-memcpy_at_longer m =
      let tail = drop (i + length src) dst in
      rw
        (
          take-append (i + length src) (length src) (take i dst) (src ++ tail)
              (omega (arith, length-take {0} i dst)),
          take-append (length src) 0 src tail (omega arith),
          take-take i size dst h,
          drop_long (i + length src) (take size dst) (omega (arith, length-take {0} size dst)),
        )
        refl

  take-memcpy_at_within :
      i + length src ≤ size → take size (memcpy_at i src dst) ≡ memcpy_at i src (take size dst)
  unfolding memcpy_at
  take-memcpy_at_within m =
      let tail = drop (i + length src) dst in
      rw
        (
          take-append size (size - i) (take i dst) (src ++ tail)
              (omega (arith, length-take {0} i dst)),
          take-append (size - i) (size - (i + length src)) src tail (omega arith),
          take-take i size dst h,
          drop-take (i + length src) size dst,
        )
        refl

  -- The first `size` bytes after a copy that begins among them or at their end are these bytes after
  -- the copy, with what it adds at their end.
  pub take-memcpy_at :
      take (if ltb size (i + length src) then i + length src else size) (memcpy_at i src dst)
      ≡ memcpy_at i src (take size dst)
  take-memcpy_at = elim (dec_lt size (i + length src)) [
    | yes m ↦ rw (lt→ltb size (i + length src) m) (take-memcpy_at_longer m)
    | no m ↦ rw (le→ltb (i + length src) size (omega arith)) (take-memcpy_at_within (omega arith))
  ]

-- The `n` bytes that `strncpy` writes, for a string of at most `n` characters.
padded :
    (n : ℕ) (s : CString)
    → strlen s ≤ n
    → take n (c_str s ++ replicate n 0) ≡ c_str s ++ take (n - strlen s) (replicate n 0)
unfolding strlen
padded n s h = take-append n (n - strlen s) (c_str s) (replicate n 0) (omega arith)

whole :
    (n : ℕ) (s : CString)
    → strlen s ≤ n
    → n ≡ length (c_str s ++ take (n - strlen s) (replicate n 0)) + 0
unfolding strlen
whole n s h = omega (
  arith,
  length-append {0} (c_str s) (take (n - strlen s) (replicate n 0)),
  length-take {0} (n - strlen s) (replicate {A = ℕ} n 0),
  length-replicate {0} {A = ℕ} n 0,
)

c_str_ends :
    (s z r : List ℕ)
    → ((ys : List ℕ) → c_str (z ++ (0 ∷ ys)) ≡ [])
    → c_str (((c_str s ++ z) ++ []) ++ (0 ∷ r)) ≡ c_str s
c_str_ends s z r ends = rw (append-nil, append_assoc, c_str-append, ends r, append-nil) refl

-- `d_name` after `strncpy(d_name, s, 39); d_name[39] = 0` holds `s`, if `s` is not longer.
pub c_str-strncpy :
    (n : ℕ) (old s : CString)
    → strlen s ≤ n
    → c_str (memcpy_at n (0 ∷ []) (strncpy old s n)) ≡ c_str s
unfolding memcpy_at strncpy
c_str-strncpy n old s h =
    let z = take (n - strlen s) (replicate {A = ℕ} n 0) in
    rw (padded n s h, take-append n 0 (c_str s ++ z) _ (unfold strlen in (whole n s h)))
      (c_str_ends s z _ (λ ys. c_str-zeros (n - strlen s) n ys))
