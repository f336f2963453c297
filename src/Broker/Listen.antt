-- ===== src/Broker/Listen.antt =====
-- Reading requests (`listen_for_requests` of p2/mbroker/mbroker.c).
--
-- The register pipe is the list of the bytes that have arrived. Since the broker itself keeps the pipe
-- open for writing, a read waits for bytes and never meets the end of the pipe.
use mbroker_tfs.Base.{
  ℕ, zero, suc, ◌+◌, ◌-◌, ◌≤◌, ◌<◌, ◌≡◌, refl, ap, Bool, true, false, ◌||◌, Option, none, some,
  List, [], ◌∷◌, ◌++◌, append_assoc, append-nil, take, drop, drop_long, take-take, length, CString,
  c_str, strlen, memcpy_at, ◌==◌, if◌then◌else◌, arith, Bool-cases, inl, inr, ◌≢◌,
}
use mbroker_tfs.Wire.Code
use mbroker_tfs.Wire.{max_box_name, client_pipe_length, request_with_box, build_list_request}
use mbroker_tfs.Wire.Fill.{take-front, drop-front}
use mbroker_tfs.Wire.Layout.{length-take_of, request_with_box-layout, build_list_request-layout}
use mbroker_tfs.Broker.{Session}

-- `read_pipe(fd, dst, n)`: what `dst` then holds, and the bytes left in the pipe
abbrev pub read_pipe : ℕ → List ℕ → List ℕ → List ℕ × List ℕ
read_pipe n dst input = (memcpy_at 0 (take n input) dst, drop n input)

abbrev pub first_or : ℕ → List ℕ → ℕ
first_or d [] = d
first_or d (x ∷ xs) = x

-- `s[n - 1] = '\0'`
abbrev end_at : ℕ → List ℕ → List ℕ
end_at n s = memcpy_at (n - 1) (0 ∷ []) s

abbrev pub has_box : ℕ → Bool
has_box code =
    code == Code.pub_creation
    || (code == Code.sub_creation || (code == Code.manager_create || code == Code.manager_remove))

-- One round of the loop: the session that is put in the queue and the bytes left; `none` is PANIC.
-- `memory` is the session that `malloc` gives.
unfoldable pub read_request : Session → List ℕ → Option (Session × List ℕ)
read_request memory input =
    let (codes, input) = read_pipe 1 (memory.code ∷ []) input in
    let code = first_or 0 codes in
    let (pipe, input) = read_pipe client_pipe_length memory.pipe_name input in
    let pipe_name = end_at client_pipe_length pipe in
    if code == Code.manager_list
    then some (record { code = code; box_name = memory.box_name; pipe_name = pipe_name }, input)
    else if has_box code
    then (let (box, input) = read_pipe max_box_name memory.box_name input in
        some (
          record { code = code; box_name = end_at max_box_name box; pipe_name = pipe_name },
          input,
        ))
    else none

pub record IsSession (s : Session) : Type 0 where
  pub box_size : length s.box_name ≡ max_box_name
  pub pipe_size : length s.pipe_name ≡ client_pipe_length

pub read_pipe-front :
    (n : ℕ) (dst xs rest : List ℕ)
    → length xs ≡ n
    → length dst ≡ n
    → memcpy_at 0 (take n (xs ++ rest)) dst ≡ xs
unfolding memcpy_at
read_pipe-front n dst xs rest e f =
    rw (take-front n xs rest e, drop_long (0 + length xs) dst (omega (arith, e, f)), append-nil xs)
      refl

c_str-take : (m : ℕ) (s r : List ℕ) → strlen s ≤ m → c_str (take m s ++ (0 ∷ r)) ≡ c_str s
unfolding c_str strlen
c_str-take zero [] r h = refl
c_str-take (suc m) [] r h = refl
c_str-take zero (x ∷ xs) r h = ground (arith, h)
c_str-take (suc m) (x ∷ xs) r h = elim (Bool-cases (x == 0)) [
  | inl e ↦ rw e
  | inr e ↦
      let h' : strlen xs ≤ m = ground (arith, h, e) in
      rw e (ap (λ ys. x ∷ ys) (c_str-take m xs r h'))
]

-- A string that is shorter than the array survives the terminating NUL.
c_str-end_at : (n : ℕ) (s : CString) → strlen s < n → c_str (end_at n (take n s)) ≡ c_str s
unfolding memcpy_at
c_str-end_at n s h = rw (take-take (n - 1) n s (omega arith)) (c_str-take (n - 1) s _ (omega arith))

other_than_list : (code : ℕ) → has_box code ≡ true → (code == Code.manager_list) ≡ false
other_than_list code known = ground (arith, known)

read_request-request_with_box :
    (memory : Session) (code : ℕ) (pipe box rest : List ℕ)
    → IsSession memory
    → has_box code ≡ true
    → 256 ≤ length pipe
    → 32 ≤ length box
    → read_request memory (request_with_box code pipe box ++ rest)
      ≡ some (
        record {
          code = code;
          box_name = end_at 32 (take 32 box);
          pipe_name = end_at 256 (take 256 pipe);
        },
        rest,
      )
unfolding read_request
read_request-request_with_box memory code pipe box rest m known p b =
    rw
      (
        request_with_box-layout code pipe box p b,
        append_assoc (take 256 pipe) (take 32 box) rest,
        read_pipe-front 1 (memory.code ∷ []) (code ∷ []) (take 256 pipe ++ (take 32 box ++ rest))
            refl refl,
        read_pipe-front 256 memory.pipe_name (take 256 pipe) (take 32 box ++ rest)
            (length-take_of 256 pipe p) m.pipe_size,
        drop-front 256 (take 256 pipe) (take 32 box ++ rest) (length-take_of 256 pipe p),
        read_pipe-front 32 memory.box_name (take 32 box) rest (length-take_of 32 box b) m.box_size,
        drop-front 32 (take 32 box) rest (length-take_of 32 box b),
      )
      (rw (other_than_list code known, known) refl)

-- What the broker makes of a request: the code, and the two names
abbrev pub IsRead : Session → List ℕ → ℕ → CString → CString → Option (Session × List ℕ) → Type 0
IsRead memory rest code pipe box o =
    (s : Session) × (o ≡ some (s, rest))
    × (s.code ≡ code)
    × (c_str s.pipe_name ≡ c_str pipe)
    × (c_str s.box_name ≡ c_str box)

-- A request of a publisher, a subscriber or a manager that creates or removes a box, built from names
-- that fit (fewer than 256 and 32 characters, in arrays of as many bytes), is read by the broker with
-- its code and both names, whatever the session's memory held; what follows it in the pipe stays.
pub read_request-IsRead :
    (memory : Session) (code : ℕ) (pipe box rest : List ℕ)
    → IsSession memory
    → has_box code ≡ true
    → 256 ≤ length pipe
    → 32 ≤ length box
    → strlen pipe < 256
    → strlen box < 32
    → IsRead memory rest code pipe box
        (read_request memory (request_with_box code pipe box ++ rest))
read_request-IsRead memory code pipe box rest m known p b short_pipe short_box = (
  _,
  read_request-request_with_box memory code pipe box rest m known p b,
  refl,
  c_str-end_at 256 pipe short_pipe,
  c_str-end_at 32 box short_box,
)

-- A list request built from a pipe name that fits is read by the broker with its code and the name.
pub read_request-build_list_request :
    (memory : Session) (pipe rest : List ℕ)
    → IsSession memory
    → 256 ≤ length pipe
    → strlen pipe < 256
    → IsRead memory rest Code.manager_list pipe memory.box_name
        (read_request memory (build_list_request pipe ++ rest))
read_request-build_list_request memory pipe rest m p short_pipe =
    (_, whole, refl, c_str-end_at 256 pipe short_pipe, refl)
  where
    whole :
        read_request memory (build_list_request pipe ++ rest)
        ≡ some (
          record { code = 7; box_name = memory.box_name; pipe_name = end_at 256 (take 256 pipe) },
          rest,
        )
    whole =
        unfold read_request in
        rw
          (
            build_list_request-layout pipe p,
            read_pipe-front 1 (memory.code ∷ []) (7 ∷ []) (take 256 pipe ++ rest) refl refl,
            read_pipe-front 256 memory.pipe_name (take 256 pipe) rest (length-take_of 256 pipe p)
                m.pipe_size,
            drop-front 256 (take 256 pipe) rest (length-take_of 256 pipe p),
          )
          refl

-- A request whose code is not one of the five that the broker knows makes it panic.
pub read_request-panics :
    (memory : Session) (code : ℕ) (rest : List ℕ)
    → code ≢ Code.manager_list
    → has_box code ≡ false
    → read_request memory (code ∷ rest) ≡ none
unfolding read_request
read_request-panics memory code rest other unknown =
    rw (read_pipe-front 1 (memory.code ∷ []) (code ∷ []) rest refl refl) (ground (arith, unknown))
