-- ===== src/Publisher/Lines.antt =====
-- Which messages the publisher's loop writes for lines of text.
use mbroker_tfs.Base.{
  leb, dec_lt, take_none, ℕ, zero, suc, ◌+◌, ◌-◌, ◌≤◌, ◌<◌, ◌≡◌, ◌≢◌, refl, ap, false, true, List,
  [], ◌∷◌, ◌++◌, take, length, length-append, arith, ◌==◌, if◌then◌else◌,
}
use mbroker_tfs.Publisher.{
  at_newline, at_eof, returned, skip_text, read_text, text_messages, process_rounds,
  process_messages,
}

-- Lines of text, the last one without a `\n`, and what should be sent of them: each line cut at 1023
-- characters, and none that is empty. A last line that has to be cut is not sent.
unfoldable pub all_lines : List (List ℕ) → List ℕ → List ℕ
all_lines [] last = last
all_lines (line ∷ lines) last = line ++ (b'\n' ∷ all_lines lines last)

unfoldable pub last_message : List ℕ → List (List ℕ)
last_message last = if leb (length last) 1023 then text_messages last else []

unfoldable pub all_messages : List (List ℕ) → List ℕ → List (List ℕ)
all_messages [] last = last_message last
all_messages (line ∷ lines) last = text_messages (take 1023 line) ++ all_messages lines last

-- No character of the line ends it.
abbrev pub IsLine : List ℕ → Type 0
IsLine [] = Unit
IsLine (c ∷ cs) = (c ≢ b'\n') × (c ≢ 255) × IsLine cs

abbrev pub AllLine : List (List ℕ) → Type 0
AllLine [] = Unit
AllLine (line ∷ lines) = IsLine line × AllLine lines

skip_text-line :
    (line rest : List ℕ) → IsLine line → skip_text (line ++ (b'\n' ∷ rest)) ≡ at_newline rest
unfolding skip_text
skip_text-line [] rest l = refl
skip_text-line (c ∷ line) rest (n, e, l) = ground (arith, skip_text-line line rest l)

other : (c d : ℕ) → c ≢ d → (c == d) ≡ false
other c d n = ground (arith, n)

short_of : (len : ℕ) → len < 1023 → leb 1023 len ≡ false
short_of len h = ground (arith, h)

full_at : (len : ℕ) → 1023 ≤ len → leb 1023 len ≡ true
full_at len h = ground (arith, h)

take-nil_of : (n : ℕ) → ◌≡◌ {A = List ℕ} [] (take n [])
take-nil_of zero = refl
take-nil_of (suc n) = refl

take-more : (n m c : ℕ) (xs : List ℕ) → n ≡ suc m → c ∷ take m xs ≡ take n (c ∷ xs)
take-more zero m c xs e = absurd (omega arith)
take-more (suc n) m c xs e = ap (λ k. c ∷ take k xs) (omega arith)

read_text-line :
    (len : ℕ) (line rest : List ℕ)
    → IsLine line
    → len ≤ 1023
    → read_text len (line ++ (b'\n' ∷ rest)) ≡ (take (1023 - len) line, at_newline rest)
unfolding read_text
read_text-line len [] rest l h = ap (λ xs. (xs, at_newline rest)) (take-nil_of (1023 - len))
read_text-line len (c ∷ line) rest (n, e, l) h = elim (dec_lt len 1023) [
  | yes m ↦
      rw
        (
          other c b'\n' n,
          other c 255 e,
          short_of len m,
          read_text-line (len + 1) line rest l (omega (arith, m)),
        )
        (ap (λ xs. (xs, at_newline rest))
          (take-more (1023 - len) (1023 - (len + 1)) c line (omega (arith, m))))
  | no m ↦
      rw
        (other c b'\n' n, other c 255 e, full_at len (omega (arith, m)), skip_text-line line rest l)
        (ap (λ xs. (xs, at_newline rest)) (take_none (1023 - len) (c ∷ line) (omega (arith, m))))
]

skip_text-last : (last : List ℕ) → IsLine last → skip_text last ≡ returned
unfolding skip_text
skip_text-last [] l = refl
skip_text-last (c ∷ last) (n, e, l) = ground (arith, skip_text-last last l)

read_text-short :
    (len : ℕ) (last : List ℕ)
    → IsLine last
    → len + length last ≤ 1023
    → read_text len last ≡ (last, at_eof)
unfolding read_text
read_text-short len [] l h = refl
read_text-short len (c ∷ last) (n, e, l) h =
    rw
      (
        other c b'\n' n,
        other c 255 e,
        short_of len (omega (arith, h)),
        read_text-short (len + 1) last l (omega (arith, h)),
      )
      refl

read_text-long :
    (len : ℕ) (last : List ℕ)
    → IsLine last
    → len ≤ 1023
    → 1023 < len + length last
    → (read_text len last).1 ≡ returned
unfolding read_text
read_text-long len [] l h k = absurd (omega arith)
read_text-long len (c ∷ last) (n, e, l) h k = elim (dec_lt len 1023) [
  | yes m ↦
      rw (other c b'\n' n, other c 255 e, short_of len m)
        (read_text-long (len + 1) last l (omega (arith, m)) (omega (arith, k)))
  | no m ↦
      rw (other c b'\n' n, other c 255 e, full_at len (omega (arith, m))) (skip_text-last last l)
]

process_rounds-last :
    (fuel : ℕ) (last : List ℕ) → IsLine last → process_rounds (suc fuel) last ≡ last_message last
unfolding process_rounds last_message
process_rounds-last fuel last l = elim (dec_lt 1023 (length last)) [
  | yes m ↦
      let too_long : leb (length last) 1023 ≡ false = ground (arith, m) in
      rw (read_text-long 0 last l (ground arith) (omega (arith, m)), too_long, process_rounds) refl
  | no m ↦
      let fits : leb (length last) 1023 ≡ true = ground (arith, m) in
      rw (read_text-short 0 last l (omega (arith, m)), fits, process_rounds) refl
]

process_rounds-all_lines :
    (fuel : ℕ) (lines : List (List ℕ)) (last : List ℕ)
    → AllLine lines
    → IsLine last
    → length lines < fuel
    → process_rounds fuel (all_lines lines last) ≡ all_messages lines last
unfolding process_rounds all_lines all_messages
process_rounds-all_lines zero lines last all l h = absurd (omega arith)
process_rounds-all_lines (suc fuel) [] last all l h = process_rounds-last fuel last l
process_rounds-all_lines (suc fuel) (line ∷ lines) last (is_line, all) l h =
    rw (read_text-line 0 line (all_lines lines last) is_line (ground arith), process_rounds)
      (ap (λ xs. text_messages (take 1023 line) ++ xs)
        (process_rounds-all_lines fuel lines last all l (omega arith)))

length-all_lines :
    (lines : List (List ℕ)) (last : List ℕ) → length lines ≤ length (all_lines lines last)
unfolding all_lines
length-all_lines [] last = ground arith
length-all_lines (line ∷ lines) last =
    omega
      (arith, length-all_lines lines last, length-append {0} line (b'\n' ∷ all_lines lines last))

pub process_messages-all_lines :
    (lines : List (List ℕ)) (last : List ℕ)
    → AllLine lines
    → IsLine last
    → process_messages (all_lines lines last) ≡ all_messages lines last
unfolding process_messages
process_messages-all_lines lines last all l =
    process_rounds-all_lines _ lines last all l (omega (arith, length-all_lines lines last))
