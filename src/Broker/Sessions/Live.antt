-- ===== src/Broker/Sessions/Live.antt =====
-- One publisher's session while it runs, and what its rounds leave.
use mbroker_tfs.Base.{
  ℕ, zero, suc, ◌+◌, ◌≤◌, ◌<◌, ◌≡◌, ◌≢◌, ◌⊎◌, ◌↔◌, refl, ◌∙◌, inl, inr, false, Option, none, some,
  List, take, drop, length, length-take, length-drop, Array, update, memcpy_at, length-memcpy_at,
  arith, Bool-cases, ltb, ◌==◌,
}
use mbroker_tfs.Tfs.State.{Tfs, free}
use mbroker_tfs.Tfs.Invariant.{IsHandle, IsValid}
use mbroker_tfs.Tfs.Changes.{closed-IsValid}
use mbroker_tfs.Tfs.Open.{rest}
use mbroker_tfs.Tfs.Open.Handles.{tfs_close-done}
use mbroker_tfs.Tfs.ReadWrite.Write.{Wrote, room, WriteResult, tfs_write-WriteResult}
use mbroker_tfs.Wire.Code
use mbroker_tfs.Broker.{Box, BoxStatus, normal, closed}
use mbroker_tfs.Broker.Listen.{first_or}
use mbroker_tfs.Broker.Boxes.{Server, answered, put_box, publisher_leaves}
use mbroker_tfs.Broker.Boxes.Create.{Answers, answers, with_tfs-Answers}
use mbroker_tfs.Broker.Sessions.{
  publisher_ends, publisher_wrote, publisher_round, served, publisher_rounds,
}
use mbroker_tfs.Broker.Sessions.Deliver.{and_then-Answers}

status-cases : (b : BoxStatus) → (b ≡ normal) ⊎ (b ≡ closed)
status-cases normal = inl refl
status-cases closed = inr refl

-- Nothing of a session is left: the handles that are open, the counts, names and states of the boxes and the table are
-- as before, and the file system is valid.
pub record IsLeft (s t : Server) : Type 0 where
  pub valid : IsValid t.tfs
  pub handles : (k : ℕ) → IsHandle s.tfs k ↔ IsHandle t.tfs k
  pub offsets : (k : ℕ) → IsHandle s.tfs k → t.tfs.open_file_table k ≡ s.tfs.open_file_table k
  pub publishers : (j : ℕ) → (t.server_boxes j).n_publishers ≡ (s.server_boxes j).n_publishers
  pub subscribers : (j : ℕ) → (t.server_boxes j).n_subscribers ≡ (s.server_boxes j).n_subscribers
  pub path : (j : ℕ) → (t.server_boxes j).path ≡ (s.server_boxes j).path
  pub status : (j : ℕ) → (t.server_boxes j).status ≡ (s.server_boxes j).status
  pub slots : t.free_box_table ≡ s.free_box_table
  pub amount : t.box_amount ≡ s.box_amount

-- In the session, which has handle `h` and counts as a publisher of box `i`
pub record IsLive (s : Server) (i h : ℕ) (t : Server) : Type 0 where
  pub valid : IsValid t.tfs
  pub is_new : ¬ IsHandle s.tfs h
  pub is_open : IsHandle t.tfs h
  pub handles :
      (k : ℕ)
      → IsHandle s.tfs k
      → IsHandle t.tfs k × (t.tfs.open_file_table k ≡ s.tfs.open_file_table k)
  pub only_new : (k : ℕ) → k ≢ h → IsHandle t.tfs k → IsHandle s.tfs k
  pub publisher : (t.server_boxes i).n_publishers ≡ (s.server_boxes i).n_publishers + 1
  pub subscribers : (t.server_boxes i).n_subscribers ≡ (s.server_boxes i).n_subscribers
  pub path : (t.server_boxes i).path ≡ (s.server_boxes i).path
  pub status : (t.server_boxes i).status ≡ (s.server_boxes i).status
  pub other_boxes : (j : ℕ) → j ≢ i → t.server_boxes j ≡ s.server_boxes j
  pub slots : t.free_box_table ≡ s.free_box_table
  pub amount : t.box_amount ≡ s.box_amount

-- What a round leaves: the session has ended, or it goes on with less input.
abbrev pub RoundEnd : Server → ℕ → ℕ → List ℕ → Option (List ℕ) → Server → Type 0
RoundEnd s i h input left t =
    ((left ≡ none) × IsLeft s t)
    ⊎ ((rest : List ℕ) × (left ≡ some rest) × (length rest < length input) × IsLive s i h t)

module _ (s : Server) (i h : ℕ) where
  publisher_leaves-IsLeft :
      (t : Server) (live : IsLive s i h t)
      → IsLeft s (
          publisher_leaves i (record t {
            tfs = record t.tfs {
              free_open_file_entries = update t.tfs.free_open_file_entries h free;
            };
          }))
  publisher_leaves-IsLeft t live = record {
    valid = closed-IsValid t.tfs live.valid h;
    handles = λ k. (
      (λ o.
          let ne : k ≢ h = λ e. live.is_new (rw e at o) in
          let kept = (live.handles k o).0 in ground (arith, ne, kept)),
      (λ o.
          let ne : k ≢ h = ground (arith, o) in
          let before : IsHandle t.tfs k = ground (arith, ne, o) in live.only_new k ne before),
    );
    offsets = λ k o. (live.handles k o).1;
    publishers = λ j. ground (arith, live.other_boxes j, live.publisher);
    subscribers = λ j. ground (arith, live.other_boxes j, live.subscribers);
    path = λ j. ground (arith, live.other_boxes j, live.path);
    status = λ j. ground (arith, live.other_boxes j, live.status);
    slots = live.slots;
    amount = live.amount;
  }

  publisher_ends-RoundEnd :
      (input : List ℕ) (t : Server)
      → IsLive s i h t
      → Answers (RoundEnd s i h input) (publisher_ends i h t)
  publisher_ends-RoundEnd input t live =
      rw (tfs_close-done t.tfs live.valid h live.is_open)
        (answers (inl (refl, publisher_leaves-IsLeft t live)))

  Wrote-IsLive :
      (t : Server) (f : Tfs) (new : List ℕ)
      → IsLive s i h t
      → Wrote t.tfs h new f
      → IsLive s i h (record t { tfs = f })
  Wrote-IsLive t f new live w = record {
    valid = w.valid;
    is_new = live.is_new;
    is_open = rw (w.params, w.is_open) live.is_open;
    handles = λ k o.
        let (kept, same) = live.handles k o in
        let ne : k ≢ h = λ e. live.is_new (rw e at o) in
        (rw (w.params, w.is_open) kept, w.handles k ne ∙ same);
    only_new = λ k ne o. live.only_new k ne (rw (w.params, w.is_open) at o);
    publisher = live.publisher;
    subscribers = live.subscribers;
    path = live.path;
    status = live.status;
    other_boxes = live.other_boxes;
    slots = live.slots;
    amount = live.amount;
  }

  -- The size of the box, or the name of the publisher's pipe, changes.
  pub put_box-IsLive :
      (t : Server) (b : Box)
      → IsLive s i h t
      → b.n_publishers ≡ (t.server_boxes i).n_publishers
      → b.n_subscribers ≡ (t.server_boxes i).n_subscribers
      → b.path ≡ (t.server_boxes i).path
      → b.status ≡ (t.server_boxes i).status
      → IsLive s i h (put_box i b t)
  put_box-IsLive t b live pubs subs path status = record {
    valid = live.valid;
    is_new = live.is_new;
    is_open = live.is_open;
    handles = live.handles;
    only_new = live.only_new;
    publisher = ground (arith, pubs, live.publisher);
    subscribers = ground (arith, subs, live.subscribers);
    path = ground (arith, path, live.path);
    status = ground (arith, status, live.status);
    other_boxes = λ j ne. ground (arith, live.other_boxes j, ne);
    slots = live.slots;
    amount = live.amount;
  }

  module _ (input rest : List ℕ) (less : length rest < length input) where
    wrote-RoundEnd :
        (t : Server) (live : IsLive s i h t) (text : List ℕ) (r : Option ℕ) (f : Tfs)
        → WriteResult t.tfs h 1024 text r f
        → Answers (RoundEnd s i h input) (publisher_wrote i h rest r (record t { tfs = f }))
    wrote-RoundEnd t live text r f (inr (er, ef, some_bytes, full)) =
        rw (er, ef) (publisher_ends-RoundEnd input t live)
    wrote-RoundEnd t live text r f (inl (er, w)) =
        let now = Wrote-IsLive t f _ live w in
        elim (Bool-cases (ltb (room t.tfs h 1024) 1024)) [
          | inl short ↦ rw (er, short) (publisher_ends-RoundEnd input (record t { tfs = f }) now)
          | inr all ↦
              rw (er, all)
                (answers (
                  inr (
                    rest,
                    refl,
                    less,
                    put_box-IsLive (record t { tfs = f }) _ now refl refl refl refl,
                  )))
        ]

  round-RoundEnd :
      (memory input : List ℕ) (t : Server)
      → 1024 ≤ length memory
      → IsLive s i h t
      → Answers (RoundEnd s i h input) (publisher_round memory i h input t)
  unfolding publisher_round
  round-RoundEnd memory input t long live = elim (status-cases (t.server_boxes i).status) [
    | inr e ↦ rw (e, publisher_round) (publisher_ends-RoundEnd input t live)
    | inl e ↦ elim (Bool-cases (length (take 1 input) == 0)) [
      | inl none_left ↦ rw (e, none_left, publisher_round) (publisher_ends-RoundEnd input t live)
      | inr some_left ↦ elim (Bool-cases (first_or 0 input == Code.publish)) [
        | inr other ↦
            rw (e, some_left, other, publisher_round) (publisher_ends-RoundEnd input t live)
        | inl code ↦ elim (Bool-cases (length (take 1024 (drop 1 input)) == 0)) [
          | inl cut ↦
              rw (e, some_left, code, cut, publisher_round) (publisher_ends-RoundEnd input t live)
          | inr whole ↦
              rw (e, some_left, code, whole, publisher_round)
                (with_tfs-Answers t _ _
                  (tfs_write-WriteResult t.tfs h 1024 (message memory input) live.valid live.is_open
                    (long_enough memory input long) (ground arith))
                  (wrote-RoundEnd input (drop 1024 (drop 1 input)) (shorter input some_left) t live
                    (message memory input)))
        ]
      ]
    ]
  ]
    where
      message : List ℕ → List ℕ → List ℕ
      message memory input = memcpy_at 0 (take 1024 (drop 1 input)) memory

      long_enough :
          (memory input : List ℕ) → 1024 ≤ length memory → 1024 ≤ length (message memory input)
      long_enough memory input long =
          let size = length-take {0} 1024 (drop 1 input) in
          let same =
            length-memcpy_at 0 (take 1024 (drop 1 input)) memory (omega (arith, size, long)) in
          omega (arith, same, long)

      shorter :
          (input : List ℕ)
          → (length (take 1 input) == 0) ≡ false
          → length (drop 1024 (drop 1 input)) < length input
      shorter input some_left =
          let one = length-take {0} 1 input in
          let rest = length-drop {0} 1 input in
          let less = length-drop {0} 1024 (drop 1 input) in
          ground (arith, one, rest, less, some_left)

  pub rounds-IsLeft :
      (n : ℕ) (memory : Array (List ℕ)) (input : List ℕ) (t : Server)
      → ((m : ℕ) → 1024 ≤ length (memory m))
      → length input < n
      → IsLive s i h t
      → Answers (λ r u. (r ≡ served) × IsLeft s u) (publisher_rounds n memory i h input t)
  unfolding publisher_rounds
  rounds-IsLeft zero memory input t long enough live = absurd (omega arith)
  rounds-IsLeft (suc n) memory input t long enough live =
      and_then-Answers _ (round-RoundEnd (memory n) input t (long n) live) (
        next
          (λ rest u less now. rounds-IsLeft n memory rest u long (omega (arith, less, enough)) now))
    where
      next :
          ((rest : List ℕ) (u : Server)
            → length rest < length input
            → IsLive s i h u
            → Answers (λ r w. (r ≡ served) × IsLeft s w) (publisher_rounds n memory i h rest u))
          → (left : Option (List ℕ)) (u : Server) → RoundEnd s i h input left u
          → Answers
              (λ r w. (r ≡ served) × IsLeft s w)
              (elim left [
                | none ↦ answered served u
                | some rest ↦ publisher_rounds n memory i h rest u
              ])
      next onward left u (inl (e, end)) = rw e (answers (refl, end))
      next onward left u (inr (rest, e, less, now)) = rw e (onward rest u less now)
