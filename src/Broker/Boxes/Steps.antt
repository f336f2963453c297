-- ===== src/Broker/Boxes/Steps.antt =====
-- Every sequence of calls keeps the table of boxes in order.
use mathlib.Core.Path.{subst}
use mbroker_tfs.Base.{
  ℕ, ◌-◌, ◌<◌, ◌≡◌, ◌≢◌, refl, ap, ◌∙◌, Option, none, some, length, Array, update, drop, first-some,
  first-none, CString, c_str, strcmp_iff, arith, ltb, inl, inr, Bool-cases, Option-cases,
}
use mbroker_tfs.Tfs.State.{free, is_free, Tfs, Run, done, panic, fault}
use mbroker_tfs.Tfs.Open.{tfs_open, tfs_close}
use mbroker_tfs.Tfs.Unlink.{tfs_unlink}
use mbroker_tfs.Broker.{Box, BoxStatus, normal, closed, name}
use mbroker_tfs.Broker.Replies.{BoxResult, box_ok}
use mbroker_tfs.Broker.Boxes.{
  Server, Outcome, answered, panics, faults, with_tfs, named_box, data_init, is_box, find_box,
  free_slot, put_box, box_opened, create_at, box_create, close_found, box_close, box_erase,
  box_add_pub, box_add_sub, publisher_leaves, subscriber_leaves,
}
use mbroker_tfs.Broker.Boxes.Table.{
  IsBox, IsPath, IsTable, named_box-IsPath, named_box-path, put-IsTable, free-IsTable, take-IsTable,
  erase-IsTable, init-IsTable,
}

abbrev pub IsServer : Server → Type 0
IsServer s = IsTable s.server_boxes s.free_box_table s.box_amount

-- A call of the broker's threads. A name comes from a session's array of 32 bytes; only a box in use is
-- erased.
pub data Step (s : Server) : Server → Type 0 where
  creates :
      (box_name : CString) (r : BoxResult) (t : Server)
      → length box_name ≡ 32
      → box_create box_name s ≡ answered r t
      → Step s t
  closes :
      (box_name : CString) (r : Option ℕ) (t : Server)
      → box_close box_name s ≡ answered r t
      → Step s t
  erases :
      (i : ℕ) (r : BoxResult) (t : Server)
      → IsBox s.free_box_table i
      → box_erase i s ≡ answered r t
      → Step s t
  adds_pub :
      (box_name : CString) (r : Option ℕ) (t : Server)
      → box_add_pub box_name s ≡ answered r t
      → Step s t
  adds_sub :
      (box_name : CString) (r : Option ℕ) (t : Server)
      → box_add_sub box_name s ≡ answered r t
      → Step s t
  pub_leaves : (i : ℕ) → Step s (publisher_leaves i s)
  sub_leaves : (i : ℕ) → Step s (subscriber_leaves i s)

-- The states that the broker can reach
pub data Reachable : Server → Type 0 where
  initial : (memory : Array Box) (s : Server) → Reachable (data_init memory s)
  next : {s t : Server} → Reachable s → Step s t → Reachable t

-- If the call ends, it ends in a state of the kind.
data Keeps {A : Type 0} : Outcome A → Type 0 where
  keeps : {a : A} {t : Server} → IsServer t → Keeps (answered a t)
  keeps_panics : Keeps panics
  keeps_faults : Keeps faults

kept : {A : Type 0} {a : A} {t : Server} → Keeps (answered a t) → IsServer t
kept (keeps v) = v

with_tfs-Keeps :
    {A B : Type 0} (s : Server) (run : Run A) (k : A → Server → Outcome B)
    → ((a : A) (f : Tfs) → Keeps (k a (record s { tfs = f })))
    → Keeps (with_tfs s run k)
with_tfs-Keeps s (done a f) k each = each a f
with_tfs-Keeps s panic k each = keeps_panics
with_tfs-Keeps s fault k each = keeps_faults

module _ (s : Server) (v : IsServer s) where
  pub find_box-none :
      (box_name : CString)
      → find_box s box_name ≡ none
      → (j : ℕ) → IsBox s.free_box_table j
      → c_str (name (s.server_boxes j)) ≢ c_str box_name
  find_box-none box_name e j (in_range, used) same =
      let miss = first-none (λ i. is_box s box_name i) 32 e j in_range in
      let hit = (strcmp_iff (name (s.server_boxes j)) box_name).1 same in
      ground (arith, miss, hit, used)

  module _ (box_name : CString) (size : length box_name ≡ 32) (i : ℕ) (in_range : i < 32)
      (unused : s.free_box_table i ≡ free)
      (fresh : (j : ℕ)
        → IsBox s.free_box_table j
        → c_str (name (s.server_boxes j)) ≢ c_str box_name) where
    abbrev new_box : Box
    new_box = named_box (s.server_boxes i) box_name

    new_box-IsPath : IsPath new_box
    new_box-IsPath = named_box-IsPath (s.server_boxes i) box_name (v.path i) size

    new_box-name : name new_box ≡ box_name
    new_box-name = ap (λ p. drop 1 p) (named_box-path (s.server_boxes i) box_name (v.path i) size)

    box_opened-Keeps :
        (h : Option ℕ) (f : Tfs) → Keeps (box_opened i h (record (put_box i new_box s) { tfs = f }))
    unfolding box_opened
    box_opened-Keeps none f = keeps (free-IsTable _ _ _ v i new_box new_box-IsPath unused)
    box_opened-Keeps (some h) f =
        with_tfs-Keeps (record (put_box i new_box s) { tfs = f }) (tfs_close (some h) f) _
          (λ r g. keeps (
            take-IsTable _ _ _ v i new_box new_box-IsPath (omega arith) in_range unused
              (λ j x e. fresh j x (e ∙ ap (λ n. c_str n) new_box-name))))

  create_at-Keeps :
      (box_name : CString)
      → length box_name ≡ 32
      → find_box s box_name ≡ none
      → (slot : Option ℕ) → free_slot s ≡ slot
      → Keeps (create_at box_name s slot)
  unfolding create_at
  create_at-Keeps box_name size absent none e = keeps v
  create_at-Keeps box_name size absent (some i) e =
      let (hit, in_range, _) = first-some (λ j. is_free (s.free_box_table j)) 32 i e in
      with_tfs-Keeps (put_box i (named_box (s.server_boxes i) box_name) s)
        (tfs_open (some (named_box (s.server_boxes i) box_name).path) 3 s.tfs)
        (λ h t. box_opened i h t)
        (λ h f.
          box_opened-Keeps box_name size i in_range (ground (arith, hit))
            (find_box-none box_name absent) h f)

  box_create-Keeps : (box_name : CString) → length box_name ≡ 32 → Keeps (box_create box_name s)
  unfolding box_create
  box_create-Keeps box_name size = elim (Option-cases (find_box s box_name)) [
    | inl e ↦ rw (e, box_create) (create_at-Keeps box_name size e (free_slot s) refl)
    | inr (i, e) ↦ rw (e, box_create) (keeps v)
  ]

  closed_box-Keeps :
      (i : ℕ) (b : BoxStatus)
      → Keeps (elim b [
        | normal ↦ answered (some i) (put_box i (record (s.server_boxes i) { status = closed }) s)
        | closed ↦ panics
      ])
  closed_box-Keeps i normal = keeps (
      put-IsTable _ _ _ v i (record (s.server_boxes i) { status = closed }) refl
        (v.one_publisher i))
  closed_box-Keeps i closed = keeps_panics

  close_found-Keeps : (o : Option ℕ) → Keeps (close_found s o)
  unfolding close_found
  close_found-Keeps none = keeps v
  close_found-Keeps (some i) = closed_box-Keeps i (s.server_boxes i).status

  box_close-Keeps : (box_name : CString) → Keeps (box_close box_name s)
  unfolding box_close
  box_close-Keeps box_name = close_found-Keeps (find_box s box_name)

  box_erase-Keeps : (i : ℕ) → IsBox s.free_box_table i → Keeps (box_erase i s)
  unfolding box_erase
  box_erase-Keeps i x =
      with_tfs-Keeps s (tfs_unlink (some (s.server_boxes i).path) s.tfs)
        (λ r t. answered box_ok (record t {
          free_box_table = update t.free_box_table i free;
          box_amount = t.box_amount - 1;
        }))
        (λ r f. keeps (erase-IsTable _ _ _ v i x))

  box_add_pub-Keeps : (box_name : CString) → Keeps (box_add_pub box_name s)
  unfolding box_add_pub
  box_add_pub-Keeps box_name = elim (Option-cases (find_box s box_name)) [
    | inl e ↦ rw (e, box_add_pub) (keeps v)
    | inr (i, e) ↦ elim (Bool-cases (ltb 0 (s.server_boxes i).n_publishers)) [
      | inl one ↦ rw (e, one, box_add_pub) (keeps v)
      | inr zero_yet ↦
          rw (e, zero_yet, box_add_pub)
            (keeps (put-IsTable _ _ _ v i _ refl (λ x. ground (arith, zero_yet))))
    ]
  ]

  box_add_sub-Keeps : (box_name : CString) → Keeps (box_add_sub box_name s)
  unfolding box_add_sub
  box_add_sub-Keeps box_name = elim (Option-cases (find_box s box_name)) [
    | inl e ↦ rw (e, box_add_sub) (keeps v)
    | inr (i, e) ↦ rw (e, box_add_sub) (keeps (put-IsTable _ _ _ v i _ refl (v.one_publisher i)))
  ]

Step-IsServer : {s t : Server} → IsServer s → Step s t → IsServer t
Step-IsServer {s} v (creates box_name r t size e) =
    kept (subst (λ o. Keeps o) e (box_create-Keeps s v box_name size))
Step-IsServer {s} v (closes box_name r t e) =
    kept (subst (λ o. Keeps o) e (box_close-Keeps s v box_name))
Step-IsServer {s} v (erases i r t x e) = kept (subst (λ o. Keeps o) e (box_erase-Keeps s v i x))
Step-IsServer {s} v (adds_pub box_name r t e) =
    kept (subst (λ o. Keeps o) e (box_add_pub-Keeps s v box_name))
Step-IsServer {s} v (adds_sub box_name r t e) =
    kept (subst (λ o. Keeps o) e (box_add_sub-Keeps s v box_name))
Step-IsServer {s} v (pub_leaves i) =
    put-IsTable _ _ _ v i _ refl (λ x. omega (arith, v.one_publisher i x))
Step-IsServer {s} v (sub_leaves i) = put-IsTable _ _ _ v i _ refl (v.one_publisher i)

-- In every state that calls of the broker's threads reach from `data_init`, in any order and whatever
-- the file system answers: the amount is the number of boxes in the table, no two boxes have one name,
-- no box has more than one publisher, and every path is a slash and the box's name.
pub Reachable-IsServer : {s : Server} → Reachable s → IsServer s
unfolding data_init
Reachable-IsServer (initial memory s) = init-IsTable memory
Reachable-IsServer (next r step) = Step-IsServer (Reachable-IsServer r) step
