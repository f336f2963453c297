-- ===== src/Broker/Boxes.antt =====
-- The table of boxes (p2/mbroker/data.c).
--
-- `box_table_lock` is held through each call, so a call is one step. `box_remove` also waits under
-- that lock, while sessions end: its parts before and after the wait are steps of their own.
pub mod Count
pub mod Table
pub mod Steps
pub mod Create
pub mod Sessions
use mbroker_tfs.Base.{
  ℕ, zero, suc, ◌+◌, ◌-◌, Bool, true, false, ◌&&◌, Option, none, some, List, [], ◌∷◌, map,
  replicate, take, Array, update, first, CString, strcmp_eq, memcpy_at, length, ltb, ◌==◌,
  if◌then◌else◌,
}
use mbroker_tfs.Tfs.State.{Allocation, free, taken, is_free, is_taken, Tfs, Run, done, panic, fault}
use mbroker_tfs.Tfs.Open.{tfs_open, tfs_close}
use mbroker_tfs.Tfs.Unlink.{tfs_unlink}
use mbroker_tfs.Broker.{Box, BoxStatus, normal, closed, name}
use mbroker_tfs.Broker.Replies.{
  BoxResult, box_ok, box_exists, too_many_boxes, tfs_failed, box_missing,
}

abbrev pub default_box_limit : ℕ
default_box_limit = 32

-- The static variables of data.c, and the file system that the boxes are stored in
pub record Server : Type 0 where
  pub tfs : Tfs
  pub server_boxes : Array Box
  pub free_box_table : Array Allocation
  pub box_amount : ℕ

pub data Outcome (A : Type 0) : Type 0 where
  answered : A → Server → Outcome A
  panics faults : Outcome A

-- A call of the file system, and what follows
abbrev pub with_tfs : {A B : Type 0} → Server → Run A → (A → Server → Outcome B) → Outcome B
with_tfs s (done a t) k = k a (record s { tfs = t })
with_tfs s panic k = panics
with_tfs s fault k = faults

abbrev pub box_init : Box → Box
box_init b = record b {
  n_publishers = 0;
  n_subscribers = 0;
  box_size = 0;
  status = normal;
  path = memcpy_at 1 (replicate 32 0) b.path;
  pub_pipe_name = memcpy_at 0 (replicate 256 0) b.pub_pipe_name;
}

-- `memory` is what `malloc` gives for the box.
abbrev pub box_alloc : Box → Box
box_alloc memory = box_init (record memory { path = b'/' ∷ replicate 32 0 })

unfoldable pub data_init : Array Box → Server → Server
data_init memory s = record s {
  server_boxes = λ i. box_alloc (memory i);
  free_box_table = λ _. free;
  box_amount = 0;
}

abbrev pub is_box : Server → CString → ℕ → Bool
is_box s box_name i = is_taken (s.free_box_table i) && strcmp_eq (name (s.server_boxes i)) box_name

abbrev pub find_box : Server → CString → Option ℕ
find_box s box_name = first (λ i. is_box s box_name i) default_box_limit

abbrev pub free_slot : Server → Option ℕ
free_slot s = first (λ i. is_free (s.free_box_table i)) default_box_limit

abbrev pub put_box : ℕ → Box → Server → Server
put_box i b s = record s { server_boxes = update s.server_boxes i b }

-- `box_init(box); memcpy(box->name, box_name, MAX_BOX_NAME);`
abbrev pub named_box : Box → CString → Box
named_box b box_name =
    let c = box_init b in record c { path = memcpy_at 1 (take 32 box_name) c.path }

abbrev pub take_slot : ℕ → Server → Server
take_slot i s = record s {
  free_box_table = update s.free_box_table i taken;
  box_amount = s.box_amount + 1;
}

-- `if ((ret = tfs_open(...)) == -1) return -3; tfs_close(ret); ...`
pub box_opened : ℕ → Option ℕ → Server → Outcome BoxResult
box_opened i none s = answered tfs_failed s
box_opened i (some h) s =
    with_tfs s (tfs_close (some h) s.tfs) (λ r t. answered box_ok (take_slot i t))

-- The file is opened with TFS_O_CREAT | TFS_O_TRUNC.
pub create_at : CString → Server → Option ℕ → Outcome BoxResult
unfolding box_opened
create_at box_name s none = answered too_many_boxes s
create_at box_name s (some i) =
    let b = named_box (s.server_boxes i) box_name in
    with_tfs (put_box i b s) (tfs_open (some b.path) 3 s.tfs) (λ r t. box_opened i r t)

-- The loop looks at every box for the name, and so finds the name also behind a free slot.
unfoldable pub box_create : CString → Server → Outcome BoxResult
unfolding create_at
box_create box_name s = elim (find_box s box_name) [
  | some i ↦ answered box_exists s
  | none ↦ create_at box_name s (free_slot s)
]

-- `box_remove` up to its waits: the number of the box, which is closed, or -1
pub close_found : Server → Option ℕ → Outcome (Option ℕ)
close_found s none = answered none s
close_found s (some i) = elim (s.server_boxes i).status [
  | normal ↦ answered (some i) (put_box i (record (s.server_boxes i) { status = closed }) s)
  | closed ↦ panics
]

unfoldable pub box_close : CString → Server → Outcome (Option ℕ)
unfolding close_found
box_close box_name s = close_found s (find_box s box_name)

-- `box_remove` after its waits, when no session has the box any more
unfoldable pub box_erase : ℕ → Server → Outcome BoxResult
box_erase i s = with_tfs s (tfs_unlink (some (s.server_boxes i).path) s.tfs) (λ r t.
    answered box_ok
      (record t { free_box_table = update t.free_box_table i free; box_amount = t.box_amount - 1 }))

-- The sessions' use of a box: what `box_add_pub` and `box_add_sub` return, `none` for 0
unfoldable pub box_add_pub : CString → Server → Outcome (Option ℕ)
box_add_pub box_name s = elim (find_box s box_name) [
  | none ↦ answered none s
  | some i ↦
      let b = s.server_boxes i in
      if ltb 0 b.n_publishers
      then answered none s
      else answered (some i) (put_box i (record b { n_publishers = b.n_publishers + 1 }) s)
]

unfoldable pub box_add_sub : CString → Server → Outcome (Option ℕ)
box_add_sub box_name s = elim (find_box s box_name) [
  | none ↦ answered none s
  | some i ↦
      let b = s.server_boxes i in
      answered (some i) (put_box i (record b { n_subscribers = b.n_subscribers + 1 }) s)
]

-- The end of a session: `box->n_publishers--`, `box->n_subscribers--`
abbrev pub publisher_leaves : ℕ → Server → Server
publisher_leaves i s =
    let b = s.server_boxes i in put_box i (record b { n_publishers = b.n_publishers - 1 }) s

abbrev pub subscriber_leaves : ℕ → Server → Server
subscriber_leaves i s =
    let b = s.server_boxes i in put_box i (record b { n_subscribers = b.n_subscribers - 1 }) s

-- The boxes in use, from index `i` on
unfoldable pub taken_boxes : ℕ → ℕ → Server → List Box
taken_boxes zero i s = []
taken_boxes (suc n) i s =
    let rest = taken_boxes n (suc i) s in
    if is_taken (s.free_box_table i) then s.server_boxes i ∷ rest else rest

-- The copies of the boxes in use, in an array of `box_amount` places; with no box the call returns
-- before it copies any.
unfoldable pub box_get_all : Server → Outcome (List Box)
box_get_all s =
    let boxes = taken_boxes default_box_limit 0 s in
    if s.box_amount == 0
    then answered [] s
    else if ltb s.box_amount (length boxes)
    then faults
    else if length boxes == s.box_amount
    then answered boxes s
    else panics
