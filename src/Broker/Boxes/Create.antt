-- ===== src/Broker/Boxes/Create.antt =====
-- `box_create` together with the file system that the boxes are stored in.
use mbroker_tfs.Base.{ℕ, ◌+◌, ◌<◌, ◌≡◌, ◌⊎◌, Option, none, some, [], length, CString, strlen}
use mbroker_tfs.Tfs.State.{free, taken, Tfs, Run}
use mbroker_tfs.Tfs.Invariant.{content, IsHandle, IsValid}
use mbroker_tfs.Tfs.Returns.{Returns, returns}
use mbroker_tfs.Tfs.Dir.Lookup.{Names}
use mbroker_tfs.Tfs.Changes.{IsUnmoved}
use mbroker_tfs.Broker.{Box}
use mbroker_tfs.Broker.Replies.{BoxResult, box_ok, box_exists, too_many_boxes, tfs_failed}
use mbroker_tfs.Broker.Boxes.{Server, Outcome, answered, with_tfs, named_box}
use mbroker_tfs.Broker.Boxes.Steps.{IsServer}
use mbroker_tfs.Broker.Boxes.Sessions.{IsBoxOf}

-- The call ends without a failed assertion and without undefined behaviour.
pub data Answers {A : Type 0} (P : A → Server → Type 0) : Outcome A → Type 0 where
  answers : {a : A} {t : Server} → P a t → Answers P (answered a t)

pub with_tfs-Answers :
    {A B : Type 0} {P : A → Tfs → Type 0} {Q : B → Server → Type 0} (s : Server) (run : Run A)
    (k : A → Server → Outcome B)
    → Returns P run
    → ((a : A) (f : Tfs) → P a f → Answers Q (k a (record s { tfs = f })))
    → Answers Q (with_tfs s run k)
with_tfs-Answers s run k (returns p) each = each _ _ p

-- The file of the name is empty.
abbrev pub HasEmptyFile : Tfs → CString → Type 0
HasEmptyFile f box_name = (k : ℕ) × Names f box_name k × (content f k ≡ [])

-- What `box_create` does; a name of the table is one that has a box.
abbrev pub IsAbsent : Server → CString → Type 0
IsAbsent s box_name = (j : ℕ) → ¬ IsBoxOf s box_name j

abbrev pub CreateResult : Server → CString → BoxResult → Server → Type 0
CreateResult s box_name r t =
    ((r ≡ box_exists) × (t ≡ s) × (j : ℕ) × IsBoxOf s box_name j)
    ⊎ ((r ≡ too_many_boxes)
        × (t ≡ s)
        × IsAbsent s box_name
        × ((j : ℕ) → j < 32 → s.free_box_table j ≡ taken))
    ⊎ ((r ≡ box_ok)
        × IsAbsent s box_name
        × IsServer t
        × IsValid t.tfs
        × HasEmptyFile t.tfs box_name
        × (i : ℕ) × (s.free_box_table i ≡ free)
        × IsBoxOf t box_name i
        × (t.box_amount ≡ s.box_amount + 1))
    ⊎ ((r ≡ tfs_failed)
        × IsAbsent s box_name
        × IsServer t
        × IsValid t.tfs
        × (t.free_box_table ≡ s.free_box_table)
        × (t.box_amount ≡ s.box_amount))

-- What the open gives: a handle of an empty file of the name, or no handle
abbrev OpenedEmpty : CString → Option ℕ → Tfs → Type 0
OpenedEmpty box_name r f =
    IsValid f × (((h : ℕ) × (r ≡ some h) × IsHandle f h × HasEmptyFile f box_name) ⊎ (r ≡ none))

module _ (s : Server) (v : IsServer s) (files : IsValid s.tfs) (box_name : CString)
    (size : length box_name ≡ 32) (some_name : 0 < strlen box_name)
    (unmoved : (i : ℕ) → Names s.tfs box_name i → IsUnmoved s.tfs i)
    (absent : IsAbsent s box_name) where
  module _ (i : ℕ) (in_range : i < 32) (unused : s.free_box_table i ≡ free) where
    abbrev new_box : Box
    new_box = named_box (s.server_boxes i) box_name
