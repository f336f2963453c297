-- ===== src/Broker/Sessions/Whole.antt =====
-- The whole session of a publisher.
use mbroker_tfs.Base.{ℕ, ◌≡◌, ◌⊎◌, Option, none, some}
use mbroker_tfs.Tfs.State.{Tfs}
use mbroker_tfs.Tfs.Invariant.{IsValid}
use mbroker_tfs.Tfs.Returns.{Returns}
use mbroker_tfs.Tfs.Open.Existing.{HasHandle, SameHandles}
use mbroker_tfs.Broker.Boxes.{Server, put_box}
use mbroker_tfs.Broker.Sessions.{SessionEnd, refused, served}
use mbroker_tfs.Broker.Sessions.Live.{IsLeft}

-- What `tfs_open` with TFS_O_APPEND gives a session: a new handle, or nothing has changed in the table.
abbrev pub HandleGiven : Tfs → Option ℕ → Tfs → Type 0
HandleGiven f r g =
    IsValid g
    × (((h : ℕ) × (r ≡ some h) × (i offset : ℕ) × HasHandle f i offset h g)
        ⊎ ((r ≡ none) × SameHandles f g))

module _ (s : Server) (v : IsValid s.tfs) (i : ℕ)
    (alone : (s.server_boxes i).n_publishers ≡ 0) where
  -- The box counts the publisher.
  abbrev entered : Server
  entered = put_box i (record (s.server_boxes i) { n_publishers = 1 }) s

-- How a whole session of a publisher ends, and that nothing of it is left
abbrev pub SessionLeft : Server → SessionEnd → Server → Type 0
SessionLeft s r t = ((r ≡ served) ⊎ (r ≡ refused)) × IsLeft s t
