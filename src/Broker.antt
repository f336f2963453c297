-- ===== src/Broker.antt =====
-- The broker: what it keeps of boxes and sessions (p2/mbroker/data.h, p2/mbroker/data.c,
-- p2/mbroker/mbroker.c).
pub mod Listen
pub mod Listing
pub mod Replies
pub mod Boxes
pub mod Sessions
pub mod Demo
mod Tests
use mbroker_tfs.Base.{ℕ, List, drop}

-- `session_t`
pub record Session : Type 0 where
  pub code : ℕ
  pub box_name : List ℕ
  pub pipe_name : List ℕ

pub data BoxStatus : Type 0 where
  normal closed : BoxStatus

-- `box_t`: `path` holds a slash and then the name, at which `name` points.
pub record Box : Type 0 where
  pub path : List ℕ
  pub n_subscribers : ℕ
  pub n_publishers : ℕ
  pub box_size : ℕ
  pub pub_pipe_name : List ℕ
  pub status : BoxStatus

abbrev pub name : Box → List ℕ
name b = drop 1 b.path
