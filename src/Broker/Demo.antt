-- ===== src/Broker/Demo.antt =====
-- A broker with one box, with and without a session of a publisher and one of a subscriber.
use mbroker_tfs.Base.{ℕ, refl, [], ◌∷◌, replicate, update, CString, arith}
use mbroker_tfs.Tfs.State.{free, taken}
use mbroker_tfs.Tfs.Demo.{large, large-IsValid, quiet}
use mbroker_tfs.Broker.{Box, normal}
use mbroker_tfs.Broker.Boxes.{Server, box_alloc, named_box}
use mbroker_tfs.Broker.Sessions.Deliver.{IsReady}

abbrev pub name_a : CString
name_a = b'a' ∷ replicate 31 0

abbrev pub any_box : ℕ → Box
any_box i = record {
  path = [];
  n_subscribers = 5;
  n_publishers = 5;
  box_size = 5;
  pub_pipe_name = replicate 256 1;
  status = normal;
}

abbrev pub new_box : Box
new_box = named_box (box_alloc (any_box 0)) name_a

-- A broker with one box
abbrev pub running : Server
running = record {
  tfs = quiet;
  server_boxes = update (λ i. box_alloc (any_box i)) 0 new_box;
  free_box_table = update (λ _. free) 0 taken;
  box_amount = 1;
}

-- A publisher with handle 0 and a subscriber with handle 1 of the file of box 0
abbrev pub talking : Server
talking = record running { tfs = large }

pub talking-IsReady : IsReady talking 0 0
talking-IsReady = record {
  files = large-IsValid;
  is_open = ground arith;
  status = refl;
  has_room = ground arith;
  some_block = λ n. ground arith;
}
