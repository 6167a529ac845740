-- ===== src/Examples/Timeouts.antt =====
-- A platform whose waiting submissions fail, and a timeout that is left in its queue.
use century_ring.Common.{true, some, [], ◌∷◌, arith}
use century_ring.Platform.{Platform, failed}
use century_ring.Platform.Toy.{ToyRing, toy_crates, toy_platform, toy_laws}
use century_ring.Platform.Laws.{PlatformLaws}
use century_ring.Ring.State.{Process}
use century_ring.Ring.Queue.{timeout_entry}

-- EAGAIN, and nothing is taken from the queue
abbrev starved : Platform ToyRing
starved = record toy_platform { submit_and_wait = λ want r. (failed 11, r) }

abbrev starved_laws : PlatformLaws ToyRing ⦃p = starved⦄
starved_laws = record {
  outstanding = toy_laws.outstanding;
  capacity = toy_laws.capacity;
  batches = toy_laws.batches;
  push_adds = toy_laws.push_adds;
  push_room = toy_laws.push_room;
  submit_keeps = toy_laws.submit_keeps;
  submit_counts = toy_laws.submit_counts;
  submit_capacity = toy_laws.submit_capacity;
  wait_keeps = λ want r s m. m;
  wait_counts = λ want r u. omega arith;
  completion_keeps = toy_laws.completion_keeps;
  completion_counts = toy_laws.completion_counts;
  completion_ends = toy_laws.completion_ends;
  eventfd_keeps = toy_laws.eventfd_keeps;
  build_empty = toy_laws.build_empty;
}

abbrev idle_ring : ToyRing
idle_ring = record { cap = 2; queued = []; finished = [] }

abbrev with_timeout : ToyRing
with_timeout = record { cap = 2; queued = timeout_entry 1 0 ∷ []; finished = [] }

abbrev idle : Process ToyRing
idle = record {
  ring = record {
    the_io_uring = some idle_ring;
    probe = λ _. true;
    user_data_counter = 0;
    autosubmit = true;
    owned_data = [];
  };
  next_block = 0;
}
