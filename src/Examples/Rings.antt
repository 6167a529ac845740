-- ===== src/Examples/Rings.antt =====
-- The ring object at concrete inputs: a queue of two entries that is full, and one whose operations
-- have completed.
use century_ring.Common.{
  ℕ, ◌<◌, ◌≡◌, ◌≢◌, ◌⊎◌, inr, refl, Bool, true, false, none, some, List, [], ◌∷◌, get_elem?, map,
  arith,
}
use century_ring.Common.Int.{ℤ, pos}
use century_ring.Common.Exec.{
  ok, err, value_error, ring_closed, entries_zero, kernel_unsupported, out_of_fuel,
}
use century_ring.Platform.{Op, Sqe, Cqe, BuildOptions}
use century_ring.Platform.Toy.{ToyRing, toy_crates, toy_platform, toy_laws}
use century_ring.Ring.State.{Process, CompletionEvent, buffer, close}
use century_ring.Ring.Queue.{
  autosubmit, autosubmit_loop, submit, wait, wait_with_timeout, pending_sq_entries,
  register_eventfd,
}
use century_ring.Ring.Reap.{get_completion_entries, drain}
use century_ring.Ring.Autosubmit.{autosubmit_succeeds, autosubmit_loop-eq-tries, first_try}
use century_ring.Ring.Reads.{ReadsAll}
use century_ring.Ring.Completions.{Reported, get_completion_entries_reports}
use century_ring.Ring.Termination.{autosubmit_loop_terminates, get_completion_entries_terminates}
use century_ring.Ring.Returned.{buffers_for, get_completion_entries_buffers}
use century_ring.Ring.Counter.{issue, user_data_distinct}
use century_ring.Ring.Closed.{closed_ring_refuses}
use century_ring.Ring.Create.{create_io_ring, CreateArgs}
use century_ring.Ring.Accepted.{BuildOutcome, IsAsked, IsOld, IsSupported, create_io_ring_outcomes}

abbrev read_four : Sqe
read_four = record { op = Op.read (pos 3) 0 4 0; flags = 0; user_data = 0 }

abbrev close_three : Sqe
close_three = record { op = Op.close (pos 3); flags = 0; user_data = 1 }

abbrev full : ToyRing
full = record { cap = 2; queued = close_three ∷ read_four ∷ []; finished = [] }

abbrev done_reading : ToyRing
done_reading = record { cap = 2; queued = []; finished = read_four ∷ [] }

abbrev ring_of : Bool → ToyRing → Process ToyRing
ring_of enabled r = record {
  ring = record {
    the_io_uring = some r;
    probe = λ _. true;
    user_data_counter = 2;
    autosubmit = enabled;
    owned_data = (0, record { block = 0; content = buffer (0 ∷ 0 ∷ 0 ∷ 0 ∷ []) }) ∷ [];
  };
  next_block = 1;
}

autosubmit_succeeds_example : (autosubmit close_three (ring_of true full)).0 ≡ ok tt
autosubmit_succeeds_example =
    autosubmit_succeeds toy_laws close_three (ring_of true full) {r = full} {n = 2} refl refl
      (inr (refl, omega arith))

autosubmit_loop-eq-tries_example :
    autosubmit_loop 2 false true close_three full ≡ first_try true close_three full none
autosubmit_loop-eq-tries_example = autosubmit_loop-eq-tries 0 true close_three full

get_completion_entries_reports_example :
    let out = get_completion_entries 2 (ring_of true done_reading) in
    (entries : List Cqe) × (events : List CompletionEvent) × (r' : ToyRing) × ReadsAll done_reading
      entries r'
    × (drain 2 [] done_reading ≡ (ok entries, r'))
    × (out.0 ≡ ok events)
    × (out.1.the_io_uring ≡ some r')
    × Reported entries (ring_of true done_reading) events out.1
get_completion_entries_reports_example =
    get_completion_entries_reports toy_laws 2 (ring_of true done_reading) {r = done_reading} refl
      (omega arith)

user_data_distinct_example :
    (numbers : List ℕ) × ((issue 3 (ring_of true full)).0 ≡ ok numbers)
    × (get_elem? numbers 0 ≢ get_elem? numbers 2)
user_data_distinct_example =
    user_data_distinct 3 0 2 (ring_of true full) (omega arith) (omega arith) (omega arith)
      (omega arith)

closed_ring_refuses_example :
    let closed = (close (ring_of true full)).1 in
    (((close (ring_of true full)).0 ≡ ok tt) × (close closed ≡ (ok tt, closed)))
    × (submit closed ≡ (err (value_error ring_closed), closed))
    × ((want : ℕ) → wait want closed ≡ (err (value_error ring_closed), closed))
    × ((sec nsec : ℕ) → wait_with_timeout sec nsec closed ≡ (err (value_error ring_closed), closed))
    × (pending_sq_entries closed ≡ (err (value_error ring_closed), closed))
    × ((batches : ℕ)
        → get_completion_entries batches closed ≡ (err (value_error ring_closed), closed))
    × ((fd : ℤ) → register_eventfd fd closed ≡ (err (value_error ring_closed), closed))
    × ((entry : Sqe) → autosubmit entry closed ≡ (err (value_error ring_closed), closed))
closed_ring_refuses_example = closed_ring_refuses (ring_of true full)

abbrev sixteen : CreateArgs
sixteen = record {
  entries = 16;
  cq_entries = 64;
  sqlpoll_idle_ms = 0;
  single_issuer = true;
  autosubmit = true;
}

create_io_ring_outcomes_example :
    ((sixteen.entries ≡ 0)
      × (create_io_ring {R = ToyRing} sixteen ≡ err (value_error entries_zero)))
    ⊎ ((0 < sixteen.entries)
        × (IsOld (6, 1))
        × (create_io_ring {R = ToyRing} sixteen ≡ err (kernel_unsupported 6 1)))
    ⊎ ((0 < sixteen.entries)
        × IsSupported (6, 1)
        × ((o : BuildOptions) × IsAsked (6, 1) sixteen o
            × BuildOutcome sixteen o (create_io_ring {R = ToyRing} sixteen)))
create_io_ring_outcomes_example = create_io_ring_outcomes sixteen

autosubmit_loop_terminates_example :
    (autosubmit_loop 5 false true read_four full ≡ autosubmit_loop 2 false true read_four full)
    × ((autosubmit_loop 5 false true read_four full).0 ≢ err out_of_fuel)
autosubmit_loop_terminates_example = autosubmit_loop_terminates 5 true read_four full (omega arith)

get_completion_entries_terminates_example :
    (get_completion_entries 2 (ring_of true done_reading)
      ≡ get_completion_entries 7 (ring_of true done_reading))
    × ((get_completion_entries 2 (ring_of true done_reading)).0 ≢ err out_of_fuel)
get_completion_entries_terminates_example =
    get_completion_entries_terminates toy_laws 2 7 (ring_of true done_reading) {r = done_reading}
      refl (omega arith) (omega arith)

get_completion_entries_buffers_example :
    (entries : List Cqe) × (events : List CompletionEvent) × ((drain 2 [] done_reading).0
      ≡ ok entries)
    × ((get_completion_entries 2 (ring_of true done_reading)).0 ≡ ok events)
    × (map (λ event. event.buffer) events
        ≡ buffers_for (drain 2 [] done_reading).1 (ring_of true done_reading).owned_data [] entries)
get_completion_entries_buffers_example =
    get_completion_entries_buffers toy_laws 2 (ring_of true done_reading) {r = done_reading} refl
      (omega arith)
