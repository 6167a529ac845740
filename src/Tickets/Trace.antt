-- ===== src/Tickets/Trace.antt =====
-- What a user sees of a sequence of calls of pysrc/century_ring/ring.py.
use century_ring.Common.{ℕ, List, [], ◌∷◌, ◌++◌, if◌then◌else◌}
use century_ring.Common.Exec.{Result, ok, err}
use century_ring.Platform.{Crates, Platform, Os}
use century_ring.Ring.State.{CompletionEvent}
use century_ring.Ring.Reap.{should_be_ignored}
use century_ring.Client.State.{World}
use century_ring.Client.Methods.{call_method}
use century_ring.Client.Queue
use century_ring.Memory.Sequence.{Call, prepare, quietly, get_completion_entries, run_call}
use century_ring.Tickets.Protocol.{Event, issued, reported}

abbrev pub issued_by : Result ℕ → List Event
issued_by (ok u) = issued u ∷ []
issued_by (err e) = []

-- Events that `should_be_ignored` marks are not the user's.
abbrev pub reports : List CompletionEvent → List Event
reports [] = []
reports (event ∷ events) =
    if should_be_ignored event then reports events else reported event.user_data ∷ reports events

abbrev pub reported_by : Result (List CompletionEvent) → List Event
reported_by (ok events) = reports events
reported_by (err e) = []

module _ {R : Type 0} ⦃c : Crates⦄ ⦃p : Platform R⦄ ⦃o : Os⦄ where
  abbrev pub seen : Call → World R → List Event
  seen (prepare method) w = issued_by (call_method method w).0
  seen (quietly call) w = []
  seen (get_completion_entries batches) w = reported_by (Queue.get_completion_entries batches w).0

  unfoldable pub trace : List Call → World R → List Event
  trace [] w = []
  trace (call ∷ calls) w = seen call w ++ trace calls (run_call call w)
