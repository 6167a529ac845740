-- ===== src/Examples/Managers.antt =====
-- `UringIoManager` at concrete inputs: two tasks wait, and the event of one of them comes.
use century_ring.Common.{
  ℕ, ◌≡◌, ◌≢◌, ◌⊎◌, refl, Bool, true, false, none, some, List, [], ◌∷◌, ◌++◌, map, ◌==◌, ◌&&◌,
  if◌then◌else◌, arith,
}
use century_ring.Common.Int.{pos, abs, is_negative}
use century_ring.Common.Dict.{lookup, insert, remove}
use century_ring.Common.Exec.{Error, ok, err, os_error}
use century_ring.Platform.{Op, Sqe, Cqe}
use century_ring.Platform.Toy.{ToyRing, toy_crates, toy_platform, toy_laws}
use century_ring.Ring.State.{CompletionEvent}
use century_ring.Ring.Reap.{drain, should_be_ignored}
use century_ring.Ring.Completions.{entry_of}
use century_ring.Client.Queue
use century_ring.Manager.Toy.{ToyStreams, toy_streams, toy_stream_laws}
use century_ring.Manager.Dispatch.{
  Waiting, UringIoManager, add_waiter, dispatch, dispatch_event_results, start_waiting,
  finish_waiting,
}
use century_ring.Manager.Routing.{first_for, if_none_left, dispatch_delivers}
use century_ring.Manager.Steps.{
  Steps, starts, awaits, dispatches, next, stop, nobody_waits, waiters_apart,
}
use century_ring.Manager.Unheard.{others, unheard_dropped}
use century_ring.Manager.Once.{handed_at_most_once}
use century_ring.Manager.Completed.{wait_for_completion_outcomes}
use century_ring.Manager.Rounds.{round_delivers, start_waiting_outcomes}

abbrev no_streams : ToyStreams
no_streams = record { made = 0; awaited = λ _. false; given = λ _. [] }

-- for the user data 4 and 5, the first with its task at `receive()`
abbrev two_wait : Waiting ToyStreams
two_wait =
    let w = add_waiter 5 (add_waiter 4 (nobody_waits no_streams)) in
    record w { streams = toy_streams.receive 0 w.streams }

two_start : Steps (nobody_waits no_streams) two_wait
two_start = next (starts 4) (next (starts 5) (next (awaits 0) stop))

first_waits : lookup 4 two_wait.waiters ≡ some 0
unfolding add_waiter lookup insert remove
first_waits = refl

second_waits : lookup 5 two_wait.waiters ≡ some 1
unfolding add_waiter lookup insert remove
second_waits = refl

first_awaits : two_wait.streams.awaited 0 ≡ true
unfolding add_waiter
first_awaits = refl

waiters_apart_example : ◌≢◌ {A = ℕ} 0 1
waiters_apart_example =
    waiters_apart toy_stream_laws {s = no_streams} {w = two_wait} 4 5 0 1 two_start
      (λ e. ground arith) first_waits second_waits

first_alone : (v j : ℕ) → v ≢ 4 → lookup v two_wait.waiters ≡ some j → 0 ≢ j
first_alone v j other there =
    waiters_apart toy_stream_laws {s = no_streams} {w = two_wait} 4 v 0 j two_start
      (λ e. ground arith) first_waits there

abbrev four_done : CompletionEvent
four_done = record { user_data = 4; result = pos 7; buffer = none }

abbrev six_done : CompletionEvent
six_done = record { user_data = 6; result = pos 0; buffer = none }

dispatch_delivers_example :
    let after = dispatch (six_done ∷ four_done ∷ []) two_wait in
    (after.streams.given 0 ≡ two_wait.streams.given 0 ++ first_for 4 (six_done ∷ four_done ∷ []))
    × (lookup 4 after.waiters ≡ if_none_left (first_for 4 (six_done ∷ four_done ∷ [])) 0)
dispatch_delivers_example =
    dispatch_delivers toy_stream_laws 4 0 (six_done ∷ four_done ∷ []) two_wait first_waits
      first_awaits first_alone

abbrev opening : Sqe
opening = record { op = Op.close (pos 3); flags = 0; user_data = 4 }

abbrev has_finished : ToyRing
has_finished = record { cap = 2; queued = []; finished = opening ∷ [] }

abbrev manager : Bool → UringIoManager ToyRing ToyStreams
manager forced = record {
  world = record {
    process = record {
      ring = record {
        the_io_uring = some has_finished;
        probe = λ _. true;
        user_data_counter = 6;
        autosubmit = true;
        owned_data = [];
      };
      next_block = 0;
    };
    store = record { handles = []; close_calls = [] };
  };
  waiting = two_wait;
  force_submissions = forced;
}

round_delivers_example :
    let (result, after) = dispatch_event_results 2 (manager false) in
    (entries : List Cqe) × (events : List CompletionEvent) × ((drain 2 [] has_finished).0
      ≡ ok entries)
    × (map entry_of events ≡ entries)
    × (result ≡ ok tt)
    × (after.waiting.streams.given 0 ≡ two_wait.streams.given 0 ++ first_for 4 events)
round_delivers_example =
    round_delivers toy_laws toy_stream_laws 2 (manager false) {r = has_finished}
      {start = no_streams} 4 0 refl (omega arith) two_start first_waits first_awaits

start_waiting_outcomes_example :
    let s = manager true in
    let (result, after) = start_waiting 5 s in
    ((e : Error) × (true ≡ true)
      × ((Queue.submit s.world).0 ≡ err e)
      × (result ≡ err e)
      × (after.world ≡ (Queue.submit s.world).1)
      × (after.waiting ≡ two_wait))
    ⊎ ((result ≡ ok tt)
        × (after.world ≡ (Queue.submit s.world).1)
        × (true ≡ true → (n : ℕ) × ((Queue.submit s.world).0 ≡ ok n))
        × (after.waiting.streams ≡ (toy_streams.create two_wait.streams).1)
        × ((v : ℕ)
            → lookup v after.waiting.waiters ≡ (
                if v == 5
                then some (toy_streams.create two_wait.streams).0
                else lookup v two_wait.waiters)))
start_waiting_outcomes_example = start_waiting_outcomes 5 (manager true)

nobody_for_six : lookup 6 two_wait.waiters ≡ none
unfolding add_waiter lookup insert remove
nobody_for_six = refl

unheard_dropped_example :
    let events = six_done ∷ four_done ∷ [] in
    (dispatch events two_wait ≡ dispatch (others 6 events) two_wait)
    × (lookup 6 (dispatch events two_wait).waiters ≡ none)
unheard_dropped_example = unheard_dropped 6 (six_done ∷ four_done ∷ []) two_wait nobody_for_six

abbrev four_dispatched : Waiting ToyStreams
four_dispatched = dispatch (six_done ∷ four_done ∷ four_done ∷ []) two_wait

-- the other task starts, the first awaits its stream, and three events are dispatched
four_after : Steps (add_waiter 4 (nobody_waits no_streams)) four_dispatched
four_after =
    next (starts 5)
      (next (awaits 0) (next (dispatches (six_done ∷ four_done ∷ four_done ∷ [])) stop))

handed_at_most_once_example :
    (four_dispatched.streams.given 0 ≡ [])
    ⊎ ((event : CompletionEvent) × (four_dispatched.streams.given 0 ≡ event ∷ [])
        × (event.user_data ≡ 4)
        × (should_be_ignored event ≡ false))
handed_at_most_once_example =
    handed_at_most_once toy_stream_laws {start = no_streams} {w = nobody_waits no_streams}
      {w' = four_dispatched} 4 stop four_after

-- another task starts, and the first comes to await its stream, before the round
wait_for_completion_outcomes_example :
    let (result, after) = dispatch_event_results 2 (manager false) in
    let received = after.waiting.streams.given 0 in
    (entries : List Cqe) × (events : List CompletionEvent) × ((drain 2 [] has_finished).0
      ≡ ok entries)
    × (map entry_of events ≡ entries)
    × (result ≡ ok tt)
    × (((first_for 4 events ≡ []) × (received ≡ []))
        ⊎ ((event : CompletionEvent) × (first_for 4 events ≡ event ∷ [])
            × (received ≡ event ∷ [])
            × (event.user_data ≡ 4)
            × (should_be_ignored event ≡ false)
            × (finish_waiting true event ≡ (
                if true && is_negative event.result
                then err (os_error (abs event.result))
                else ok event))))
wait_for_completion_outcomes_example =
    wait_for_completion_outcomes toy_laws toy_stream_laws 2 true (manager false) {r = has_finished}
      {start = no_streams} {w = nobody_waits no_streams} 4 stop
      (next (starts 5) (next (awaits 0) stop)) first_waits first_awaits refl (omega arith)
