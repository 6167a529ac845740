-- ===== src/Examples/Clients.antt =====
-- `FdHandle`, `IoUring` and `make_io_ring` at concrete inputs.
use century_ring.Common.{
  ℕ, suc, ◌≤◌, ◌≡◌, ◌≢◌, ◌↔◌, ◌⊎◌, refl, true, false, none, some, List, [], ◌∷◌, arith,
}
use century_ring.Common.Int.{pos, negsuc}
use century_ring.Common.Exec.{ok, err, Exec, ◌>>=◌, value_error, os_error, negative_offset}
use century_ring.Platform.Toy.{ToyRing, toy_crates, toy_platform, toy_os}
use century_ring.Handle.{FdHandle, HandleStore, from_completion_event, fd_of, close_called}
use century_ring.Handle
use century_ring.Handle.Laws.{
  HandleCall, from_event, closes_of, closed_handles, run_handle_calls, closed_at_most_once,
  close_outcomes, from_completion_event_outcomes,
}
use century_ring.Ring.State.{CompletionEvent, TheIoRing}
use century_ring.Ring.Create.{create_io_ring, is_too_old, build_options, new_ring}
use century_ring.Client.State.{object, World}
use century_ring.Client.Files.{prep_close}
use century_ring.Client.Session.{
  RingArgs, Scope, finished, new_world, new_scope, make_io_ring, created, create_args,
  positive_or_zero, run_and_close,
}
use century_ring.Client.Closing.{ClosesOrRaises, prep_close_outcomes, make_io_ring_closes}
use century_ring.Client.ClosedHandle.{
  prep_read, call, offset_of, RefusesHandle, closed_handle_refused,
}

abbrev opened_seven : CompletionEvent
opened_seven = record { user_data = 0; result = pos 7; buffer = none }

abbrev no_handles : HandleStore
no_handles = record { handles = []; close_calls = [] }

abbrev one_handle : HandleStore
one_handle = record { handles = record { fd = pos 7; close_called = false } ∷ []; close_calls = [] }

abbrev one_closed : HandleStore
one_closed = record { handles = record { fd = pos 7; close_called = true } ∷ []; close_calls = [] }

-- one handle that is closed twice
abbrev open_and_close_twice : List HandleCall
open_and_close_twice = from_event opened_seven ∷ HandleCall.close 0 ∷ HandleCall.exit 0 ∷ []

closed_at_most_once_example :
    closes_of (pos 7) (run_handle_calls open_and_close_twice no_handles).close_calls
    ≤ closed_handles (pos 7) (run_handle_calls open_and_close_twice no_handles).handles
closed_at_most_once_example =
    closed_at_most_once open_and_close_twice no_handles (λ fd. omega arith) (pos 7)

close_outcomes_example :
    let after = (Handle.close 0 one_handle).1 in
    (((false ≡ true) × (Handle.close 0 one_handle ≡ (ok tt, one_handle)))
      ⊎ ((false ≡ false)
          × (after.close_calls ≡ pos 7 ∷ [])
          × (((Handle.close 0 one_handle).0 ≡ ok tt) ↔ (toy_os.close [] (pos 7) ≡ none))))
    × (Handle.close 0 after ≡ (ok tt, after))
    × ((close_called 0 after).0 ≡ ok true)
close_outcomes_example =
    close_outcomes 0 one_handle (record { fd = pos 7; close_called = false }) refl

from_completion_event_outcomes_example :
    let (made, after) = from_completion_event opened_seven no_handles in
    ((false ≡ true) × (made ≡ err (os_error 7)) × (after ≡ no_handles))
    ⊎ ((false ≡ false)
        × (made ≡ ok 0)
        × (fd_of 0 after ≡ (ok (pos 7), after))
        × (close_called 0 after ≡ (ok false, after)))
from_completion_event_outcomes_example = from_completion_event_outcomes opened_seven no_handles

abbrev two_entries : RingArgs
two_entries = record {
  entries = pos 2;
  cq_size = none;
  sqpoll_idle_ms = none;
  single_issuer = true;
  autosubmit = true;
}

abbrev fresh_ring : TheIoRing ToyRing
fresh_ring = new_ring (record { cap = 2; queued = []; finished = [] }) true (λ _. true)

abbrev fresh_world : HandleStore → World ToyRing
fresh_world = new_world fresh_ring

prep_close_outcomes_example :
    let (result, after) = prep_close (object 0) none (fresh_world one_handle) in
    ClosesOrRaises 0 0 one_handle result after
prep_close_outcomes_example =
    prep_close_outcomes 0 none (fresh_world one_handle)
      (record { fd = pos 7; close_called = false }) refl

closed_handle_refused_example :
    let method = prep_read (pos 4) (pos 0) in
    let out = call method (object 0) none (fresh_world one_closed) in
    ((k : ℕ) × (offset_of method ≡ some (negsuc (suc k)))
      × (out ≡ (err (value_error (negative_offset (negsuc (suc k)))), fresh_world one_closed)))
    ⊎ (((k : ℕ) → offset_of method ≢ some (negsuc (suc k)))
        × RefusesHandle 0 (fresh_world one_closed) out)
closed_handle_refused_example =
    closed_handle_refused (prep_read (pos 4) (pos 0)) 0 none (fresh_world one_closed)
      (record { fd = pos 7; close_called = true }) refl refl

-- a block that closes the handle it was given, and counts that it has run
abbrev close_first : Exec (Scope ToyRing ℕ) ℕ
close_first s =
    let (x, w) = prep_close (object 0) none s.world in
    (x, record { world = w; outer = suc s.outer })

abbrev after_block : Scope ToyRing ℕ
after_block = (run_and_close close_first (new_scope fresh_ring one_handle 0)).1

block_ran :
    make_io_ring two_entries close_first one_handle 0
    ≡ finished (close_first (new_scope fresh_ring one_handle 0)).0 after_block
unfolding make_io_ring run_and_close create_args positive_or_zero create_io_ring is_too_old
    build_options ◌>>=◌
block_ran = refl

make_io_ring_closes_example :
    (ring : TheIoRing ToyRing) × ((created two_entries one_handle).0 ≡ ok ring)
    × ((close_first (new_scope fresh_ring one_handle 0)).0
        ≡ (close_first (new_scope ring one_handle 0)).0)
    × (after_block.world.store ≡ (close_first (new_scope ring one_handle 0)).1.world.store)
    × (after_block.outer ≡ (close_first (new_scope ring one_handle 0)).1.outer)
    × (after_block.world.process.ring.the_io_uring ≡ none)
make_io_ring_closes_example =
    make_io_ring_closes two_entries close_first one_handle 0
      (close_first (new_scope fresh_ring one_handle 0)).0 after_block block_ran
