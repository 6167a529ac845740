-- ===== src/Tickets/Refines.antt =====
-- Sequences of calls of `IoUring` (pysrc/century_ring/ring.py) follow the protocol.
use century_ring.Common.{ℕ, suc, ◌+◌, ◌≤◌, ◌<◌, ◌≡◌, List, [], ◌∷◌, length, arith}
use century_ring.Common.Exec.{ok}
use century_ring.Platform.{Crates, Platform, Os}
use century_ring.Platform.Laws.{CrateLaws, PlatformLaws}
use century_ring.Ring.State.{TheIoRing}
use century_ring.Ring.Create.{CreateArgs, create_io_ring}
use century_ring.Handle.{HandleStore}
use century_ring.Client.State.{World}
use century_ring.Client.Session.{new_world}
use century_ring.Client.Queue
use century_ring.Client.Outcome.Methods.{method_outcomes}
use century_ring.Memory.Invariant.{reserved}
use century_ring.Memory.QuietCalls.{run_quiet-Quiet}
use century_ring.Memory.Reap.{get_completion_entries-counter}
use century_ring.Memory.Sequence.{Call, prepare, quietly, get_completion_entries, run_call}
use century_ring.Memory.Created.{IsNew, create_io_ring-IsNew}
use century_ring.Tickets.Protocol.{
  Allowed, stop, issued_once, reports-issues, issues_of, reports_of,
}
use century_ring.Tickets.Trace.{trace}
use century_ring.Tickets.Steps.{
  Follows, method-Allowed, Quiet-Follows, reap-Allowed, method-counter,
}

module _ {R : Type 0} ⦃c : Crates⦄ ⦃p : Platform R⦄ ⦃o : Os⦄ (claws : CrateLaws)
    (laws : PlatformLaws R) where
  run_call-counter :
      (call : Call) (w : World R)
      → w.process.user_data_counter < reserved
      → (run_call call w).process.user_data_counter ≤ suc w.process.user_data_counter
  unfolding run_call Queue.get_completion_entries
  run_call-counter (prepare method) w low =
      method-counter laws w low (method_outcomes claws laws w (omega (arith, low)) method)
  run_call-counter (quietly call) w low = rw (run_quiet-Quiet laws w call).same (omega arith)
  run_call-counter (get_completion_entries batches) w low =
      rw (get_completion_entries-counter batches w.process) (omega arith)

  trace-Allowed :
      (calls : List Call) (w : World R) (next : ℕ) (in_flight : List ℕ)
      → w.process.user_data_counter + length calls ≤ reserved
      → Follows laws next in_flight w.process.ring
      → Allowed next in_flight (trace calls w)
  unfolding trace run_call Queue.get_completion_entries
  trace-Allowed [] w next in_flight few h = stop
  trace-Allowed (prepare method ∷ calls) w next in_flight few h =
      let after = run_call (prepare method) w in
      let grown = run_call-counter (prepare method) w (omega (arith, few)) in
      method-Allowed laws next in_flight w (trace calls after) (omega (arith, few)) h
        (method_outcomes claws laws w (omega (arith, few)) method)
        (λ n l. trace-Allowed calls after n l (omega (arith, few, grown)))
  trace-Allowed (quietly call ∷ calls) w next in_flight few h =
      let after = run_call (quietly call) w in
      let grown = run_call-counter (quietly call) w (omega (arith, few)) in
      trace-Allowed calls after next in_flight (omega (arith, few, grown))
        (Quiet-Follows laws next in_flight w.process after.process (run_quiet-Quiet laws w call) h)
  trace-Allowed (get_completion_entries batches ∷ calls) w next in_flight few h =
      let after = run_call (get_completion_entries batches) w in
      let grown = run_call-counter (get_completion_entries batches) w (omega (arith, few)) in
      reap-Allowed laws next in_flight batches w.process (trace calls after) h
        (λ n l. trace-Allowed calls after n l (omega (arith, few, grown)))

  IsNew-Follows : (ring : TheIoRing R) → IsNew laws ring → Follows laws 0 [] ring
  IsNew-Follows ring (empty, start) = record {
    fresh = omega arith;
    known = record { counts = λ u ours. rw empty (omega arith) };
  }

  -- For every way to create the ring and every sequence of up to 2^63 calls of the methods of
  -- `IoUring` and of handles, raising or not, with any arguments: what the calls return follows the
  -- protocol. Each user data that a preparing method returns is greater than all before it, and
  -- each completion event that is not to be ignored answers one of those that have been returned and
  -- not yet answered.
  pub follows_protocol :
      (a : CreateArgs) (ring : TheIoRing R) (store : HandleStore) (calls : List Call)
      → create_io_ring a ≡ ok ring
      → length calls ≤ reserved
      → Allowed 0 [] (trace calls (new_world ring store))
  follows_protocol a ring store calls made few =
      let new = create_io_ring-IsNew laws a ring made in
      trace-Allowed calls (new_world ring store) 0 [] (omega (arith, few, new.1))
        (IsNew-Follows ring new)

  -- Under the same conditions, a number is returned by at most one of the preparing methods, and
  -- comes back in at most as many events that are not to be ignored: at most once, and never without
  -- having been returned.
  pub answered_at_most_once :
      (a : CreateArgs) (ring : TheIoRing R) (store : HandleStore) (calls : List Call) (u : ℕ)
      → create_io_ring a ≡ ok ring
      → length calls ≤ reserved
      → let seen = trace calls (new_world ring store) in
        (reports_of u seen ≤ issues_of u seen) × (issues_of u seen ≤ 1)
  answered_at_most_once a ring store calls u made few =
      let allowed = follows_protocol a ring store calls made few in
      (omega (arith, reports-issues u allowed), issued_once u allowed)
