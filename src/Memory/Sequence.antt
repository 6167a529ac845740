-- ===== src/Memory/Sequence.antt =====
-- Sequences of calls: pysrc/century_ring/ring.py and handle.py as a user drives them.
use century_ring.Common.{ℕ, suc, ◌+◌, ◌≤◌, ◌<◌, List, [], ◌∷◌, length, arith}
use century_ring.Platform.{Crates, Platform, Os}
use century_ring.Platform.Laws.{CrateLaws, PlatformLaws}
use century_ring.Client.State.{World}
use century_ring.Client.Methods.{Method, call_method}
use century_ring.Client.Outcome.Methods.{method_outcomes}
use century_ring.Client.Queue
use century_ring.Memory.Invariant.{reserved, IsSafe}
use century_ring.Memory.Settled.{Settled, method-Settled, Quiet-Settled}
use century_ring.Memory.Reap.{get_completion_entries-IsSafe, get_completion_entries-counter}
use century_ring.Memory.QuietCalls.{QuietCall, run_quiet, run_quiet-Quiet}

-- A call: of a method that prepares an operation, of one that neither prepares nor reaps, or of the
-- one that reaps, with its fuel.
pub data Call : Type 0 where
  prepare : Method → Call
  quietly : QuietCall → Call
  get_completion_entries : ℕ → Call

module _ {R : Type 0} ⦃c : Crates⦄ ⦃p : Platform R⦄ ⦃o : Os⦄ where
  -- The state after a call; an exception that it raises is caught, or ends the sequence here.
  unfoldable pub run_call : Call → World R → World R
  run_call (prepare method) w = (call_method method w).1
  run_call (quietly call) w = run_quiet call w
  run_call (get_completion_entries batches) w = (Queue.get_completion_entries batches w).1

  unfoldable pub run_calls : List Call → World R → World R
  run_calls [] w = w
  run_calls (call ∷ calls) w = run_calls calls (run_call call w)

module _ {R : Type 0} ⦃c : Crates⦄ ⦃p : Platform R⦄ ⦃o : Os⦄ (claws : CrateLaws)
    (laws : PlatformLaws R) where
  abbrev WorldWithin : ℕ → World R → Type 0
  WorldWithin n w = Settled laws n w.process.ring

  pub run_call-WorldWithin :
      (limit : ℕ) (call : Call) (w : World R)
      → limit < reserved
      → WorldWithin limit w
      → WorldWithin (suc limit) (run_call call w)
  unfolding run_call Queue.get_completion_entries
  run_call-WorldWithin limit (prepare method) w low h =
      method-Settled laws limit w low h
        (method_outcomes claws laws w (omega (arith, h.counted)) method)
  run_call-WorldWithin limit (quietly call) w low h =
      Quiet-Settled laws limit w.process (run_quiet call w).process (run_quiet-Quiet laws w call) h
  run_call-WorldWithin limit (get_completion_entries batches) w low h = record {
    safe = get_completion_entries-IsSafe laws batches w.process h.safe;
    counted = rw (get_completion_entries-counter batches w.process) (omega (arith, h.counted));
  }

  pub run_calls-WorldWithin :
      (calls : List Call) (limit : ℕ) (w : World R)
      → limit + length calls ≤ reserved
      → WorldWithin limit w
      → WorldWithin (limit + length calls) (run_calls calls w)
  unfolding run_calls
  run_calls-WorldWithin [] limit w r h = record {
    safe = h.safe;
    counted = omega (arith, h.counted);
  }
  run_calls-WorldWithin (call ∷ calls) limit w r h =
      let rest =
        run_calls-WorldWithin calls (suc limit) (run_call call w) (omega arith)
          (run_call-WorldWithin limit call w (omega arith) h) in
      record { safe = rest.safe; counted = omega (arith, rest.counted) }

  -- Calls of any methods keep the invariant, whether they return or raise, as long as they
  -- can draw no user data from 2^63 on: the allocations that outstanding entries point into are owned,
  -- and no entry but a timeout points into a stack frame.
  pub run_calls-IsSafe :
      (calls : List Call) (w : World R)
      → w.process.user_data_counter + length calls ≤ reserved
      → IsSafe laws w.process.ring
      → IsSafe laws (run_calls calls w).process.ring
  run_calls-IsSafe calls w few safe =
      (run_calls-WorldWithin calls w.process.user_data_counter w few
        (record { safe = safe; counted = omega arith })).safe
