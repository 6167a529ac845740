-- ===== src/Manager/Dispatch.antt =====
-- pysrc/century_ring/aio/manager.py: `UringIoManager`. Its dispatching task and the tasks that wait
-- run one at a time, and switch only where they await something: the definitions are the stretches
-- of code between two such places.
use century_ring.Common.{ℕ, Bool, true, false, Option, none, some, List, [], ◌∷◌, if◌then◌else◌}
use century_ring.Common.Dict.{Dict, lookup, insert, remove}
use century_ring.Common.Exec.{Result, ok, err, Exec, pure, modify, ◌>>=◌, ◌>>◌}
use century_ring.Platform.{Crates, Platform}
use century_ring.Helpers.{raise_for_cqe}
use century_ring.Ring.State.{CompletionEvent}
use century_ring.Ring.Reap.{should_be_ignored}
use century_ring.Client.State.{World}
use century_ring.Client.Queue
use century_ring.Manager.Anyio.{Sending, sent, would_block, broken_resource, Streams}

-- `_completion_waiters`, a stream for each user data that is waited for, and the streams themselves
pub record Waiting (S : Type 0) : Type 0 where
  pub waiters : Dict ℕ
  pub streams : S

pub record UringIoManager (R S : Type 0) : Type 0 where
  pub world : World R
  pub waiting : Waiting S
  pub force_submissions : Bool

module _ {S : Type 0} ⦃st : Streams S⦄ where
  -- the `try` statement, when the waiter has been popped
  abbrev pub after_send : ℕ → Dict ℕ → Sending × S → Waiting S
  after_send stream waiters (sent, s) = record { waiters = waiters; streams = st.close stream s }
  after_send stream waiters (would_block, s) = record { waiters = waiters; streams = s }
  after_send stream waiters (broken_resource, s) = record { waiters = waiters; streams = s }

  -- `if waiter is None: continue`
  abbrev pub send_to : CompletionEvent → Waiting S → Option ℕ → Waiting S
  send_to event w none = w
  send_to event w (some stream) =
      after_send stream (remove event.user_data w.waiters) (st.send_nowait stream event w.streams)

  -- the body of the `for` loop
  unfoldable pub dispatch_event : CompletionEvent → Waiting S → Waiting S
  dispatch_event event w =
      if should_be_ignored event then w else send_to event w (lookup event.user_data w.waiters)

  -- the `for` loop
  unfoldable pub dispatch : List CompletionEvent → Waiting S → Waiting S
  dispatch [] w = w
  dispatch (event ∷ events) w = dispatch events (dispatch_event event w)

  -- `create_memory_object_stream`, whose sending end becomes the waiter; an older waiter for the
  -- same user data is forgotten
  unfoldable pub add_waiter : ℕ → Waiting S → Waiting S
  add_waiter user_data w =
      let (stream, s) = st.create w.streams in
      record { waiters = insert user_data stream w.waiters; streams = s }

module _ {R S A : Type 0} where
  abbrev on_world : Exec (World R) A → Exec (UringIoManager R S) A
  on_world m s = let (x, w) = m s.world in (x, record s { world = w })

module _ {R S : Type 0} ⦃c : Crates⦄ ⦃p : Platform R⦄ ⦃st : Streams S⦄ where
  -- One round of `_dispatch_event_results`, from the reading of the eventfd to the next wait for it;
  -- the fuel is that of `get_completion_entries`.
  unfoldable pub dispatch_event_results : ℕ → Exec (UringIoManager R S) Unit
  dispatch_event_results batches = do
    events ← on_world (Queue.get_completion_entries batches)
    modify (λ s. record s { waiting = dispatch events s.waiting })

  -- `if self._force_submissions: self.ring.submit()`
  abbrev pub submit_if_forced : Bool → Exec (UringIoManager R S) Unit
  submit_if_forced true = on_world Queue.submit >> pure tt
  submit_if_forced false = pure tt

  -- `wait_for_completion` up to `await recv.receive()`
  unfoldable pub start_waiting : ℕ → Exec (UringIoManager R S) Unit
  start_waiting user_data s =
      (submit_if_forced s.force_submissions
          >> modify (λ s. record s { waiting = add_waiter user_data s.waiting }))
        s

-- `wait_for_completion` from the event that `receive` gives on
unfoldable pub finish_waiting : Bool → CompletionEvent → Result CompletionEvent
finish_waiting autoraise cqe = raised (if autoraise then raise_for_cqe cqe else ok tt)
  where
    raised : Result Unit → Result CompletionEvent
    raised (ok _) = ok cqe
    raised (err e) = err e
