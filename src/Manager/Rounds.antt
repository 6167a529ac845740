-- ===== src/Manager/Rounds.antt =====
-- pysrc/century_ring/aio/manager.py: a whole round of the
-- dispatching task, and a task that starts to wait.
use century_ring.Common.{
  ℕ, ◌<◌, ◌≡◌, ◌≢◌, ◌⊎◌, refl, sym, ap, true, some, inl, inr, List, [], ◌++◌, map, Bool-cases,
  true_ne_false, ◌==◌, if◌then◌else◌,
}
use century_ring.Common.Dict.{lookup, lookup-insert}
use century_ring.Common.Exec.{Error, ok, err, Result-cases, ◌>>=◌}
use century_ring.Platform.{Cqe, Crates, Platform}
use century_ring.Platform.Laws.{PlatformLaws}
use century_ring.Ring.State.{CompletionEvent}
use century_ring.Ring.Reap.{drain}
use century_ring.Ring.Completions.{entry_of, get_completion_entries_reports}
use century_ring.Client.Queue
use century_ring.Manager.Anyio.{Streams, StreamLaws}
use century_ring.Manager.Dispatch.{
  UringIoManager, add_waiter, dispatch_event_results, start_waiting,
}
use century_ring.Manager.Routing.{first_for, dispatch_delivers}
use century_ring.Manager.Steps.{Steps, nobody_waits, waiters_apart}

module _ {R S : Type 0} ⦃c : Crates⦄ ⦃p : Platform R⦄ ⦃st : Streams S⦄ where
  -- A round of the dispatching task on an open ring, with more fuel than batches to come, succeeds:
  -- it reads the entries of the completion queue as events, and a task that awaits the stream of its
  -- user data is handed the first of them that is for it, if there is one, and nothing else.
  pub round_delivers :
      (ring_laws : PlatformLaws R) (laws : StreamLaws S) (batches : ℕ) (s : UringIoManager R S)
      {r : R} {start : S} (u k : ℕ)
      → s.world.process.the_io_uring ≡ some r
      → ring_laws.batches r < batches
      → Steps (nobody_waits start) s.waiting
      → lookup u s.waiting.waiters ≡ some k
      → laws.receiving s.waiting.streams k ≡ true
      → let (result, after) = dispatch_event_results batches s in
        (entries : List Cqe) × (events : List CompletionEvent) × ((drain batches [] r).0
          ≡ ok entries)
        × (map entry_of events ≡ entries)
        × (result ≡ ok tt)
        × (laws.delivered after.waiting.streams k
            ≡ laws.delivered s.waiting.streams k ++ first_for u events)
  unfolding dispatch_event_results Queue.get_completion_entries ◌>>=◌
  round_delivers ring_laws laws batches s u k opened enough steps waits awaited =
      let (entries, events, _, _, drained, given, _, reported) =
        get_completion_entries_reports ring_laws batches s.world.process opened enough in
      let alone : (v j : ℕ) → v ≢ u → lookup v s.waiting.waiters ≡ some j → k ≢ j =
        λ v j other there. waiters_apart laws u v k j steps (λ e. other (sym e)) waits there in
      (
        entries,
        events,
        ap (λ out. out.0) drained,
        reported.in_order,
        rw given refl,
        rw given ((dispatch_delivers laws u k events s.waiting waits awaited alone).0),
      )

  -- `wait_for_completion` up to its wait: either submissions are forced and the submission raised,
  -- and nobody waits who did not before; or it comes to wait, on its own stream, all others wait as
  -- before, and the queue has been submitted, with success, if submissions are forced, and has been
  -- left alone if they are not.
  pub start_waiting_outcomes :
      (u : ℕ) (s : UringIoManager R S)
      → let (result, after) = start_waiting u s in
        ((e : Error) × (s.force_submissions ≡ true)
          × ((Queue.submit s.world).0 ≡ err e)
          × (result ≡ err e)
          × (after.world ≡ (Queue.submit s.world).1)
          × (after.waiting ≡ s.waiting))
        ⊎ ((result ≡ ok tt)
            × (after.world ≡ (if s.force_submissions then (Queue.submit s.world).1 else s.world))
            × (s.force_submissions ≡ true → (n : ℕ) × ((Queue.submit s.world).0 ≡ ok n))
            × (after.waiting.streams ≡ (st.create s.waiting.streams).1)
            × ((v : ℕ)
                → lookup v after.waiting.waiters ≡ (
                    if v == u
                    then some (st.create s.waiting.streams).0
                    else lookup v s.waiting.waiters)))
  unfolding start_waiting add_waiter ◌>>=◌
  start_waiting_outcomes u s = elim (Bool-cases s.force_submissions) [
    | inl forced ↦ elim (Result-cases (Queue.submit s.world).0) [
      | inl (n, submitted) ↦ rw forced (
          rw submitted (
            inr (
              refl,
              refl,
              λ _. (n, refl),
              refl,
              λ v. lookup-insert u v (st.create s.waiting.streams).0 s.waiting.waiters,
            )))
      | inr (e, raised) ↦ rw forced (rw raised (inl (e, refl, refl, refl, refl, refl)))
    ]
    | inr lazily ↦ rw lazily (
        inr (
          refl,
          refl,
          λ forced. absurd (true_ne_false (sym forced)),
          refl,
          λ v. lookup-insert u v (st.create s.waiting.streams).0 s.waiting.waiters,
        ))
  ]
