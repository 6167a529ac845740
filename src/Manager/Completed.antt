-- ===== src/Manager/Completed.antt =====
-- pysrc/century_ring/aio/manager.py: `wait_for_completion` from its start to what it returns.
use century_ring.Common.{
  ℕ, ◌<◌, ◌≡◌, ◌⊎◌, refl, ap, ◌∙◌, Bool, true, false, some, inl, inr, List, [], ◌∷◌, ◌++◌, map,
  Bool-cases, not, ◌&&◌, ◌==◌, if◌then◌else◌, arith,
}
use century_ring.Common.Int.{abs, is_negative}
use century_ring.Common.Dict.{lookup}
use century_ring.Common.Exec.{ok, err, os_error}
use century_ring.Platform.{Cqe, Crates, Platform}
use century_ring.Platform.Laws.{PlatformLaws}
use century_ring.Helpers.{raise_for_cqe}
use century_ring.Ring.State.{CompletionEvent}
use century_ring.Ring.Reap.{drain, should_be_ignored}
use century_ring.Ring.Completions.{entry_of}
use century_ring.Manager.Anyio.{Streams, StreamLaws}
use century_ring.Manager.Dispatch.{
  Waiting, UringIoManager, add_waiter, dispatch_event_results, finish_waiting,
}
use century_ring.Manager.Routing.{first_for}
use century_ring.Manager.Steps.{Steps, starts, stop, next, nobody_waits}
use century_ring.Manager.Once.{nothing_yet, Steps-Serves, add_waiter-Serves}
use century_ring.Manager.Rounds.{round_delivers}

first_for-cases :
    (u : ℕ) (events : List CompletionEvent)
    → (first_for u events ≡ [])
      ⊎ ((event : CompletionEvent) × (first_for u events ≡ event ∷ [])
          × (event.user_data ≡ u)
          × (should_be_ignored event ≡ false))
first_for-cases u [] = inl refl
first_for-cases u (event ∷ events) =
    elim (Bool-cases (not (should_be_ignored event) && event.user_data == u)) [
      | inl mine ↦ rw mine (inr (event, refl, ground arith, ground arith))
      | inr other ↦ rw other (first_for-cases u events)
    ]

-- what `wait_for_completion` makes of the event: the event, or with autoraise its OSError
finish_waiting-eq :
    (autoraise : Bool) (event : CompletionEvent)
    → finish_waiting autoraise event ≡ (
        if autoraise && is_negative event.result
        then err (os_error (abs event.result))
        else ok event)
unfolding finish_waiting raise_for_cqe
finish_waiting-eq false event = refl
finish_waiting-eq true event = elim (Bool-cases (is_negative event.result)) [
  | inl failed ↦ rw failed refl
  | inr fine ↦ rw fine refl
]

module _ {S : Type 0} ⦃st : Streams S⦄ where
  Steps-append : {w₁ w₂ w₃ : Waiting S} → Steps w₁ w₂ → Steps w₂ w₃ → Steps w₁ w₃
  Steps-append stop later = later
  Steps-append (next step steps) later = next step (Steps-append steps later)

module _ {R S : Type 0} ⦃c : Crates⦄ ⦃p : Platform R⦄ ⦃st : Streams S⦄ where
  -- A task starts to wait for `u`, whatever has run before, and whatever runs until the next round,
  -- in which it awaits its stream and is still the waiter of `u`. If the ring is open, the round, with
  -- more fuel than batches to come, reads the entries of the completion queue as events. Either none
  -- of them is for `u`, and the task has been handed nothing; or it has been handed one event, the
  -- first for `u`, and returns it, or, with autoraise and a negative result, raises its OSError.
  pub wait_for_completion_outcomes :
      (ring_laws : PlatformLaws R) (laws : StreamLaws S) (batches : ℕ) (autoraise : Bool)
      (s : UringIoManager R S) {r : R} {start : S} {w : Waiting S} (u : ℕ)
      → Steps (nobody_waits start) w
      → Steps (add_waiter u w) s.waiting
      → let k = (st.create w.streams).0 in
        lookup u s.waiting.waiters ≡ some k
        → laws.receiving s.waiting.streams k ≡ true
        → s.world.process.the_io_uring ≡ some r
        → ring_laws.batches r < batches
        → let (result, after) = dispatch_event_results batches s in
          let received = laws.delivered after.waiting.streams k in
          (entries : List Cqe) × (events : List CompletionEvent) × ((drain batches [] r).0
            ≡ ok entries)
          × (map entry_of events ≡ entries)
          × (result ≡ ok tt)
          × (((first_for u events ≡ []) × (received ≡ []))
              ⊎ ((event : CompletionEvent) × (first_for u events ≡ event ∷ [])
                  × (received ≡ event ∷ [])
                  × (event.user_data ≡ u)
                  × (should_be_ignored event ≡ false)
                  × (finish_waiting autoraise event ≡ (
                      if autoraise && is_negative event.result
                      then err (os_error (abs event.result))
                      else ok event))))
  wait_for_completion_outcomes ring_laws laws batches autoraise s {w} u before after waits awaited
        opened enough =
      let k = (st.create w.streams).0 in
      let (entries, events, drained, given, ends, delivered) =
        round_delivers ring_laws laws batches s u k opened enough
          (Steps-append before (next (starts u) after)) waits awaited in
      let served = Steps-Serves laws u k after (add_waiter-Serves laws u before) in
      let received =
        delivered
        ∙ ap (λ l. l ++ first_for u events) (nothing_yet laws u k u s.waiting waits served) in
      (
        entries,
        events,
        drained,
        given,
        ends,
        elim (first_for-cases u events) [
          | inl none_came ↦ inl (none_came, received ∙ none_came)
          | inr (event, first, is_u, ours) ↦
              inr (event, first, received ∙ first, is_u, ours, finish_waiting-eq autoraise event)
        ],
      )
