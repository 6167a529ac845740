-- ===== src/Manager/Unheard.antt =====
-- pysrc/century_ring/aio/manager.py: events that nobody waits for when they are dispatched.
use century_ring.Common.{
  ℕ, ◌≡◌, refl, ap, ◌∙◌, none, inl, inr, List, [], ◌∷◌, Bool-cases, Option-cases, ◌==◌,
  if◌then◌else◌, arith,
}
use century_ring.Common.Dict.{Dict, lookup, remove, lookup-remove}
use century_ring.Ring.State.{CompletionEvent}
use century_ring.Ring.Reap.{should_be_ignored}
use century_ring.Manager.Anyio.{Sending, sent, would_block, broken_resource, Streams}
use century_ring.Manager.Dispatch.{Waiting, after_send, dispatch_event, dispatch}

-- the events for others
abbrev pub others : ℕ → List CompletionEvent → List CompletionEvent
others u [] = []
others u (event ∷ events) =
    if event.user_data == u then others u events else event ∷ others u events

module _ {S : Type 0} ⦃st : Streams S⦄ where
  ignored_or_unheard :
      (event : CompletionEvent) (w : Waiting S)
      → lookup event.user_data w.waiters ≡ none
      → dispatch_event event w ≡ w
  unfolding dispatch_event
  ignored_or_unheard event w nobody = elim (Bool-cases (should_be_ignored event)) [
    | inl ignored ↦ rw ignored refl
    | inr ours ↦ rw ours (rw nobody refl)
  ]

  after_send-waiters :
      (stream : ℕ) (waiters : Dict ℕ) (x : Sending × S)
      → (after_send stream waiters x).waiters ≡ waiters
  after_send-waiters stream waiters (sent, s) = refl
  after_send-waiters stream waiters (would_block, s) = refl
  after_send-waiters stream waiters (broken_resource, s) = refl

  -- dispatching adds no waiter
  still_nobody :
      (u : ℕ) (event : CompletionEvent) (w : Waiting S)
      → lookup u w.waiters ≡ none
      → lookup u (dispatch_event event w).waiters ≡ none
  unfolding dispatch_event
  still_nobody u event w nobody = elim (Bool-cases (should_be_ignored event)) [
    | inl ignored ↦ rw ignored nobody
    | inr ours ↦ elim (Option-cases (lookup event.user_data w.waiters)) [
      | inl unheard ↦ rw ours (rw unheard nobody)
      | inr (k, waits) ↦ rw ours (
          rw waits (
            ap (lookup u) (
              after_send-waiters k (remove event.user_data w.waiters)
                (st.send_nowait k event w.streams))
            ∙ ground (arith, nobody, lookup-remove event.user_data u w.waiters)))
    ]
  ]

  -- If nobody waits for a user data when its events are dispatched, they are dropped: the waiters
  -- and the streams are as if those events had not come, so that a task which starts to wait for
  -- the user data later is not handed them.
  pub unheard_dropped :
      (u : ℕ) (events : List CompletionEvent) (w : Waiting S)
      → lookup u w.waiters ≡ none
      → (dispatch events w ≡ dispatch (others u events) w)
        × (lookup u (dispatch events w).waiters ≡ none)
  unfolding dispatch
  unheard_dropped u [] w nobody = (refl, nobody)
  unheard_dropped u (event ∷ events) w nobody = elim (Bool-cases (event.user_data == u)) [
    | inl same ↦
        let is_u : event.user_data ≡ u = ground arith in
        let dropped = ignored_or_unheard event w (rw is_u nobody) in
        let rest = unheard_dropped u events w nobody in
        (
          rw same (ap (dispatch events) dropped ∙ rest.0),
          ap (λ w. lookup u (dispatch events w).waiters) dropped ∙ rest.1,
        )
    | inr other ↦
        rw other (unheard_dropped u events (dispatch_event event w) (still_nobody u event w nobody))
  ]
