-- ===== src/Manager/Routing.antt =====
-- The dispatching of pysrc/century_ring/aio/manager.py gives each waiting task the event of its
-- user data, once.
use century_ring.Common.{
  ℕ, ◌≡◌, ◌≢◌, refl, sym, ap, ◌∙◌, true, false, not, ◌&&◌, Option, none, some, inl, inr, List, [],
  ◌∷◌, ◌++◌, append-nil, Bool-cases, Option-cases, ◌==◌, if◌then◌else◌, arith,
}
use century_ring.Common.Dict.{
  Dict, lookup, remove, lookup-remove, lookup-remove_ne, lookup-remove_self,
}
use century_ring.Ring.State.{CompletionEvent}
use century_ring.Ring.Reap.{should_be_ignored}
use century_ring.Manager.Anyio.{Sending, sent, would_block, broken_resource, Streams, StreamLaws}
use century_ring.Manager.Dispatch.{Waiting, after_send, dispatch_event, dispatch}

-- the first event with this user data that is not to be ignored
abbrev pub first_for : ℕ → List CompletionEvent → List CompletionEvent
first_for u [] = []
first_for u (event ∷ events) =
    if not (should_be_ignored event) && event.user_data == u then event ∷ [] else first_for u events

-- the waiter stays while its event has not come
abbrev pub if_none_left : List CompletionEvent → ℕ → Option ℕ
if_none_left [] stream = some stream
if_none_left (_ ∷ _) stream = none

lookup-removed_at : {u v : ℕ} (e : u ≡ v) (waiters : Dict ℕ) → lookup u (remove v waiters) ≡ none
lookup-removed_at {u} {v} e waiters = rw e (lookup-remove_self v waiters)

module _ {S : Type 0} ⦃st : Streams S⦄ (laws : StreamLaws S) where
  -- no waiter but that of `u` has this stream
  abbrev pub Alone : ℕ → ℕ → Dict ℕ → Type 0
  Alone u k waiters = (v j : ℕ) → v ≢ u → lookup v waiters ≡ some j → k ≢ j

  -- What the dispatching of an event for somebody else leaves alone.
  record Undisturbed (u k : ℕ) (before after : Waiting S) : Type 0 where
    pub still_waits : lookup u after.waiters ≡ lookup u before.waiters
    pub alone : Alone u k before.waiters → Alone u k after.waiters
    pub same_delivered : laws.delivered after.streams k ≡ laws.delivered before.streams k
    pub same_receiving : laws.receiving after.streams k ≡ laws.receiving before.streams k

  Alone-remove : (u k v : ℕ) (waiters : Dict ℕ) → Alone u k waiters → Alone u k (remove v waiters)
  Alone-remove u k v waiters alone w j other there =
      alone w j other (ground (arith, there, lookup-remove v w waiters))

  after_send-Undisturbed :
      (u k v j : ℕ) (event : CompletionEvent) (w : Waiting S) (x : Sending)
      → u ≢ v
      → k ≢ j
      → Undisturbed u k w
          (after_send j (remove v w.waiters) (x, (st.send_nowait j event w.streams).1))
  after_send-Undisturbed u k v j event w sent other apart = record {
    still_waits = lookup-remove_ne v u w.waiters other;
    alone = Alone-remove u k v w.waiters;
    same_delivered =
        laws.close_delivered k j (st.send_nowait j event w.streams).1
        ∙ laws.send_delivered_ne k j event w.streams apart;
    same_receiving =
        laws.close_receiving_ne k j (st.send_nowait j event w.streams).1 apart
        ∙ laws.send_receiving_ne k j event w.streams apart;
  }
  after_send-Undisturbed u k v j event w would_block other apart = record {
    still_waits = lookup-remove_ne v u w.waiters other;
    alone = Alone-remove u k v w.waiters;
    same_delivered = laws.send_delivered_ne k j event w.streams apart;
    same_receiving = laws.send_receiving_ne k j event w.streams apart;
  }
  after_send-Undisturbed u k v j event w broken_resource other apart = record {
    still_waits = lookup-remove_ne v u w.waiters other;
    alone = Alone-remove u k v w.waiters;
    same_delivered = laws.send_delivered_ne k j event w.streams apart;
    same_receiving = laws.send_receiving_ne k j event w.streams apart;
  }

  Undisturbed-refl : (u k : ℕ) (w : Waiting S) → Undisturbed u k w w
  Undisturbed-refl u k w = record {
    still_waits = refl;
    alone = λ a. a;
    same_delivered = refl;
    same_receiving = refl;
  }

  dispatch_event-Undisturbed :
      (u k : ℕ) (event : CompletionEvent) (w : Waiting S)
      → Alone u k w.waiters
      → (not (should_be_ignored event) && event.user_data == u) ≡ false
      → Undisturbed u k w (dispatch_event event w)
  unfolding dispatch_event
  dispatch_event-Undisturbed u k event w alone other = elim (Bool-cases (should_be_ignored event)) [
    | inl ignored ↦ rw ignored (Undisturbed-refl u k w)
    | inr counts ↦ elim (Option-cases (lookup event.user_data w.waiters)) [
      | inl nobody ↦ rw (counts, nobody) (Undisturbed-refl u k w)
      | inr (j, waits) ↦
          let elsewhere : event.user_data ≢ u = λ e. ground (arith, rw counts at other) in
          rw (counts, waits)
            (after_send-Undisturbed u k event.user_data j event w
              (st.send_nowait j event w.streams).0 (λ e. elsewhere (sym e))
              (alone event.user_data j elsewhere waits))
    ]
  ]

  dispatch_event-nobody :
      (event : CompletionEvent) (w : Waiting S)
      → lookup event.user_data w.waiters ≡ none
      → dispatch_event event w ≡ w
  unfolding dispatch_event
  dispatch_event-nobody event w nobody = elim (Bool-cases (should_be_ignored event)) [
    | inl ignored ↦ rw ignored refl
    | inr counts ↦ rw (counts, nobody) refl
  ]

  -- once `u` has no waiter, its stream gets nothing more
  dispatch-nobody :
      (u k : ℕ) (events : List CompletionEvent) (w : Waiting S)
      → lookup u w.waiters ≡ none
      → Alone u k w.waiters
      → (laws.delivered (dispatch events w).streams k ≡ laws.delivered w.streams k)
        × (lookup u (dispatch events w).waiters ≡ none)
  unfolding dispatch
  dispatch-nobody u k [] w gone alone = (refl, gone)
  dispatch-nobody u k (event ∷ events) w gone alone =
      let here = event_for_nobody in
      let (same, still) =
        dispatch-nobody u k events (dispatch_event event w) (here.still_waits ∙ gone)
          (here.alone alone) in
      (same ∙ here.same_delivered, still)
    where
      event_for_nobody : Undisturbed u k w (dispatch_event event w)
      event_for_nobody = elim (Bool-cases (not (should_be_ignored event) && event.user_data == u)) [
        | inl mine ↦
            let its : u ≡ event.user_data = ground (arith, mine) in
            rw (dispatch_event-nobody event w (rw its at gone)) (Undisturbed-refl u k w)
        | inr other ↦ dispatch_event-Undisturbed u k event w alone other
      ]

  -- an event for `u`, whose task awaits its stream
  record Handed (u k : ℕ) (event : CompletionEvent) (before after : Waiting S) : Type 0 where
    pub gone : lookup u after.waiters ≡ none
    pub alone : Alone u k before.waiters → Alone u k after.waiters
    pub delivered : laws.delivered after.streams k ≡ laws.delivered before.streams k ++ event ∷ []

  after_send-sent :
      (k : ℕ) (waiters : Dict ℕ) (x : Sending × S)
      → x.0 ≡ sent
      → after_send k waiters x ≡ record { waiters = waiters; streams = st.close k x.1 }
  after_send-sent k waiters (sent, s) h = refl
  after_send-sent k waiters (would_block, s) h = cc
  after_send-sent k waiters (broken_resource, s) h = cc

  dispatch_event-Handed :
      (u k : ℕ) (event : CompletionEvent) (w : Waiting S)
      → lookup u w.waiters ≡ some k
      → laws.receiving w.streams k ≡ true
      → (not (should_be_ignored event) && event.user_data == u) ≡ true
      → Handed u k event w (dispatch_event event w)
  unfolding dispatch_event
  dispatch_event-Handed u k event w waits awaited mine =
      let its : event.user_data ≡ u = ground (arith, mine) in
      let counts : should_be_ignored event ≡ false = ground (arith, mine) in
      let found : lookup event.user_data w.waiters ≡ some k =
        ap (λ v. lookup v w.waiters) its ∙ waits in
      rw (counts, found)
        (rw
          (after_send-sent k (remove event.user_data w.waiters) (st.send_nowait k event w.streams)
            (laws.send_sent k event w.streams awaited))
          (record {
            gone = lookup-removed_at (sym its) w.waiters;
            alone = Alone-remove u k event.user_data w.waiters;
            delivered =
                laws.close_delivered k k (st.send_nowait k event w.streams).1
                ∙ laws.send_delivered k event w.streams (laws.send_sent k event w.streams awaited);
          }))

  -- A task that awaits its stream, which no other waiter has, is handed the first event of its user
  -- data among those dispatched, and only that one, whatever becomes of the events before and after
  -- it; then it is no waiter any more. If there is no such event, it keeps waiting, without any.
  pub dispatch_delivers :
      (u k : ℕ) (events : List CompletionEvent) (w : Waiting S)
      → lookup u w.waiters ≡ some k
      → laws.receiving w.streams k ≡ true
      → ((v j : ℕ) → v ≢ u → lookup v w.waiters ≡ some j → k ≢ j)
      → let after = dispatch events w in
        (laws.delivered after.streams k ≡ laws.delivered w.streams k ++ first_for u events)
        × (lookup u after.waiters ≡ if_none_left (first_for u events) k)
  unfolding dispatch
  dispatch_delivers u k [] w waits awaited alone =
      (sym (append-nil (laws.delivered w.streams k)), waits)
  dispatch_delivers u k (event ∷ events) w waits awaited alone =
      elim (Bool-cases (not (should_be_ignored event) && event.user_data == u)) [
        | inl mine ↦
            let handed = dispatch_event-Handed u k event w waits awaited mine in
            let (same, still) =
              dispatch-nobody u k events (dispatch_event event w) handed.gone
                (handed.alone alone) in
            rw mine (same ∙ handed.delivered, still)
        | inr other ↦
            let kept = dispatch_event-Undisturbed u k event w alone other in
            let (later, left) =
              dispatch_delivers u k events (dispatch_event event w) (kept.still_waits ∙ waits)
                (kept.same_receiving ∙ awaited) (kept.alone alone) in
            rw other (later ∙ ap (λ l. l ++ first_for u events) kept.same_delivered, left)
      ]
