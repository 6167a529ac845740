-- ===== src/Manager/Steps.antt =====
-- pysrc/century_ring/aio/manager.py: its tasks one step after the other, in any order.
use century_ring.Common.{
  true_ne_false, ℕ, ◌≡◌, ◌≢◌, ◌⊎◌, refl, sym, ap, ◌∙◌, true, some, inl, inr, List, [], ◌∷◌,
  Bool-cases, Option-cases, ◌==◌, arith,
}
use century_ring.Common.Dict.{
  Dict, lookup, insert, remove, lookup-remove, lookup-insert, lookup-empty,
}
use century_ring.Ring.State.{CompletionEvent}
use century_ring.Ring.Reap.{should_be_ignored}
use century_ring.Manager.Anyio.{Sending, sent, would_block, broken_resource, Streams, StreamLaws}
use century_ring.Manager.Dispatch.{Waiting, after_send, dispatch_event, dispatch, add_waiter}

module _ {S : Type 0} ⦃st : Streams S⦄ where
  -- a task starts to wait, the dispatching task handles some events, a task awaits its stream, or
  -- leaves it, with its event or cancelled
  pub data Step : Waiting S → Waiting S → Type 0 where
    starts : (u : ℕ) {w : Waiting S} → Step w (add_waiter u w)
    dispatches : (events : List CompletionEvent) {w : Waiting S} → Step w (dispatch events w)
    awaits : (k : ℕ) {w : Waiting S} → Step w (record w { streams = st.receive k w.streams })
    leaves : (k : ℕ) {w : Waiting S} → Step w (record w { streams = st.close_receive k w.streams })

  -- any number of steps, the first one first
  pub data Steps : Waiting S → Waiting S → Type 0 where
    stop : {w : Waiting S} → Steps w w
    next : {w w' w'' : Waiting S} → Step w w' → Steps w' w'' → Steps w w''

  abbrev pub nobody_waits : S → Waiting S
  nobody_waits s = record { waiters = []; streams = s }

module _ {S : Type 0} ⦃st : Streams S⦄ (laws : StreamLaws S) where
  -- every waiter has a stream of its own
  pub record IsApart (w : Waiting S) : Type 0 where
    pub created : (u k : ℕ) → lookup u w.waiters ≡ some k → laws.known w.streams k ≡ true
    pub apart :
        (u v k j : ℕ) → u ≢ v → lookup u w.waiters ≡ some k → lookup v w.waiters ≡ some j → k ≢ j

  -- a waiter after the insertion is the new one or an old one
  pub lookup-inserted :
      (u v k new : ℕ) (waiters : Dict ℕ)
      → lookup v (insert u new waiters) ≡ some k
      → ((v ≡ u) × (k ≡ new)) ⊎ ((v ≢ u) × (lookup v waiters ≡ some k))
  lookup-inserted u v k new waiters there = elim (Bool-cases (v == u)) [
    | inl same ↦ inl (ground (arith, there, same, lookup-insert u v new waiters))
    | inr other ↦
        inr (ground (arith, other), ground (arith, there, other, lookup-insert u v new waiters))
  ]

  known-new : (s : S) {k : ℕ} → k ≡ (st.create s).0 → laws.known (st.create s).1 k ≡ true
  known-new s {k} e = ground (arith, laws.create_known s k, e)

  known-old : (s : S) (k : ℕ) → laws.known s k ≡ true → laws.known (st.create s).1 k ≡ true
  known-old s k h = ground (arith, laws.create_known s k, h)

  -- what is known already is not the new stream
  old-ne-new : (s : S) {k j : ℕ} → laws.known s k ≡ true → j ≡ (st.create s).0 → k ≢ j
  old-ne-new s {k} {j} h e same =
      true_ne_false (sym h ∙ ap (laws.known s) (same ∙ e) ∙ laws.create_fresh s)

  add_waiter-IsApart : (u : ℕ) (w : Waiting S) → IsApart w → IsApart (add_waiter u w)
  unfolding add_waiter
  add_waiter-IsApart u w h = record {
    created = λ v k there. elim (lookup-inserted u v k (st.create w.streams).0 w.waiters there) [
      | inl (is_u, new) ↦ known-new w.streams new
      | inr (other, old) ↦ known-old w.streams k (h.created v k old)
    ];
    apart = λ v x k j other there waits.
        elim (lookup-inserted u v k (st.create w.streams).0 w.waiters there) [
          | inl (v_is_u, k_new) ↦
              elim (lookup-inserted u x j (st.create w.streams).0 w.waiters waits) [
                | inl (x_is_u, _) ↦ absurd (other (v_is_u ∙ sym x_is_u))
                | inr (_, j_old) ↦
                    λ same. old-ne-new w.streams (h.created x j j_old) k_new (sym same)
              ]
          | inr (_, k_old) ↦ elim (lookup-inserted u x j (st.create w.streams).0 w.waiters waits) [
            | inl (_, j_new) ↦ old-ne-new w.streams (h.created v k k_old) j_new
            | inr (_, j_old) ↦ h.apart v x k j other k_old j_old
          ]
        ];
  }

  -- events only take waiters away
  record Shrinks (before after : Waiting S) : Type 0 where
    pub fewer : (v j : ℕ) → lookup v after.waiters ≡ some j → lookup v before.waiters ≡ some j
    pub same_known : (j : ℕ) → laws.known after.streams j ≡ laws.known before.streams j

  Shrinks-IsApart : {w w' : Waiting S} → Shrinks w w' → IsApart w → IsApart w'
  Shrinks-IsApart less h = record {
    created = λ u k there. less.same_known k ∙ h.created u k (less.fewer u k there);
    apart = λ u v k j other there waits.
        h.apart u v k j other (less.fewer u k there) (less.fewer v j waits);
  }

  pub fewer-remove :
      (u v j : ℕ) (waiters : Dict ℕ)
      → lookup v (remove u waiters) ≡ some j
      → lookup v waiters ≡ some j
  fewer-remove u v j waiters there = ground (arith, there, lookup-remove u v waiters)

  after_send-Shrinks :
      (u k : ℕ) (event : CompletionEvent) (w : Waiting S) (x : Sending)
      → Shrinks w (after_send k (remove u w.waiters) (x, (st.send_nowait k event w.streams).1))
  after_send-Shrinks u k event w sent = record {
    fewer = λ v j. fewer-remove u v j w.waiters;
    same_known = λ j.
        laws.close_known j k (st.send_nowait k event w.streams).1
        ∙ laws.send_known j k event w.streams;
  }
  after_send-Shrinks u k event w would_block = record {
    fewer = λ v j. fewer-remove u v j w.waiters;
    same_known = λ j. laws.send_known j k event w.streams;
  }
  after_send-Shrinks u k event w broken_resource = record {
    fewer = λ v j. fewer-remove u v j w.waiters;
    same_known = λ j. laws.send_known j k event w.streams;
  }

  Shrinks-refl : (w : Waiting S) → Shrinks w w
  Shrinks-refl w = record { fewer = λ v j h. h; same_known = λ j. refl }

  dispatch_event-Shrinks :
      (event : CompletionEvent) (w : Waiting S) → Shrinks w (dispatch_event event w)
  unfolding dispatch_event
  dispatch_event-Shrinks event w = elim (Bool-cases (should_be_ignored event)) [
    | inl ignored ↦ rw ignored (Shrinks-refl w)
    | inr counts ↦ elim (Option-cases (lookup event.user_data w.waiters)) [
      | inl nobody ↦ rw (counts, nobody) (Shrinks-refl w)
      | inr (k, waits) ↦
          rw (counts, waits)
            (after_send-Shrinks event.user_data k event w (st.send_nowait k event w.streams).0)
    ]
  ]

  dispatch-IsApart :
      (events : List CompletionEvent) (w : Waiting S) → IsApart w → IsApart (dispatch events w)
  unfolding dispatch
  dispatch-IsApart [] w h = h
  dispatch-IsApart (event ∷ events) w h =
      dispatch-IsApart events (dispatch_event event w)
        (Shrinks-IsApart (dispatch_event-Shrinks event w) h)

  Step-IsApart : {w w' : Waiting S} → Step w w' → IsApart w → IsApart w'
  Step-IsApart {w} (starts u) h = add_waiter-IsApart u w h
  Step-IsApart {w} (dispatches events) h = dispatch-IsApart events w h
  Step-IsApart {w} (awaits k) h =
      Shrinks-IsApart
        (record { fewer = λ v j h. h; same_known = λ j. laws.receive_known j k w.streams }) h
  Step-IsApart {w} (leaves k) h =
      Shrinks-IsApart
        (record { fewer = λ v j h. h; same_known = λ j. laws.close_receive_known j k w.streams }) h

  pub Steps-IsApart : {w w' : Waiting S} → Steps w w' → IsApart w → IsApart w'
  Steps-IsApart stop h = h
  Steps-IsApart (next step steps) h = Steps-IsApart steps (Step-IsApart step h)

  pub nobody-IsApart : (s : S) → IsApart (nobody_waits s)
  nobody-IsApart s = record {
    created = λ u k there. absurd (ground (arith, lookup-empty {V = ℕ} u));
    apart = λ u v k j other there waits same. absurd (ground (arith, lookup-empty {V = ℕ} u));
  }

  -- However the tasks have been run since nobody waited, no two waiters share a stream.
  pub waiters_apart :
      {s : S} {w : Waiting S} (u v k j : ℕ)
      → Steps (nobody_waits s) w
      → u ≢ v
      → lookup u w.waiters ≡ some k
      → lookup v w.waiters ≡ some j
      → k ≢ j
  waiters_apart {s} u v k j steps = (Steps-IsApart steps (nobody-IsApart s)).apart u v k j
