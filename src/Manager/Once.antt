-- ===== src/Manager/Once.antt =====
-- pysrc/century_ring/aio/manager.py: what a task that waits is handed in all the time to come.
use century_ring.Common.{
  ℕ, ◌≡◌, ◌≢◌, ◌⊎◌, refl, sym, ap, ◌∙◌, true, false, some, inl, inr, List, [], ◌∷◌, ◌++◌,
  Bool-cases, true_ne_false, Option-cases, ◌==◌, arith,
}
use century_ring.Common.Dict.{lookup, remove, lookup-remove}
use century_ring.Ring.State.{CompletionEvent}
use century_ring.Ring.Reap.{should_be_ignored}
use century_ring.Manager.Anyio.{Sending, sent, would_block, broken_resource, Streams, StreamLaws}
use century_ring.Manager.Dispatch.{Waiting, after_send, dispatch_event, dispatch, add_waiter}
use century_ring.Manager.Steps.{
  Step, starts, dispatches, awaits, leaves, Steps, stop, next, nobody_waits, lookup-inserted,
  fewer-remove, Steps-IsApart, nobody-IsApart,
}

module _ {S : Type 0} ⦃st : Streams S⦄ (laws : StreamLaws S) (u k : ℕ) where
  -- nobody's stream any more
  abbrev Free : Waiting S → Type 0
  Free w = (v : ℕ) → lookup v w.waiters ≢ some k

  abbrev Handed : Waiting S → CompletionEvent → Type 0
  Handed w event =
      (laws.delivered w.streams k ≡ event ∷ [])
      × (event.user_data ≡ u)
      × (should_be_ignored event ≡ false)

  -- the stream `k`, which was made for `u`: nothing has come yet, or one event, and no more will
  pub record Serves (w : Waiting S) : Type 0 where
    pub known : laws.known w.streams k ≡ true
    pub for_u : (v : ℕ) → lookup v w.waiters ≡ some k → v ≡ u
    pub so_far :
        (laws.delivered w.streams k ≡ []) ⊎ (Free w × ((event : CompletionEvent) × Handed w event))

  -- a step that hands this stream nothing, and takes it for nobody
  record Passes (w w' : Waiting S) : Type 0 where
    pub fewer : (v : ℕ) → lookup v w'.waiters ≡ some k → lookup v w.waiters ≡ some k
    pub same_known : laws.known w'.streams k ≡ laws.known w.streams k
    pub same_delivered : laws.delivered w'.streams k ≡ laws.delivered w.streams k

  Passes-refl : (w : Waiting S) → Passes w w
  Passes-refl w = record { fewer = λ v h. h; same_known = refl; same_delivered = refl }

  Serves-Passes : {w w' : Waiting S} → Passes w w' → Serves w → Serves w'
  Serves-Passes pass h = record {
    known = pass.same_known ∙ h.known;
    for_u = λ v there. h.for_u v (pass.fewer v there);
    so_far = elim h.so_far [
      | inl nothing ↦ inl (pass.same_delivered ∙ nothing)
      | inr (free, (event, (given, is_u, ours))) ↦ inr (
        λ v there. free v (pass.fewer v there),
        (event, (pass.same_delivered ∙ given, is_u, ours)),
      )
    ];
  }

  add_waiter-Passes :
      (x : ℕ) (w : Waiting S) → laws.known w.streams k ≡ true → Passes w (add_waiter x w)
  unfolding add_waiter
  add_waiter-Passes x w known =
      let other : k ≢ (st.create w.streams).0 = λ same.
        true_ne_false (sym known ∙ ap (laws.known w.streams) same ∙ laws.create_fresh w.streams) in
      record {
        fewer = λ v there.
            elim (lookup-inserted laws x v k (st.create w.streams).0 w.waiters there) [
              | inl (_, new) ↦ absurd (other new)
              | inr (_, old) ↦ old
            ];
        same_known = ground (arith, known, laws.create_known w.streams k);
        same_delivered = ground (arith, other, laws.create_delivered w.streams k);
      }

  -- an event for another stream
  after_send-Passes :
      (j : ℕ) (event : CompletionEvent) (w : Waiting S) (x : Sending)
      → k ≢ j
      → Passes w (
          after_send j (remove event.user_data w.waiters) (x, (st.send_nowait j event w.streams).1))
  after_send-Passes j event w sent other = record {
    fewer = λ v. fewer-remove laws event.user_data v k w.waiters;
    same_known = laws.close_known k j _ ∙ laws.send_known k j event w.streams;
    same_delivered = laws.close_delivered k j _ ∙ laws.send_delivered_ne k j event w.streams other;
  }
  after_send-Passes j event w would_block other = record {
    fewer = λ v. fewer-remove laws event.user_data v k w.waiters;
    same_known = laws.send_known k j event w.streams;
    same_delivered = laws.send_delivered_ne k j event w.streams other;
  }
  after_send-Passes j event w broken_resource other = record {
    fewer = λ v. fewer-remove laws event.user_data v k w.waiters;
    same_known = laws.send_known k j event w.streams;
    same_delivered = laws.send_delivered_ne k j event w.streams other;
  }

  -- while it is somebody's, nothing has come
  pub nothing_yet :
      (v : ℕ) (w : Waiting S)
      → lookup v w.waiters ≡ some k
      → Serves w
      → laws.delivered w.streams k ≡ []
  nothing_yet v w waits h = elim h.so_far [
    | inl nothing ↦ nothing
    | inr (free, _) ↦ absurd (free v waits)
  ]

  module _ (event : CompletionEvent) (w : Waiting S)
      (waits : lookup event.user_data w.waiters ≡ some k) (h : Serves w) where
    still_for_u : (v : ℕ) → lookup v (remove event.user_data w.waiters) ≡ some k → v ≡ u
    still_for_u v there = h.for_u v (fewer-remove laws event.user_data v k w.waiters there)

    refused :
        (st.send_nowait k event w.streams).0 ≢ sent
        → Serves (record {
          waiters = remove event.user_data w.waiters;
          streams = (st.send_nowait k event w.streams).1;
        })
    refused no_luck = record {
      known = laws.send_known k k event w.streams ∙ h.known;
      for_u = still_for_u;
      so_far =
          inl (laws.send_refused k event w.streams no_luck ∙ nothing_yet event.user_data w waits h);
    }

    now_free : (v : ℕ) → lookup v (remove event.user_data w.waiters) ≢ some k
    now_free v there =
        let same : v ≡ event.user_data =
          still_for_u v there ∙ sym (h.for_u event.user_data waits) in
        ground (arith, there, lookup-remove event.user_data v w.waiters, same)

    -- an event for this one is handed over or dropped
    after_send-Serves :
        (x : Sending)
        → (st.send_nowait k event w.streams).0 ≡ x
        → should_be_ignored event ≡ false
        → Serves (
            after_send k
              (remove event.user_data w.waiters)
              (x, (st.send_nowait k event w.streams).1))
    after_send-Serves sent how ours = record {
      known = laws.close_known k k _ ∙ laws.send_known k k event w.streams ∙ h.known;
      for_u = still_for_u;
      so_far = inr (
        now_free,
        (
          event,
          (
            laws.close_delivered k k _
                ∙ laws.send_delivered k event w.streams how
                ∙ ap (λ l. l ++ event ∷ []) (nothing_yet event.user_data w waits h),
            h.for_u event.user_data waits,
            ours,
          ),
        ),
      );
    }
    after_send-Serves would_block how ours =
        refused (λ e. let bad : would_block ≡ sent = sym how ∙ e in cc)
    after_send-Serves broken_resource how ours =
        refused (λ e. let bad : broken_resource ≡ sent = sym how ∙ e in cc)

  dispatch_event-Serves :
      (event : CompletionEvent) (w : Waiting S) → Serves w → Serves (dispatch_event event w)
  unfolding dispatch_event
  dispatch_event-Serves event w h = elim (Bool-cases (should_be_ignored event)) [
    | inl ignored ↦ rw ignored h
    | inr ours ↦ elim (Option-cases (lookup event.user_data w.waiters)) [
      | inl nobody ↦ rw (ours, nobody) h
      | inr (j, waits) ↦ elim (Bool-cases (k == j)) [
        | inl same ↦
            let is_k : j ≡ k = ground (arith, same) in
            rw (ours, waits, is_k)
              (after_send-Serves event w (waits ∙ ap some is_k) h
                (st.send_nowait k event w.streams).0 refl ours)
        | inr other ↦
            rw (ours, waits)
              (Serves-Passes
                (after_send-Passes j event w (st.send_nowait j event w.streams).0
                  (ground (arith, other)))
                h)
      ]
    ]
  ]

  dispatch-Serves :
      (events : List CompletionEvent) (w : Waiting S) → Serves w → Serves (dispatch events w)
  unfolding dispatch
  dispatch-Serves [] w h = h
  dispatch-Serves (event ∷ events) w h =
      dispatch-Serves events (dispatch_event event w) (dispatch_event-Serves event w h)

  Step-Serves : {w w' : Waiting S} → Step w w' → Serves w → Serves w'
  Step-Serves {w} (starts x) h = Serves-Passes (add_waiter-Passes x w h.known) h
  Step-Serves {w} (dispatches events) h = dispatch-Serves events w h
  Step-Serves {w} (awaits j) h =
      Serves-Passes
        (record {
          fewer = λ v there. there;
          same_known = laws.receive_known k j w.streams;
          same_delivered = laws.receive_delivered k j w.streams;
        })
        h
  Step-Serves {w} (leaves j) h =
      Serves-Passes
        (record {
          fewer = λ v there. there;
          same_known = laws.close_receive_known k j w.streams;
          same_delivered = laws.close_receive_delivered k j w.streams;
        })
        h

  pub Steps-Serves : {w w' : Waiting S} → Steps w w' → Serves w → Serves w'
  Steps-Serves stop h = h
  Steps-Serves (next step steps) h = Steps-Serves steps (Step-Serves step h)

module _ {S : Type 0} ⦃st : Streams S⦄ (laws : StreamLaws S) where
  pub add_waiter-Serves :
      {start : S} {w : Waiting S} (u : ℕ)
      → Steps (nobody_waits start) w
      → Serves laws u (st.create w.streams).0 (add_waiter u w)
  unfolding add_waiter
  add_waiter-Serves {start} {w} u steps =
      let k = (st.create w.streams).0 in
      let old = Steps-IsApart laws steps (nobody-IsApart laws start) in
      record {
        known = ground (arith, laws.create_known w.streams k);
        for_u = λ v there. elim (lookup-inserted laws u v k k w.waiters there) [
          | inl (is_u, _) ↦ is_u
          | inr (_, before) ↦
              absurd (true_ne_false (sym (old.created v k before) ∙ laws.create_fresh w.streams))
        ];
        so_far = inl (ground (arith, laws.create_delivered w.streams k));
      }

  -- However the tasks have been run before a task starts to wait for `u`, and however they are run
  -- afterwards, whoever else waits for whatever: the stream that it was given has been handed
  -- nothing, or one event, which is not to be ignored and whose user data is `u`.
  pub handed_at_most_once :
      {start : S} {w w' : Waiting S} (u : ℕ)
      → Steps (nobody_waits start) w
      → Steps (add_waiter u w) w'
      → let k = (st.create w.streams).0 in
        (laws.delivered w'.streams k ≡ [])
        ⊎ ((event : CompletionEvent) × (laws.delivered w'.streams k ≡ event ∷ [])
            × (event.user_data ≡ u)
            × (should_be_ignored event ≡ false))
  handed_at_most_once {w} u before after =
      let k = (st.create w.streams).0 in
      elim (Steps-Serves laws u k after (add_waiter-Serves u before)).so_far [
        | inl nothing ↦ inl nothing
        | inr (_, (event, (given, is_u, ours))) ↦ inr (event, given, is_u, ours)
      ]
