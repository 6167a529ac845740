-- ===== src/Tickets/Reports.antt =====
-- A reaping (src/ring.rs, `get_completion_entries`) reports what the protocol allows.
use century_ring.Common.{
  ℕ, ◌+◌, ◌≤◌, ◌≡◌, ◌≢◌, inl, inr, true, false, List, [], ◌∷◌, ◌++◌, map, In, Bool-cases,
  true_ne_false, sym, ◌∙◌, arith,
}
use century_ring.Platform.{Sqe}
use century_ring.Platform.Laws.{submissions_with, completions_with}
use century_ring.Ring.State.{CompletionEvent}
use century_ring.Ring.Queue.{timeout_user_data}
use century_ring.Ring.Reap.{should_be_ignored}
use century_ring.Ring.Completions.{entry_of, should_be_ignored_iff}
use century_ring.Tickets.Protocol.{Event, count, erase, In-count, count-erase, Allowed, report}
use century_ring.Tickets.Trace.{reports}

-- Of the entries that the kernel may work on, none but timeouts is unknown to the protocol.
pub record Known (pending : List Sqe) (in_flight : List ℕ) : Type 0 where
  pub counts : (u : ℕ) → u ≢ timeout_user_data → submissions_with u pending ≤ count u in_flight

timeouts_ignored :
    (event : CompletionEvent)
    → should_be_ignored event ≡ false
    → event.user_data ≢ timeout_user_data
timeouts_ignored event ours same =
    let big : should_be_ignored event ≡ true =
      (should_be_ignored_iff event (omega (arith, same))).1 (omega (arith, same)) in
    absurd (true_ne_false (sym big ∙ ours))

-- the events account for what is in flight and no longer pending
pub record Answers (events : List CompletionEvent) (pending : List Sqe) (in_flight : List ℕ)
    : Type 0 where
  pub counts :
      (u : ℕ)
      → u ≢ timeout_user_data
      → completions_with u (map entry_of events) + submissions_with u pending ≤ count u in_flight

module _ (next : ℕ) (pending : List Sqe) (rest : List Event)
    (go_on : (in_flight : List ℕ) → Known pending in_flight → Allowed next in_flight rest) where
  pub reports-Allowed :
      (events : List CompletionEvent) (in_flight : List ℕ)
      → Answers events pending in_flight
      → Allowed next in_flight (reports events ++ rest)
  reports-Allowed [] in_flight h =
      go_on in_flight (record { counts = λ u ours. omega (arith, h.counts u ours) })
  reports-Allowed (event ∷ events) in_flight h = elim (Bool-cases (should_be_ignored event)) [
    | inl ignored ↦ rw ignored (
        reports-Allowed events in_flight
          (record { counts = λ u ours. ground (arith, h.counts u ours) }))
    | inr ours ↦
        let there : In event.user_data in_flight =
          In-count event.user_data in_flight
            (ground (arith, h.counts event.user_data (timeouts_ignored event ours))) in
        rw ours (
          report event.user_data there (
            reports-Allowed events (erase event.user_data in_flight)
              (record { counts = λ u mine. ground (arith, h.counts u mine, count-erase u there) })))
  ]
