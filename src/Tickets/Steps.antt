-- ===== src/Tickets/Steps.antt =====
-- One call of pysrc/century_ring/ring.py follows the protocol.
use century_ring.Common.{
  Bool, ℕ, suc, ◌≤◌, ◌<◌, ◌≡◌, refl, inl, inr, List, [], ◌∷◌, ◌++◌, Option-cases, arith,
}
use century_ring.Common.Exec.{Result, ok, err}
use century_ring.Platform.{Sqe, Cqe, Platform}
use century_ring.Platform.Laws.{PlatformLaws}
use century_ring.Ring.State.{TheIoRing, Process, set_ring}
use century_ring.Ring.Reap.{drain, take_results, finish, reap}
use century_ring.Ring.Reap
use century_ring.Ring.Completions.{entries-take_results}
use century_ring.Prep.Outcome.{Asking, PrepOutcome, not_pushed, pushed, handed_over}
use century_ring.Client.State.{World}
use century_ring.Client.Outcome.{MethodOutcome, early, failed, returned}
use century_ring.Memory.Invariant.{reserved, Shrinks, pending_of}
use century_ring.Memory.Quiet.{Quiet}
use century_ring.Memory.Reap.{DrainLeaves, drain-Leaves}
use century_ring.Tickets.Protocol.{Event, Allowed, issue}
use century_ring.Tickets.Trace.{issued_by, reported_by}
use century_ring.Tickets.Reports.{Known, reports-Allowed}

module _ {R : Type 0} ⦃p : Platform R⦄ (laws : PlatformLaws R) where
  -- The ring object stands where the protocol does: the next user data is new, and what the kernel
  -- may work on is in flight.
  pub record Follows (next : ℕ) (in_flight : List ℕ) (ring : TheIoRing R) : Type 0 where
    pub fresh : next ≤ ring.user_data_counter
    pub known : Known (pending_of laws ring.the_io_uring) in_flight

  Known-shrink :
      {q l : List Sqe} {in_flight : List ℕ} → Shrinks q l → Known l in_flight → Known q in_flight
  Known-shrink shrinks known = record {
    counts = λ u ours. omega (arith, shrinks.counts u, known.counts u ours);
  }

  Known-push :
      {q : List Sqe} {in_flight : List ℕ} (e : Sqe) (u : ℕ)
      → e.user_data ≡ u
      → Known q in_flight
      → Known (e ∷ q) (u ∷ in_flight)
  Known-push e u carries known = record {
    counts = λ v ours. ground (arith, known.counts v ours, carries);
  }

  -- what goes on after a call whose events are `events`
  abbrev pub GoesOn : TheIoRing R → List Event → Type 0
  GoesOn ring rest =
      (next : ℕ) (in_flight : List ℕ) → Follows next in_flight ring → Allowed next in_flight rest

  module _ (next : ℕ) (in_flight : List ℕ) where
    pub method-Allowed :
        (w : World R) (rest : List Event) {asks : Asking} {x : Result ℕ} {after : World R}
        → w.process.ring.user_data_counter < reserved
        → Follows next in_flight w.process.ring
        → MethodOutcome laws asks w x after
        → GoesOn after.process.ring rest
        → Allowed next in_flight (issued_by x ++ rest)
    method-Allowed w rest low h (early e same) go_on = go_on next in_flight (rw same h)
    method-Allowed w rest low h (failed e (not_pushed _ o same shrinks) _) go_on =
        go_on next in_flight (
          rw same (record { fresh = omega (arith, h.fresh); known = Known-shrink shrinks h.known }))
    method-Allowed w rest low h
          (returned (pushed entry r q carries asked plain same at_head shrinks) _) go_on =
        issue _ h.fresh (
          go_on _ _ (
            rw same (record {
              fresh = omega arith;
              known = rw at_head (Known-push entry _ carries (Known-shrink shrinks h.known));
            })))
    method-Allowed w rest low h
          (returned (handed_over entry o r q carries asked points same at_head shrinks) _) go_on =
        issue _ h.fresh (
          go_on _ _ (
            rw same (record {
              fresh = omega arith;
              known = rw at_head (Known-push entry _ carries (Known-shrink shrinks h.known));
            })))

    pub Quiet-Follows :
        {timed : Bool} (s s' : Process R)
        → Quiet laws timed s s'
        → Follows next in_flight s.ring
        → Follows next in_flight s'.ring
    Quiet-Follows s s' quiet h = rw quiet.same (record {
      fresh = h.fresh;
      known = record {
        counts = λ u ours. omega (arith, quiet.fades.counts u ours, h.known.counts u ours);
      };
    })

    finish-Allowed :
        (s : Process R) (x : Result (List Cqe) × R) (rest : List Event)
        → Follows next in_flight s.ring
        → DrainLeaves laws (pending_of laws s.the_io_uring) x
        → GoesOn (finish s x).1.ring rest
        → Allowed next in_flight (reported_by (finish s x).0 ++ rest)
    finish-Allowed s (err e, r) rest h left go_on =
        go_on next in_flight (record { fresh = h.fresh; known = Known-shrink left h.known })
    finish-Allowed s (ok entries, r) rest h left go_on =
        reports-Allowed next (laws.outstanding r) rest
          (λ l known. go_on next l (record { fresh = h.fresh; known = known }))
          (take_results r entries s.owned_data).0 in_flight
          (record {
            counts = λ u ours.
                rw (entries-take_results r entries s.owned_data)
                  (omega (arith, left.counts u, h.known.counts u ours));
          })

    pub reap-Allowed :
        (batches : ℕ) (s : Process R) (rest : List Event)
        → Follows next in_flight s.ring
        → GoesOn (Reap.get_completion_entries batches s).1.ring rest
        → Allowed next in_flight (reported_by (Reap.get_completion_entries batches s).0 ++ rest)
    unfolding Reap.get_completion_entries
    reap-Allowed batches s rest h go_on = elim (Option-cases s.the_io_uring) [
      | inl closed ↦ rw closed ((rw closed at go_on) next in_flight (rw closed at h))
      | inr (r, opened) ↦ rw opened (
          finish-Allowed (set_ring r s) (drain batches [] r) rest (rw opened at h)
            (drain-Leaves laws (laws.outstanding r) batches [] r
              (record { keeps = λ e m. m; counts = λ u. omega arith }))
            (rw opened at go_on))
    ]

  prepared-counter :
      (u : ℕ) (ring : TheIoRing R) {asks : Asking} {x : Result Unit} {after : TheIoRing R}
      → PrepOutcome laws asks u ring x after
      → after.user_data_counter ≡ ring.user_data_counter
  prepared-counter u ring (not_pushed e o same shrinks) = rw same refl
  prepared-counter u ring (pushed entry r q carries asked plain same at_head shrinks) = rw same refl
  prepared-counter u ring (handed_over entry o r q carries asked points same at_head shrinks) =
      rw same refl

  pub method-counter :
      (w : World R) {asks : Asking} {x : Result ℕ} {after : World R}
      → w.process.user_data_counter < reserved
      → MethodOutcome laws asks w x after
      → after.process.user_data_counter ≤ suc w.process.user_data_counter
  method-counter w low (early e same) = rw same (omega arith)
  method-counter w low (failed e prepared kept) = omega (arith, prepared-counter _ _ prepared)
  method-counter w low (returned prepared marked) = omega (arith, prepared-counter _ _ prepared)
