-- ===== src/Memory/Queue.antt =====
-- src/ring.rs: what `autosubmit` leaves of the queue.
use century_ring.Common.{
  ℕ, zero, suc, ◌≡◌, refl, Bool, true, false, not, Option, none, some, inl, inr, List, [], ◌∷◌,
  Option-cases, Bool-cases, if◌then◌else◌,
}
use century_ring.Common.Exec.{Result, ok, err, Exec, pure, raise, ◌>>=◌, value_error, queue_full}
use century_ring.Platform.{Sqe, IoResult-cases, Platform}
use century_ring.Platform.Laws.{PlatformLaws}
use century_ring.Ring.State.{Process, set_ring}
use century_ring.Ring.Queue.{autosubmit_rounds, ring_push, autosubmit_loop, autosubmit}
use century_ring.Memory.Invariant.{pending_of, Shrinks, Shrinks-refl, Shrinks-trans}

module _ {R : Type 0} ⦃p : Platform R⦄ (laws : PlatformLaws R) where
  pub Shrinks-submit : (r : R) → Shrinks (laws.outstanding (p.submit r).1) (laws.outstanding r)
  Shrinks-submit r = record { keeps = laws.submit_keeps r; counts = laws.submit_counts r }

  pub Shrinks-wait :
      (want : ℕ) (r : R)
      → Shrinks (laws.outstanding (p.submit_and_wait want r).1) (laws.outstanding r)
  Shrinks-wait want r = record { keeps = laws.wait_keeps want r; counts = laws.wait_counts want r }

  -- What a call left of a queue that it may push `e` to: with success `e` is in it, otherwise not.
  abbrev pub Queued : Sqe → R → Result Unit × R → Type 0
  Queued e r (ok _, r') =
      (q : List Sqe) × (laws.outstanding r' ≡ e ∷ q) × Shrinks q (laws.outstanding r)
  Queued e r (err _, r') = Shrinks (laws.outstanding r') (laws.outstanding r)

  module _ (e : Sqe) (r0 : R) where
    push-Queued :
        (last : Bool) (r : R) (again : Exec R Unit)
        → Shrinks (laws.outstanding r) (laws.outstanding r0)
        → ((r' : R) → Shrinks (laws.outstanding r') (laws.outstanding r0) → Queued e r0 (again r'))
        → Queued e r0 (
            (ring_push e >>= λ pushed.
            if pushed then pure tt else if last then raise (value_error queue_full) else again)
              r)
    unfolding ◌>>=◌
    push-Queued last r again s k = elim (Option-cases (p.push e r)) [
      | inl full ↦ rw full (elim (Bool-cases last) [ inl l ↦ rw l s | inr l ↦ rw l (k r s) ])
      | inr (r', room) ↦ rw room (laws.outstanding r, laws.push_adds e r room, s)
    ]

    autosubmit_loop-Queued :
        (rounds : ℕ) (needs_submit enabled : Bool) (r : R)
        → Shrinks (laws.outstanding r) (laws.outstanding r0)
        → Queued e r0 (autosubmit_loop rounds needs_submit enabled e r)
    unfolding ◌>>=◌ autosubmit_loop
    autosubmit_loop-Queued zero needs_submit enabled r s = s
    autosubmit_loop-Queued (suc rounds) false enabled r s =
        push-Queued (not enabled) r (autosubmit_loop rounds true enabled e) s
          (autosubmit_loop-Queued rounds true enabled)
    autosubmit_loop-Queued (suc rounds) true enabled r s = elim (IoResult-cases (p.submit r).0) [
      | inl (n, done_n) ↦ rw done_n (
          push-Queued true (p.submit r).1 (autosubmit_loop rounds true enabled e)
            (Shrinks-trans (Shrinks-submit r) s) (autosubmit_loop-Queued rounds true enabled))
      | inr (errno, failed_n) ↦ rw failed_n (Shrinks-trans (Shrinks-submit r) s)
    ]

  abbrev pub Pushed : Sqe → Process R → Result Unit × Process R → Type 0
  Pushed e s (ok _, s') =
      (r : R) × (q : List Sqe) × (s' ≡ set_ring r s)
      × (laws.outstanding r ≡ e ∷ q)
      × Shrinks q (pending_of laws s.the_io_uring)
  Pushed e s (err _, s') =
      (o : Option R) × (s' ≡ record s { ring = record s.ring { the_io_uring = o } })
      × Shrinks (pending_of laws o) (pending_of laws s.the_io_uring)

  Queued-Pushed :
      (e : Sqe) (s : Process R) (r : R) (x : Result Unit × R)
      → Queued e r x
      → Pushed e (set_ring r s) (x.0, set_ring x.1 s)
  Queued-Pushed e s r (ok _, r') (q, at_head, shrinks) = (r', q, refl, at_head, shrinks)
  Queued-Pushed e s r (err _, r') shrinks = (some r', refl, shrinks)

  -- `autosubmit` either puts the entry into the queue or leaves it out, and does nothing else to
  -- the ring object.
  pub autosubmit-Pushed : (e : Sqe) (s : Process R) → Pushed e s (autosubmit e s)
  unfolding autosubmit
  autosubmit-Pushed e s = elim (Option-cases s.the_io_uring) [
    | inl closed ↦ rw closed (none, refl, Shrinks-refl [])
    | inr (r, opened) ↦ rw opened (
        Queued-Pushed e s r (autosubmit_loop autosubmit_rounds false s.autosubmit e r) (
          autosubmit_loop-Queued e r autosubmit_rounds false s.autosubmit r
            (Shrinks-refl (laws.outstanding r))))
  ]
