-- ===== src/Memory/Quiet.antt =====
-- The methods of src/ring.rs that push no operation: what they do to the entries that the kernel may
-- work on.
use century_ring.Common.{
  ℕ, ◌≡◌, refl, Bool, true, Option, none, some, inl, inr, List, [], Option-cases, arith,
}
use century_ring.Common.Int.{ℤ}
use century_ring.Common.Exec.{ok, Exec, ◌>>=◌, timeout_not_submitted}
use century_ring.Common.Keeps.{Keeps, Keeps-bind, Keeps-pure}
use century_ring.Platform.{Crates, Sqe, from_io, Platform}
use century_ring.Platform.Laws.{PlatformLaws}
use century_ring.Ring.State.{close, Process, with_ring}
use century_ring.Ring.Queue.{
  timeout_entry, timeout_steps, push_or_raise, wait_with_timeout, submit, wait, pending_sq_entries,
  register_eventfd, ring_submit, ring_submit_and_wait,
}
use century_ring.Memory.Invariant.{
  Fades, Fades-refl, Fades-trans, Fades-timeout, Shrinks-Fades, pending_of,
}
use century_ring.Memory.Queue.{Shrinks-submit, Shrinks-wait}

module _ {R : Type 0} ⦃p : Platform R⦄ (laws : PlatformLaws R) where
  -- From one state to another, nothing but the queue has changed, and no operation was added to it,
  -- but timeouts if `timed` says so.
  pub record Quiet (timed : Bool) (s s' : Process R) : Type 0 where
    pub queue : Option R
    pub same : s' ≡ record s { ring = record s.ring { the_io_uring = queue } }
    pub fades : Fades timed (pending_of laws queue) (pending_of laws s.the_io_uring)

  pub Quiet-refl : {timed : Bool} (s : Process R) → Quiet timed s s
  Quiet-refl s = record { queue = s.the_io_uring; same = refl; fades = Fades-refl _ }

  Quiet-with_ring :
      {timed : Bool} {A : Type 0} (m : Exec R A) (s : Process R)
      → ((r : R) → Fades timed (laws.outstanding (m r).1) (laws.outstanding r))
      → Quiet timed s (with_ring m s).1
  Quiet-with_ring m s h = elim (Option-cases s.the_io_uring) [
    | inl closed ↦ rw closed (record { queue = none; same = refl; fades = Fades-refl [] })
    | inr (r, opened) ↦ rw opened (record { queue = some (m r).1; same = refl; fades = h r })
  ]

  Fades-submit :
      {timed : Bool} (r : R) → Fades timed (laws.outstanding (p.submit r).1) (laws.outstanding r)
  Fades-submit r = Shrinks-Fades (Shrinks-submit laws r)

  Fades-wait :
      {timed : Bool} (want : ℕ) (r : R)
      → Fades timed (laws.outstanding (p.submit_and_wait want r).1) (laws.outstanding r)
  Fades-wait want r = Shrinks-Fades (Shrinks-wait laws want r)

  pub Quiet-submit : {timed : Bool} (s : Process R) → Quiet timed s (submit s).1
  unfolding submit
  Quiet-submit s = Quiet-with_ring ring_submit s Fades-submit

  pub Quiet-wait : {timed : Bool} (want : ℕ) (s : Process R) → Quiet timed s (wait want s).1
  unfolding wait
  Quiet-wait want s = Quiet-with_ring (ring_submit_and_wait want) s (Fades-wait want)

  pub Quiet-pending_sq_entries :
      {timed : Bool} (s : Process R) → Quiet timed s (pending_sq_entries s).1
  unfolding pending_sq_entries
  Quiet-pending_sq_entries s =
      Quiet-with_ring (λ r. (ok (p.sq_len r), r)) s (λ r. Fades-refl (laws.outstanding r))

  pub Quiet-register_eventfd :
      {timed : Bool} (fd : ℤ) (s : Process R) → Quiet timed s (register_eventfd fd s).1
  unfolding register_eventfd
  Quiet-register_eventfd fd s =
      Quiet-with_ring (λ r. let (x, r') = p.register_eventfd fd r in (from_io x, r')) s
        (λ r. rw (laws.eventfd_keeps fd r) (Fades-refl (laws.outstanding r)))

  pub Quiet-close : {timed : Bool} (s : Process R) → Quiet timed s (close s).1
  unfolding close ◌>>=◌
  Quiet-close s = record {
    queue = none;
    same = refl;
    fades = record {
      keeps = λ e b m points. elim m [ ];
      frames = λ e t m points. elim m [ ];
      counts = λ u ours. omega arith;
    };
  }

  -- what has become of the queue `l`
  module _ ⦃c : Crates⦄ (l : List Sqe) where
    abbrev Faded : R → Type 0
    Faded r = Fades true (laws.outstanding r) l

    submit-Faded : Keeps Faded Faded ring_submit
    submit-Faded = record { at = λ r. Fades-trans (Fades-submit r) }

    wait-Faded : (want : ℕ) → Keeps Faded Faded (ring_submit_and_wait want)
    wait-Faded want = record { at = λ r. Fades-trans (Fades-wait want r) }

    push_timeout-Faded :
        (sec nsec : ℕ)
        → Keeps Faded Faded (push_or_raise (timeout_entry sec nsec) timeout_not_submitted)
    unfolding ◌>>=◌
    push_timeout-Faded sec nsec = record {
      at = λ r h. elim (Option-cases (p.push (timeout_entry sec nsec) r)) [
        | inl full ↦ rw full h
        | inr (r', room) ↦ rw room (
            rw (laws.push_adds (timeout_entry sec nsec) r room) (
              Fades-timeout h (timeout_entry sec nsec) (record { sec = sec; nsec = nsec }) refl
                refl))
      ];
    }

    timeout_steps-Faded : (sec nsec : ℕ) → Keeps Faded Faded (timeout_steps sec nsec)
    timeout_steps-Faded sec nsec =
        Keeps-bind submit-Faded (λ r h. h)
          λ count.
            Keeps-bind (push_timeout-Faded sec nsec) (λ r h. h)
              λ _. Keeps-bind (wait-Faded 1) (λ r h. h) λ _. Keeps-pure (λ r h. h) count

  pub Quiet-wait_with_timeout :
      ⦃c : Crates⦄ → (sec nsec : ℕ) (s : Process R) → Quiet true s (wait_with_timeout sec nsec s).1
  unfolding wait_with_timeout
  Quiet-wait_with_timeout sec nsec s =
      Quiet-with_ring (timeout_steps sec nsec) s
        (λ r. (timeout_steps-Faded (laws.outstanding r) sec nsec).at r (Fades-refl _))
