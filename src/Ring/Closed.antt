-- ===== src/Ring/Closed.antt =====
-- The methods of src/ring.rs on a ring that has been closed.
use century_ring.Common.{ℕ, ◌≡◌, refl}
use century_ring.Common.Int.{ℤ}
use century_ring.Common.Exec.{ok, err, value_error, ring_closed, ◌>>=◌}
use century_ring.Platform.{Sqe, Crates, Platform}
use century_ring.Ring.State.{Process, close}
use century_ring.Ring.Queue.{
  autosubmit, submit, wait, wait_with_timeout, pending_sq_entries, register_eventfd,
}
use century_ring.Ring.Reap.{get_completion_entries}

module _ {R : Type 0} ⦃c : Crates⦄ ⦃p : Platform R⦄ where
  -- After `close`, which succeeds on every ring: every method that needs the ring raises the
  -- ValueError "The ring is closed", and changes nothing; so does pushing an entry; closing once
  -- more changes nothing.
  pub closed_ring_refuses :
      (s : Process R)
      → let closed = (close s).1 in
        (((close s).0 ≡ ok tt) × (close closed ≡ (ok tt, closed)))
        × (submit closed ≡ (err (value_error ring_closed), closed))
        × ((want : ℕ) → wait want closed ≡ (err (value_error ring_closed), closed))
        × ((sec nsec : ℕ)
            → wait_with_timeout sec nsec closed ≡ (err (value_error ring_closed), closed))
        × (pending_sq_entries closed ≡ (err (value_error ring_closed), closed))
        × ((batches : ℕ)
            → get_completion_entries batches closed ≡ (err (value_error ring_closed), closed))
        × ((fd : ℤ) → register_eventfd fd closed ≡ (err (value_error ring_closed), closed))
        × ((entry : Sqe) → autosubmit entry closed ≡ (err (value_error ring_closed), closed))
  unfolding close submit wait wait_with_timeout pending_sq_entries get_completion_entries
      register_eventfd autosubmit ◌>>=◌
  closed_ring_refuses s =
      ((refl, refl), refl, (λ _. refl), (λ _ _. refl), refl, (λ _. refl), (λ _. refl), λ _. refl)
