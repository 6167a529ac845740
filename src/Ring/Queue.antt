-- ===== src/Ring/Queue.antt =====
-- src/ring.rs: the methods that push to the submission queue and submit it.
use century_ring.Common.{
  ℕ, zero, suc, Option, none, some, Bool, true, false, not, ◌||◌, none, some, if◌then◌else◌,
}
use century_ring.Common.Int.{ℤ}
use century_ring.Common.Exec.{
  Message, Result, ok, Exec, pure, raise, ◌>>=◌, ◌>>◌, value_error, queue_full,
  timeout_not_submitted, out_of_fuel,
}
use century_ring.Platform.{Sqe, Op, Crates, Platform, skip_success, from_io}
use century_ring.Ring.State.{Process, with_ring}

abbrev pub timeout_user_data : ℕ
timeout_user_data = 0xFFFF_FFFF_FFFF_FF00

-- The loop of `autosubmit` runs at most twice.
abbrev pub autosubmit_rounds : ℕ
autosubmit_rounds = 2

module _ ⦃c : Crates⦄ where
  abbrev pub timeout_entry : ℕ → ℕ → Sqe
  timeout_entry sec nsec = record {
    op = Op.timeout (record { sec = sec; nsec = nsec });
    flags = c.flag skip_success;
    user_data = timeout_user_data;
  }

abbrev pub push_outcome : {R : Type 0} → R → Option R → Result Bool × R
push_outcome r none = (ok false, r)
push_outcome r (some r') = (ok true, r')

module _ {R : Type 0} ⦃p : Platform R⦄ where
  abbrev pub ring_submit : Exec R ℕ
  ring_submit r = let (x, r') = p.submit r in (from_io x, r')

  abbrev pub ring_submit_and_wait : ℕ → Exec R ℕ
  ring_submit_and_wait want r = let (x, r') = p.submit_and_wait want r in (from_io x, r')

  -- whether the push was `Ok`
  abbrev pub ring_push : Sqe → Exec R Bool
  ring_push entry r = push_outcome r (p.push entry r)

  abbrev pub submit_if : Bool → Exec R Unit
  submit_if true = ring_submit >> pure tt
  submit_if false = pure tt

  -- one `loop { … }` of `autosubmit`, by the rounds that are left
  unfoldable pub autosubmit_loop : ℕ → Bool → Bool → Sqe → Exec R Unit
  autosubmit_loop zero needs_submit enabled entry = raise out_of_fuel
  autosubmit_loop (suc rounds) needs_submit enabled entry =
      let again = autosubmit_loop rounds true enabled entry in
      do
        submit_if needs_submit
        pushed ← ring_push entry
        if pushed
            then pure tt
            else if needs_submit || not enabled
            then raise (value_error queue_full)
            else again

  unfoldable pub autosubmit : Sqe → Exec (Process R) Unit
  autosubmit entry s = with_ring (autosubmit_loop autosubmit_rounds false s.autosubmit entry) s

  unfoldable pub submit : Exec (Process R) ℕ
  submit = with_ring ring_submit

  unfoldable pub wait : ℕ → Exec (Process R) ℕ
  wait want = with_ring (ring_submit_and_wait want)

  abbrev pub push_or_raise : Sqe → Message → Exec R Unit
  push_or_raise entry m = do
    pushed ← ring_push entry
    if pushed then pure tt else raise (value_error m)

  unfoldable pub pending_sq_entries : Exec (Process R) ℕ
  pending_sq_entries = with_ring (λ r. (ok (p.sq_len r), r))

  unfoldable pub register_eventfd : ℤ → Exec (Process R) Unit
  register_eventfd event_fd =
      with_ring (λ r. let (x, r') = p.register_eventfd event_fd r in (from_io x, r'))

module _ {R : Type 0} ⦃c : Crates⦄ ⦃p : Platform R⦄ where
  abbrev pub timeout_steps : ℕ → ℕ → Exec R ℕ
  timeout_steps sec nsec = do
    count ← ring_submit
    push_or_raise (timeout_entry sec nsec) timeout_not_submitted
    ring_submit_and_wait 1
    pure count

  unfoldable pub wait_with_timeout : ℕ → ℕ → Exec (Process R) ℕ
  wait_with_timeout sec nsec = with_ring (timeout_steps sec nsec)
