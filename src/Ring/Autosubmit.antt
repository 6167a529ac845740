-- ===== src/Ring/Autosubmit.antt =====
-- `autosubmit` of src/ring.rs: its loop against a description without one, and when it succeeds.
use century_ring.Common.{
  ℕ, suc, ◌<◌, ◌≡◌, ◌⊎◌, Bool, true, false, inl, inr, Option, none, some, Bool-cases, Option-cases,
  arith,
}
use century_ring.Common.Exec.{Result, ok, err, ◌>>=◌, value_error, queue_full}
use century_ring.Platform.{Sqe, IoResult, done, failed, IoResult-cases, from_io, Platform}
use century_ring.Platform.Laws.{PlatformLaws}
use century_ring.Ring.State.{Process}
use century_ring.Ring.Queue.{autosubmit_loop, autosubmit}

module _ {R : Type 0} ⦃p : Platform R⦄ where
  -- what becomes of a push that was tried after a submission
  abbrev pub second_try : R → Option R → Result Unit × R
  second_try r none = (err (value_error queue_full), r)
  second_try r (some r') = (ok tt, r')

  abbrev pub after_submit : Sqe → IoResult ℕ × R → Result Unit × R
  after_submit e (done n, r) = second_try r (p.push e r)
  after_submit e (failed errno, r) = (from_io (failed errno), r)

  abbrev pub first_try : Bool → Sqe → R → Option R → Result Unit × R
  first_try enabled e r (some r') = (ok tt, r')
  first_try true e r none = after_submit e (p.submit r)
  first_try false e r none = (err (value_error queue_full), r)

  last_round :
      (rounds : ℕ) (enabled : Bool) (e : Sqe) (r : R)
      → autosubmit_loop (suc rounds) true enabled e r ≡ after_submit e (p.submit r)
  unfolding autosubmit_loop ◌>>=◌
  last_round rounds enabled e r = elim (IoResult-cases (p.submit r).0) [
    | inl (n, done_n) ↦ elim (Option-cases (p.push e (p.submit r).1)) [
      | inl full ↦ rw (done_n, full)
      | inr (r', room) ↦ rw (done_n, room)
    ]
    | inr (errno, failed_n) ↦ rw failed_n
  ]

  -- With two rounds or more the loop has ended by one of its returns: the entry is pushed; or, with
  -- a full queue, one submission is made and the push is tried once more; or, with autosubmit off,
  -- the queue is left alone.
  pub autosubmit_loop-eq-tries :
      (rounds : ℕ) (enabled : Bool) (e : Sqe) (r : R)
      → autosubmit_loop (suc (suc rounds)) false enabled e r ≡ first_try enabled e r (p.push e r)
  unfolding autosubmit_loop ◌>>=◌
  autosubmit_loop-eq-tries rounds enabled e r = elim (Option-cases (p.push e r)) [
    | inl full ↦ elim (Bool-cases enabled) [
      | inl on ↦ rw (full, on) (last_round rounds true e r)
      | inr off ↦ rw (full, off)
    ]
    | inr (r', room) ↦ rw room
  ]

module _ {R : Type 0} ⦃p : Platform R⦄ (laws : PlatformLaws R) where
  second_try-ok :
      (e : Sqe) (r : R) → p.sq_len r < laws.capacity r → (second_try r (p.push e r)).0 ≡ ok tt
  second_try-ok e r room = elim (Option-cases (p.push e r)) [
    | inl full ↦ absurd (laws.push_room e r room full)
    | inr (r', pushed) ↦ rw pushed
  ]

  -- An open ring with autosubmit takes every entry, if there is room in its queue, or if submitting
  -- the queue succeeds and leaves room in it, as it does unless the kernel takes nothing or a
  -- polling thread of the kernel has not come to the queue yet.
  pub autosubmit_succeeds :
      (e : Sqe) (s : Process R) {r : R} {n : ℕ}
      → s.the_io_uring ≡ some r
      → s.autosubmit ≡ true
      → (p.sq_len r < laws.capacity r)
        ⊎ (((p.submit r).0 ≡ done n) × (p.sq_len (p.submit r).1 < laws.capacity r))
      → (autosubmit e s).0 ≡ ok tt
  unfolding autosubmit
  autosubmit_succeeds e s {r} {n} opened on room =
      rw (opened, autosubmit_loop-eq-tries 0 s.autosubmit e r, on)
        (elim (Option-cases (p.push e r)) [
          | inl full ↦ elim room [
            | inl had_room ↦ absurd (laws.push_room e r had_room full)
            | inr (taken, left) ↦
                rw (full, taken)
                  (second_try-ok e (p.submit r).1 (omega (arith, left, laws.submit_capacity r)))
          ]
          | inr (r', pushed) ↦ rw pushed
        ])
