-- ===== src/Memory/Frames.antt =====
-- Pointers into a stack frame: only `wait_with_timeout` of src/ring.rs makes such an entry.
use century_ring.Common.{
  ℕ, suc, ◌+◌, ◌≤◌, ◌<◌, refl, length, ◌≡◌, ◌≢◌, inl, inr, Bool, true, false, ◌||◌, some, List, [],
  ◌∷◌, In, here, there, Option-cases, true_ne_false, sym, arith,
}
use mathlib.Core.Path.{subst}
use century_ring.Common.Exec.{Result, ok, err}
use century_ring.Platform.{Sqe, Cqe, Timespec, in_frame, points_to, Crates, Platform, Os}
use century_ring.Platform.Laws.{CrateLaws, PlatformLaws}
use century_ring.Ring.State.{TheIoRing, Process, set_ring}
use century_ring.Ring.Reap.{drain, finish}
use century_ring.Ring.Reap
use century_ring.Prep.Outcome.{Asking, PrepOutcome, not_pushed, pushed, handed_over}
use century_ring.Client.State.{World}
use century_ring.Client.Queue
use century_ring.Client.Outcome.{MethodOutcome, early, failed, returned}
use century_ring.Client.Outcome.Methods.{method_outcomes}
use century_ring.Memory.Invariant.{reserved, pending_of, Shrinks, Fades}
use century_ring.Memory.Quiet.{Quiet}
use century_ring.Memory.QuietCalls.{run_quiet, run_quiet-Quiet, is_timed}
use century_ring.Memory.Reap.{drain-Leaves, DrainLeaves}
use century_ring.Memory.Settled.{Settled}
use century_ring.Memory.Sequence.{
  Call, prepare, quietly, get_completion_entries, run_call, run_calls, run_call-WorldWithin,
}

-- no entry points into a stack frame
abbrev pub NoFrames : List Sqe → Type 0
NoFrames l = (e : Sqe) (t : Timespec) → In e l → points_to e.op ≢ some (in_frame t)

-- whether one of the calls pushes a timeout
abbrev pub any_timed : List Call → Bool
any_timed [] = false
any_timed (quietly call ∷ calls) = is_timed call || any_timed calls
any_timed (_ ∷ calls) = any_timed calls

or-false : (b : Bool) → (b || false) ≡ false → b ≡ false
or-false true h = h
or-false false h = h

any_timed-cons :
    (call : Call) (calls : List Call)
    → any_timed (call ∷ calls) ≡ false
    → (any_timed (call ∷ []) ≡ false) × (any_timed calls ≡ false)
any_timed-cons (prepare method) calls h = (refl, h)
any_timed-cons (get_completion_entries batches) calls h = (refl, h)
any_timed-cons (quietly call) calls h = ground (arith, h)

NoFrames-Shrinks : {q l : List Sqe} → Shrinks q l → NoFrames l → NoFrames q
NoFrames-Shrinks shrinks clear e t m = clear e t (shrinks.keeps e m)

NoFrames-Fades : {q l : List Sqe} → Fades false q l → NoFrames l → NoFrames q
NoFrames-Fades fades clear e t m points = elim (fades.frames e t m points) [
  | inl before ↦ clear e t before points
  | inr (impossible, _) ↦ true_ne_false (sym impossible)
]

NoFrames-push :
    {e : Sqe} {q : List Sqe}
    → ((t : Timespec) → points_to e.op ≢ some (in_frame t))
    → NoFrames q
    → NoFrames (e ∷ q)
NoFrames-push other clear e t here = other t
NoFrames-push other clear e t (there m) = clear e t m

module _ {R : Type 0} ⦃p : Platform R⦄ (laws : PlatformLaws R) where
  abbrev Clear : TheIoRing R → Type 0
  Clear ring = NoFrames (pending_of laws ring.the_io_uring)

  prepare-Clear :
      {asks : Asking} {u : ℕ} {ring : TheIoRing R} {x : Result Unit} {after : TheIoRing R}
      → PrepOutcome laws asks u ring x after
      → Clear ring
      → Clear after
  prepare-Clear (not_pushed e o same shrinks) clear = rw same (NoFrames-Shrinks shrinks clear)
  prepare-Clear (pushed entry r q carries asked plain same at_head shrinks) clear =
      rw same (rw at_head (NoFrames-push (λ t points. cc) (NoFrames-Shrinks shrinks clear)))
  prepare-Clear (handed_over entry o r q carries asked points same at_head shrinks) clear =
      rw same (rw at_head (NoFrames-push (λ t framed. cc) (NoFrames-Shrinks shrinks clear)))

  method-Clear :
      (w : World R) {asks : Asking} {x : Result ℕ} {after : World R}
      → MethodOutcome laws asks w x after
      → Clear w.process.ring
      → Clear after.process.ring
  method-Clear w (early e same) clear = rw same clear
  method-Clear w (failed e prepared kept) clear = prepare-Clear prepared clear
  method-Clear w (returned prepared marked) clear = prepare-Clear prepared clear

  finish-Clear :
      (s : Process R) (x : Result (List Cqe) × R)
      → DrainLeaves laws (pending_of laws s.the_io_uring) x
      → Clear s.ring
      → Clear (finish s x).1.ring
  finish-Clear s (err e, r) left clear e' t m = clear e' t (left.keeps e' m)
  finish-Clear s (ok entries, r) left clear e t m = clear e t (left.keeps e m)

  reap-Clear :
      (batches : ℕ) (s : Process R)
      → Clear s.ring
      → Clear (Reap.get_completion_entries batches s).1.ring
  unfolding Reap.get_completion_entries
  reap-Clear batches s clear = elim (Option-cases s.the_io_uring) [
    | inl closed ↦ rw closed (rw closed at clear)
    | inr (r, opened) ↦ rw opened (
        finish-Clear (set_ring r s) (drain batches [] r)
          (drain-Leaves laws (laws.outstanding r) batches [] r
            (record { keeps = λ e m. m; counts = λ u. omega arith }))
          (rw opened at clear))
  ]

  Quiet-Clear : {s s' : Process R} → Quiet laws false s s' → Clear s.ring → Clear s'.ring
  Quiet-Clear quiet clear = rw quiet.same (NoFrames-Fades quiet.fades clear)

module _ {R : Type 0} ⦃c : Crates⦄ ⦃p : Platform R⦄ ⦃o : Os⦄ (claws : CrateLaws)
    (laws : PlatformLaws R) where
  run_call-Clear :
      (limit : ℕ) (call : Call) (w : World R)
      → limit < reserved
      → Settled laws limit w.process.ring
      → any_timed (call ∷ []) ≡ false
      → Clear laws w.process.ring
      → Clear laws (run_call call w).process.ring
  unfolding run_call Queue.get_completion_entries
  run_call-Clear limit (prepare method) w low settled untimed clear =
      method-Clear laws w (method_outcomes claws laws w (omega (arith, settled.counted)) method)
        clear
  run_call-Clear limit (quietly call) w low settled untimed clear =
      let quiet : Quiet laws false w.process (run_quiet call w).process =
        subst (λ timed. Quiet laws timed w.process (run_quiet call w).process)
          (or-false (is_timed call) untimed) (run_quiet-Quiet laws w call) in
      Quiet-Clear laws quiet clear
  run_call-Clear limit (get_completion_entries batches) w low settled untimed clear =
      reap-Clear laws batches w.process clear

  -- From a ring without such an entry on, there is none after calls of which none pushes a timeout.
  pub run_calls-NoFrames :
      (calls : List Call) (limit : ℕ) (w : World R)
      → limit + length calls ≤ reserved
      → Settled laws limit w.process.ring
      → any_timed calls ≡ false
      → NoFrames (pending_of laws w.process.the_io_uring)
      → NoFrames (pending_of laws (run_calls calls w).process.the_io_uring)
  unfolding run_calls
  run_calls-NoFrames [] limit w few settled untimed clear = clear
  run_calls-NoFrames (call ∷ calls) limit w few settled untimed clear =
      let (first, later) = any_timed-cons call calls untimed in
      run_calls-NoFrames calls (suc limit) (run_call call w) (omega arith)
        (run_call-WorldWithin claws laws limit call w (omega arith) settled) later
        (run_call-Clear limit call w (omega arith) settled first clear)
