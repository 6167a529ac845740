-- ===== src/Memory/QuietCalls.antt =====
-- The calls of pysrc/century_ring/ring.py and handle.py that neither prepare an operation nor reap:
-- what they do to the ring object.
use century_ring.Common.{ℕ, ◌≡◌, refl, sym, Bool, true, false, Option, none, some}
use mathlib.Core.Path.{subst}
use century_ring.Common.Int.{ℤ}
use century_ring.Common.Exec.{Exec, or_raise, overflow_error, ◌>>=◌}
use century_ring.Common.Keeps.{Keeps, Keeps-bind, Keeps-pure, Keeps-or_raise}
use century_ring.Platform.{Crates, Platform, Os}
use century_ring.Platform.Laws.{PlatformLaws}
use century_ring.Ring.State.{Process, CompletionEvent}
use century_ring.Ring.State
use century_ring.Handle
use century_ring.Client.State.{World, on_process, on_store}
use century_ring.Client.Queue
use century_ring.Memory.Quiet.{
  Quiet, Quiet-refl, Quiet-submit, Quiet-wait, Quiet-wait_with_timeout, Quiet-pending_sq_entries,
  Quiet-register_eventfd, Quiet-close,
}

-- `exit_handle` is the end of the `with` block of a handle, `end_with` that of the ring. `as_handle`
-- and `__enter__` change nothing.
pub data QuietCall : Type 0 where
  submit : QuietCall
  submit_and_wait : ℤ → QuietCall
  submit_and_wait_with_timeout : ℤ → ℤ → QuietCall
  pending_sq_entries : QuietCall
  register_eventfd : Option ℤ → QuietCall
  new_handle : CompletionEvent → QuietCall
  close_handle : ℕ → QuietCall
  mark_closed : ℕ → QuietCall
  exit_handle : ℕ → QuietCall
  end_with : QuietCall

-- whether it is the call that pushes a timeout
abbrev pub is_timed : QuietCall → Bool
is_timed (submit_and_wait_with_timeout _ _) = true
is_timed _ = false

module _ {R : Type 0} ⦃c : Crates⦄ ⦃p : Platform R⦄ ⦃o : Os⦄ where
  unfoldable pub run_quiet : QuietCall → World R → World R
  run_quiet submit w = (Queue.submit w).1
  run_quiet (submit_and_wait count) w = (Queue.submit_and_wait count w).1
  run_quiet (submit_and_wait_with_timeout seconds nsec) w =
      (Queue.submit_and_wait_with_timeout seconds nsec w).1
  run_quiet pending_sq_entries w = (Queue.pending_sq_entries w).1
  run_quiet (register_eventfd event_fd) w = (Queue.register_eventfd event_fd w).1
  run_quiet (new_handle event) w = (on_store (Handle.from_completion_event event) w).1
  run_quiet (close_handle ref) w = (on_store (Handle.close ref) w).1
  run_quiet (mark_closed ref) w = (on_store (Handle.mark_closed ref) w).1
  run_quiet (exit_handle ref) w = (on_store (Handle.exit ref) w).1
  run_quiet end_with w = (on_process State.close w).1

module _ {R : Type 0} ⦃c : Crates⦄ ⦃p : Platform R⦄ ⦃o : Os⦄ (laws : PlatformLaws R) (timed : Bool)
    (w : World R) where
  abbrev Before : World R → Type 0
  Before s = s ≡ w

  abbrev After : World R → Type 0
  After s = Quiet laws timed w.process s.process

  unmoved : (s : World R) → Before s → After s
  unmoved s same = subst After (sym same) (Quiet-refl laws w.process)

  on_process-Quiet :
      {A : Type 0} (m : Exec (Process R) A)
      → ((s : Process R) → Quiet laws timed s (m s).1)
      → Keeps Before After (on_process m)
  on_process-Quiet m h = record { at = λ s same. rw same (h w.process) }

  converted :
      {A B : Type 0} (x : Option A) (rest : A → Exec (World R) B)
      → ((a : A) → Keeps Before After (rest a))
      → Keeps Before After (or_raise overflow_error x >>= rest)
  converted x rest h = Keeps-or_raise unmoved overflow_error x rest (λ a _. h a)

  or_new_eventfd-Before : (fd : Option ℤ) → Keeps Before Before (Queue.or_new_eventfd fd)
  or_new_eventfd-Before none = record { at = λ s same. same }
  or_new_eventfd-Before (some fd) = record { at = λ s same. same }

  submit_and_wait-Quiet : (count : ℤ) → Keeps Before After (Queue.submit_and_wait count)
  unfolding Queue.submit_and_wait
  submit_and_wait-Quiet count = converted _ _ λ want. on_process-Quiet _ (Quiet-wait laws want)

  register_eventfd-Quiet : (fd : Option ℤ) → Keeps Before After (Queue.register_eventfd fd)
  unfolding Queue.register_eventfd
  register_eventfd-Quiet fd = Keeps-bind (or_new_eventfd-Before fd) unmoved λ event_fd.
      converted _ _ λ raw_fd.
        Keeps-bind (on_process-Quiet _ (Quiet-register_eventfd laws raw_fd)) (λ s h. h)
          λ _. Keeps-pure (λ s h. h) event_fd

module _ {R : Type 0} ⦃c : Crates⦄ ⦃p : Platform R⦄ ⦃o : Os⦄ (laws : PlatformLaws R)
    (w : World R) where
  submit_and_wait_with_timeout-Quiet :
      (seconds nsec : ℤ)
      → Keeps
          (Before laws true w)
          (After laws true w)
          (Queue.submit_and_wait_with_timeout seconds nsec)
  unfolding Queue.submit_and_wait_with_timeout
  submit_and_wait_with_timeout-Quiet seconds nsec = converted laws true w _ _ λ sec.
      converted laws true w _ _
        λ nanos. on_process-Quiet laws true w _ (Quiet-wait_with_timeout laws sec nanos)

  pub run_quiet-Quiet :
      (call : QuietCall) → Quiet laws (is_timed call) w.process (run_quiet call w).process
  unfolding run_quiet Queue.submit Queue.pending_sq_entries
  run_quiet-Quiet submit = Quiet-submit laws w.process
  run_quiet-Quiet (submit_and_wait count) = (submit_and_wait-Quiet laws false w count).at w refl
  run_quiet-Quiet (submit_and_wait_with_timeout seconds nsec) =
      (submit_and_wait_with_timeout-Quiet seconds nsec).at w refl
  run_quiet-Quiet pending_sq_entries = Quiet-pending_sq_entries laws w.process
  run_quiet-Quiet (register_eventfd event_fd) =
      (register_eventfd-Quiet laws false w event_fd).at w refl
  run_quiet-Quiet (new_handle event) = Quiet-refl laws w.process
  run_quiet-Quiet (close_handle ref) = Quiet-refl laws w.process
  run_quiet-Quiet (mark_closed ref) = Quiet-refl laws w.process
  run_quiet-Quiet (exit_handle ref) = Quiet-refl laws w.process
  run_quiet-Quiet end_with = Quiet-close laws w.process
