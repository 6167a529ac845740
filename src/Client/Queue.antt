-- ===== src/Client/Queue.antt =====
-- pysrc/century_ring/ring.py: the methods of `IoUring` that submit, wait and reap.
use century_ring.Common.{ℕ, Option, none, some, List, bit_or}
use century_ring.Common.Int.{ℤ}
use century_ring.Common.Exec.{ok, Exec, pure, ◌>>=◌, ◌>>◌}
use century_ring.Platform.{from_io, Crates, Platform, Os}
use century_ring.Ring.State.{CompletionEvent}
use century_ring.Ring.Queue
use century_ring.Ring.Reap
use century_ring.Client.State.{World, on_process, unsigned, signed}

-- os.EFD_CLOEXEC | os.EFD_NONBLOCK
abbrev pub eventfd_flags : ℕ
eventfd_flags = bit_or 0o2000000 0o4000

module _ {R : Type 0} ⦃c : Crates⦄ ⦃p : Platform R⦄ where
  unfoldable pub pending_sq_entries : Exec (World R) ℕ
  pending_sq_entries = on_process Queue.pending_sq_entries

  unfoldable pub submit : Exec (World R) ℕ
  submit = on_process Queue.submit

  unfoldable pub submit_and_wait : ℤ → Exec (World R) ℕ
  submit_and_wait count = do want ← unsigned 64 count; on_process (Queue.wait want)

  unfoldable pub submit_and_wait_with_timeout : ℤ → ℤ → Exec (World R) ℕ
  submit_and_wait_with_timeout seconds nsec = do
    sec ← unsigned 64 seconds
    nanos ← unsigned 32 nsec
    on_process (Queue.wait_with_timeout sec nanos)

  -- `batches` is the fuel of the loop over the completion queue.
  unfoldable pub get_completion_entries : ℕ → Exec (World R) (List CompletionEvent)
  get_completion_entries batches = on_process (Reap.get_completion_entries batches)

  abbrev pub or_new_eventfd : ⦃o : Os⦄ → Option ℤ → Exec (World R) ℤ
  or_new_eventfd ⦃o⦄ none w = (from_io (o.eventfd 0 eventfd_flags), w)
  or_new_eventfd (some fd) w = (ok fd, w)

  unfoldable pub register_eventfd : ⦃o : Os⦄ → Option ℤ → Exec (World R) ℤ
  register_eventfd event_fd = do
    fd ← or_new_eventfd event_fd
    raw_fd ← signed 32 fd
    on_process (Queue.register_eventfd raw_fd)
    pure fd
