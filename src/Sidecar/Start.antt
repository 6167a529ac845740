-- ===== src/Sidecar/Start.antt =====
-- pysrc/century_ring/aio/sidecar.py and trio.py: `start_uring_sidecar`, step by step. What the user
-- does with the manager is `body`, with the tasks that run meanwhile.
use century_ring.Common.{ℕ, Bool, true, Option, none, some}
use century_ring.Common.Int.{ℤ, pos}
use century_ring.Common.Exec.{Error, Result, ok, err, Exec, pure, modify, ◌>>=◌, ◌>>◌}
use century_ring.Platform.{from_io, Crates, Platform, Os}
use century_ring.Handle.{HandleStore}
use century_ring.Client.State.{World}
use century_ring.Client.Queue
use century_ring.Client.Session.{RingArgs, Scope, on_world, WithOutcome, make_io_ring}
use century_ring.Sidecar.Host.{AsyncLibrary, trio, asyncio, other_library, AsyncHost}

pub record SidecarArgs : Type 0 where
  pub ring : RingArgs
  pub force_submissions : Bool

-- the arguments of the manager beside the ring
pub record ManagerArgs : Type 0 where
  pub efd : ℤ
  pub force_submissions : Bool

-- the defaults of `make_io_ring`
abbrev pub default_ring_args : RingArgs
default_ring_args = record {
  entries = pos 256;
  cq_size = none;
  sqpoll_idle_ms = none;
  single_issuer = true;
  autosubmit = true;
}

-- asyncio cannot be asked to submit before it waits
abbrev pub forces : AsyncLibrary → Bool → Bool
forces trio force_submissions = force_submissions
forces asyncio force_submissions = true
forces other_library force_submissions = force_submissions

module _ {R : Type 0} ⦃c : Crates⦄ ⦃p : Platform R⦄ where
  -- trio.py: `UringSidecarInstrument.before_io_wait`
  unfoldable pub before_io_wait : Exec (World R) Unit
  before_io_wait = Queue.submit >> pure tt

module _ {R : Type 0} ⦃o : Os⦄ where
  -- `os.eventfd(0)`, whose flags are os.EFD_CLOEXEC by default
  abbrev new_eventfd : Exec (World R) ℤ
  new_eventfd w = (from_io (o.eventfd 0 0o2000000), w)

module _ {R : Type 0} ⦃c : Crates⦄ ⦃p : Platform R⦄ ⦃o : Os⦄ where
  unfoldable pub set_up_eventfd : Exec (World R) ℤ
  set_up_eventfd = do efd ← new_eventfd; Queue.register_eventfd (some efd); pure efd

-- an exception of the `finally` takes the place of the block's outcome
abbrev pub unless_raised : {A : Type 0} → Result A → Result Unit → Result A
unless_raised r (ok _) = r
unless_raised r (err e) = err e

abbrev pub exception_of : {A : Type 0} → Result A → Option Error
exception_of (ok a) = none
exception_of (err e) = some e

-- what leaves the task group: an exception of its own, or the outcome of the block, with none if it
-- swallowed the block's exception
abbrev pub leaving : {A : Type 0} → Result A → Option Error → Result (Option A)
leaving r (some e) = err e
leaving (ok a) none = ok (some a)
leaving (err e) none = ok none

module _ {R E : Type 0} ⦃host : AsyncHost E⦄ where
  -- the branch on trio, which gives the instrument
  abbrev pub install : AsyncLibrary → Exec (Scope R E) (Option ℕ)
  install trio s =
      let (i, e) = host.new_object s.outer in
      (ok (some i), record s { outer = host.add_instrument i e })
  install asyncio s = (ok none, s)
  install other_library s = (ok none, s)

  -- there is an instrument exactly on trio
  abbrev uninstall : Option ℕ → Exec (Scope R E) Unit
  uninstall none s = (ok tt, s)
  uninstall (some i) s =
      let (x, e) = host.remove_instrument i s.outer in (x, record s { outer = e })

  -- the `finally` of the innermost block
  abbrev pub stop_group : ℕ → Option ℕ → Exec (Scope R E) Unit
  stop_group g instrument s = uninstall instrument (record s { outer = host.cancel g s.outer })

  abbrev pub try_finally :
      {A : Type 0} → Exec (Scope R E) A → Exec (Scope R E) Unit → Exec (Scope R E) A
  try_finally m last s = let (r, s') = m s in let (x, s'') = last s' in (unless_raised r x, s'')

  -- `async with anyio.create_task_group() as group`
  abbrev pub with_group : {A : Type 0} → (ℕ → Exec (Scope R E) A) → Exec (Scope R E) (Option A)
  with_group block s =
      let (g, e) = host.create_task_group s.outer in
      let (r, s') = block g (record s { outer = e }) in
      let (x, e') = host.exit_group g (exception_of r) s'.outer in
      (leaving r x, record s' { outer = e' })

module _ {R E A : Type 0} ⦃c : Crates⦄ ⦃p : Platform R⦄ ⦃o : Os⦄ ⦃host : AsyncHost E⦄ where
  -- the block of the task group
  unfoldable pub with_manager :
      Bool → Option ℕ → (ManagerArgs → Exec (Scope R E) A) → ℕ → Exec (Scope R E) A
  with_manager force_submissions instrument body g = do
    efd ← on_world set_up_eventfd
    modify (λ s. record s { outer = host.start_soon g s.outer })
    try_finally (body (record { efd = efd; force_submissions = force_submissions }))
        (stop_group g instrument)

  -- the block of `make_io_ring`
  unfoldable pub beside_ring :
      AsyncLibrary → Bool → (ManagerArgs → Exec (Scope R E) A) → Exec (Scope R E) (Option A)
  beside_ring lib force_submissions body = do
    instrument ← install lib
    with_group (with_manager (forces lib force_submissions) instrument body)

  unfoldable pub start_uring_sidecar :
      SidecarArgs
      → AsyncLibrary
      → (ManagerArgs → Exec (Scope R E) A)
      → HandleStore
      → E
      → WithOutcome R E (Option A)
  start_uring_sidecar a lib body =
      make_io_ring default_ring_args (beside_ring lib a.force_submissions body)
