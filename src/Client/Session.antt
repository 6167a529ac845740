-- ===== src/Client/Session.antt =====
-- pysrc/century_ring/ring.py: `make_io_ring`, the `with` block around a ring.
use century_ring.Common.{Bool, Option, none, some, if◌then◌else◌}
use century_ring.Common.Int.{ℤ, pos, ltb_ℤ}
use century_ring.Common.Exec.{Error, Result, ok, err, Exec, pure, ◌>>=◌}
use century_ring.Platform.{Crates, Platform}
use century_ring.Handle.{HandleStore}
use century_ring.Ring.State.{TheIoRing}
use century_ring.Ring.State
use century_ring.Ring.Create.{CreateArgs, create_io_ring}
use century_ring.Client.State.{World, on_process, unsigned}

-- the arguments of `make_io_ring`
pub record RingArgs : Type 0 where
  pub entries : ℤ
  pub cq_size : Option ℤ
  pub sqpoll_idle_ms : Option ℤ
  pub single_issuer : Bool
  pub autosubmit : Bool

-- `n if (n and n > 0) else 0`
unfoldable pub positive_or_zero : Option ℤ → ℤ
positive_or_zero none = pos 0
positive_or_zero (some n) = if ltb_ℤ (pos 0) n then n else pos 0

module _ ⦃c : Crates⦄ where
  -- the conversions of the arguments of `create_io_ring`
  unfoldable pub create_args : RingArgs → Exec HandleStore CreateArgs
  create_args a = do
    entries ← unsigned 32 a.entries
    cq_entries ← unsigned 32 (positive_or_zero a.cq_size)
    sqlpoll_idle_ms ← unsigned 32 (positive_or_zero a.sqpoll_idle_ms)
    pure (record {
      entries = entries;
      cq_entries = cq_entries;
      sqlpoll_idle_ms = sqlpoll_idle_ms;
      single_issuer = a.single_issuer;
      autosubmit = a.autosubmit;
    })

-- What a `with` block works on: the ring's world, and all else that it may change.
pub record Scope (R E : Type 0) : Type 0 where
  pub world : World R
  pub outer : E

-- What is left of a `with` statement: the exception of the creation, or the block's result with the
-- state that the `finally` leaves.
pub data WithOutcome (R E A : Type 0) : Type 0 where
  not_created : Error → HandleStore → E → WithOutcome R E A
  finished : Result A → Scope R E → WithOutcome R E A

module _ {R : Type 0} where
  -- no allocation has been made yet
  abbrev pub new_world : TheIoRing R → HandleStore → World R
  new_world ring store = record { process = record { ring = ring; next_block = 0 }; store = store }

  abbrev pub new_scope : {E : Type 0} → TheIoRing R → HandleStore → E → Scope R E
  new_scope ring store outer = record { world = new_world ring store; outer = outer }

module _ {R E A : Type 0} where
  abbrev pub on_world : Exec (World R) A → Exec (Scope R E) A
  on_world m s = let (x, w) = m s.world in (x, record s { world = w })

module _ {R E A : Type 0} where
  -- `try: yield … finally: ring.close()`; closing raises nothing
  unfoldable pub run_and_close : Exec (Scope R E) A → Exec (Scope R E) A
  run_and_close block s =
      let (result, s') = block s in
      let (_, closed) = on_world (on_process State.close) s' in (result, closed)

  abbrev pub with_ring_object :
      Exec (Scope R E) A → E → Result (TheIoRing R) × HandleStore → WithOutcome R E A
  with_ring_object block outer (err e, store) = not_created e store outer
  with_ring_object block outer (ok ring, store) =
      let (result, s) = run_and_close block (new_scope ring store outer) in finished result s

module _ {R : Type 0} ⦃c : Crates⦄ ⦃p : Platform R⦄ where
  -- `_RUSTFFI_create_io_ring(…)`
  abbrev pub created : RingArgs → Exec HandleStore (TheIoRing R)
  created a = create_args a >>= λ raw s. (create_io_ring raw, s)

module _ {R E A : Type 0} ⦃c : Crates⦄ ⦃p : Platform R⦄ where
  unfoldable pub make_io_ring : RingArgs → Exec (Scope R E) A → HandleStore → E → WithOutcome R E A
  make_io_ring a block store outer = with_ring_object block outer (created a store)
