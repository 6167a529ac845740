-- ===== src/Sidecar/Host.antt =====
-- What the sidecar calls of sniffio, trio and anyio, and what it relies on in them.
use century_ring.Common.{ℕ, ◌≡◌, Bool, true, false, Option}
use century_ring.Common.Exec.{Error, Result}

-- what `sniffio.current_async_library()` tells apart
pub data AsyncLibrary : Type 0 where
  trio asyncio other_library : AsyncLibrary

-- `E` is the event loop and all else that the program has beside the ring. Instruments and task
-- groups are objects, named by numbers.
pub record AsyncHost (E : Type 0) : Type 0 where
  -- a new object, hashed by its identity
  pub new_object : E → ℕ × E
  -- trio.lowlevel
  pub add_instrument : ℕ → E → E
  pub remove_instrument : ℕ → E → Result (Unit {0}) × E
  -- anyio: the group, its tasks, the cancellation of its scope, and its `__aexit__`, which takes the
  -- exception of the block and gives the one that leaves
  pub create_task_group : E → ℕ × E
  pub start_soon : ℕ → E → E
  pub cancel : ℕ → E → E
  pub exit_group : ℕ → Option Error → E → Option Error × E

-- trio calls the instruments that are installed; task groups have no part in that.
pub record AsyncHostLaws (E : Type 0) ⦃host : AsyncHost E⦄ : Type 0 where
  pub installed : E → ℕ → Bool
  pub add_installs : (i : ℕ) (e : E) → installed (host.add_instrument i e) i ≡ true
  pub remove_removes :
      (i : ℕ) (e : E) → installed e i ≡ true → installed (host.remove_instrument i e).1 i ≡ false
  pub group_keeps : (i : ℕ) (e : E) → installed (host.create_task_group e).1 i ≡ installed e i
  pub start_keeps : (g i : ℕ) (e : E) → installed (host.start_soon g e) i ≡ installed e i
  pub cancel_keeps : (g i : ℕ) (e : E) → installed (host.cancel g e) i ≡ installed e i
  pub exit_keeps :
      (g i : ℕ) (x : Option Error) (e : E) → installed (host.exit_group g x e).1 i ≡ installed e i
