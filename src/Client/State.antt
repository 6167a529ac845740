-- ===== src/Client/State.antt =====
-- pysrc/century_ring/ring.py: what a method of `IoUring` works on, and `unwrap_file`.
use century_ring.Common.{ℕ, Option, none, some}
use century_ring.Common.Int.{ℤ}
use century_ring.Common.Exec.{
  Exec, pure, ◌>>=◌, ◌>>◌, or_raise, raise_if, value_error, handle_closed, overflow_error,
}
use century_ring.Platform.{Crates}
use century_ring.Ring.State.{Process, get_next_user_data}
use century_ring.Handle.{HandleStore, fd_of, close_called}

-- `int`, or an object whose `as_handle()` is the handle that the reference names
pub data AcceptableFile : Type 0 where
  int : ℤ → AcceptableFile
  object : ℕ → AcceptableFile

-- The Rust side and the Python objects.
pub record World (R : Type 0) : Type 0 where
  pub process : Process R
  pub store : HandleStore

module _ {R A : Type 0} where
  abbrev pub on_process : Exec (Process R) A → Exec (World R) A
  on_process m w = let (x, s) = m w.process in (x, record w { process = s })

  abbrev pub on_store : Exec HandleStore A → Exec (World R) A
  on_store m w = let (x, s) = m w.store in (x, record w { store = s })

-- the conversions of the arguments of a Rust function, in their order
module _ {S : Type 0} ⦃c : Crates⦄ where
  abbrev pub unsigned : ℕ → ℤ → Exec S ℕ
  unsigned width n = or_raise overflow_error (c.to_unsigned width n)

  abbrev pub signed : ℕ → ℤ → Exec S ℤ
  signed width n = or_raise overflow_error (c.to_signed width n)

module _ {R : Type 0} where
  unfoldable pub unwrap_file : AcceptableFile → Exec (World R) ℤ
  unwrap_file (int fd) = pure fd
  unwrap_file (object ref) = do
    closed ← on_store (close_called ref)
    raise_if closed (value_error (handle_closed ref))
    on_store (fd_of ref)

  -- `self._the_ring.get_next_user_data()`
  abbrev pub next_user_data : Exec (World R) ℕ
  next_user_data = on_process get_next_user_data

-- `x if x is not None else default`
abbrev pub if_none {ℓ} : {A : Type ℓ} → A → Option A → A
if_none default none = default
if_none default (some x) = x
