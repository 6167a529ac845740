-- ===== src/Handle.antt =====
-- pysrc/century_ring/handle.py: `FdHandle`. Handles are shared objects: a reference is a place in
-- the store, and every alias sees a call of `mark_closed` or `close`.
pub mod Laws
pub mod Protocol
use century_ring.Common.{
  ℕ, Bool, true, false, Option, none, some, List, [], ◌∷◌, ◌++◌, length, get_elem?, set,
  if◌then◌else◌,
}
use century_ring.Common.Int.{ℤ}
use century_ring.Common.Exec.{
  Result, ok, err, Exec, pure, lift, ◌>>=◌, ◌>>◌, os_error, no_such_object,
}
use century_ring.Platform.{Os}
use century_ring.Ring.State.{CompletionEvent}
use century_ring.Helpers.{raise_for_cqe}

pub record FdHandle : Type 0 where
  pub fd : ℤ
  pub close_called : Bool

-- The objects, and the calls of close(2) so far, the last one first.
pub record HandleStore : Type 0 where
  pub handles : List FdHandle
  pub close_calls : List ℤ

-- `__init__`: a new object
unfoldable pub new_handle : ℤ → Exec HandleStore ℕ
new_handle fd s = (
  ok (length s.handles),
  record s { handles = s.handles ++ record { fd = fd; close_called = false } ∷ [] },
)

unfoldable pub from_completion_event : CompletionEvent → Exec HandleStore ℕ
from_completion_event event = do lift (raise_for_cqe event); new_handle event.result

abbrev pub deref : Option FdHandle → Exec HandleStore FdHandle
deref none s = (err no_such_object, s)
deref (some h) s = (ok h, s)

-- the object that a reference names
abbrev pub at_ref : ℕ → Exec HandleStore FdHandle
at_ref ref s = deref (get_elem? s.handles ref) s

unfoldable pub fd_of : ℕ → Exec HandleStore ℤ
fd_of ref = do h ← at_ref ref; pure h.fd

unfoldable pub close_called : ℕ → Exec HandleStore Bool
close_called ref = do h ← at_ref ref; pure h.close_called

abbrev set_closed : ℕ → FdHandle → HandleStore → HandleStore
set_closed ref h s = record s { handles = set s.handles ref (record h { close_called = true }) }

unfoldable pub mark_closed : ℕ → Exec HandleStore Unit
mark_closed ref = do h ← at_ref ref; λ s. (ok tt, set_closed ref h s)

abbrev pub close_outcome : Option ℕ → Result Unit
close_outcome none = ok tt
close_outcome (some errno) = err (os_error errno)

-- `os.close`: the call is made, and raises or not
abbrev os_close : ⦃o : Os⦄ → ℤ → Exec HandleStore Unit
os_close ⦃o⦄ fd s =
    (close_outcome (o.close s.close_calls fd), record s { close_calls = fd ∷ s.close_calls })

-- `try: m finally: f`, for an `f` that does not raise
abbrev finally : {S A : Type 0} → Exec S A → (S → S) → Exec S A
finally m f s = let (r, s') = m s in (r, f s')

unfoldable pub close : ⦃o : Os⦄ → ℕ → Exec HandleStore Unit
close ref = do
  h ← at_ref ref
  if h.close_called then pure tt else finally (os_close h.fd) (set_closed ref h)

-- `__exit__`: it never swallows the exception of the block
unfoldable pub exit : ⦃o : Os⦄ → ℕ → Exec HandleStore Bool
unfolding close
exit ref = do close ref; pure false
