-- ===== src/Handle/Protocol.antt =====
-- pysrc/century_ring/handle.py: the protocols `IntoFilelikeHandle` and `FileLikeHandle`, with what
-- their texts promise, and `FdHandle` as an implementation.
use century_ring.Common.{
  ℕ, ◌≡◌, ◌≢◌, refl, inl, inr, Bool, true, false, some, List, get_elem?, set, get_elem?-set_self,
  get_elem?-set_ne, ◌∷◌, lt-length_of_some, Option-cases, Bool-cases, ◌==◌, arith,
}
use century_ring.Common.Int.{ℤ}
use century_ring.Common.Exec.{Result-cases, ok, Exec, pure, ◌>>=◌}
use century_ring.Platform.{Os}
use century_ring.Handle.{FdHandle, HandleStore, fd_of, close_called, mark_closed, close, exit}

-- an object of type `I` turns into a handle of type `H`
pub record IntoFilelikeHandle (I H : Type 0) : Type 0 where
  pub as_handle : I → H

-- the methods, on a state `S` in which the objects live
pub record FileLikeHandle (S H : Type 0) : Type 0 where
  pub into : IntoFilelikeHandle H H
  pub fd : H → Exec S ℤ
  pub enter : H → Exec S H
  pub exit : H → Exec S Bool
  pub close_called : H → Exec S Bool
  pub mark_closed : H → Exec S Unit
  pub close : H → Exec S Unit

-- What the texts of the protocol promise, for the objects that are there, with the calls of
-- close(2) that were made so far; and that a handle keeps its descriptor.
pub record FileLikeHandleLaws {S H : Type 0} (there : S → H → Type 0) (close_calls : S → List ℤ)
    (h : FileLikeHandle S H) : Type 0 where
  pub as_handle_self : (x : H) → h.into.as_handle x ≡ x
  pub enter_self : (x : H) (s : S) → h.enter x s ≡ (ok x, s)
  -- to mark as closed is no close operation
  pub marked : (x : H) (s : S) → there s x → (h.close_called x (h.mark_closed x s).1).0 ≡ ok true
  pub mark_makes_no_call : (x : H) (s : S) → close_calls (h.mark_closed x s).1 ≡ close_calls s
  -- `close` succeeds as far as the handle goes, even if it raises, and is idempotent
  pub closed : (x : H) (s : S) → there s x → (h.close_called x (h.close x s).1).0 ≡ ok true
  pub close_again : (x : H) (s : S) → (h.close_called x s).0 ≡ ok true → h.close x s ≡ (ok tt, s)
  -- the `with` statement closes, and lets the exception of its block through
  pub exit_closes : (x : H) (s : S) → (h.exit x s).1 ≡ (h.close x s).1
  pub exit_lets_through : (x : H) (s : S) → (h.exit x s).0 ≢ ok true
  -- no other method closes or changes a handle's descriptor
  pub fd_stays :
      (x y : H) (s : S)
      → ((h.fd y (h.close x s).1).0 ≡ (h.fd y s).0)
        × ((h.fd y (h.mark_closed x s).1).0 ≡ (h.fd y s).0)

unfoldable pub enter : ℕ → Exec HandleStore ℕ
enter ref = pure ref

unfoldable pub as_handle : ℕ → ℕ
as_handle ref = ref

module _ ⦃o : Os⦄ where
  unfoldable pub fd_handle : FileLikeHandle HandleStore ℕ
  fd_handle = record {
    into = record { as_handle = as_handle };
    fd = fd_of;
    enter = enter;
    exit = exit;
    close_called = close_called;
    mark_closed = mark_closed;
    close = close;
  }

-- the object that a reference names is in the store
pub record IsThere (s : HandleStore) (ref : ℕ) : Type 0 where
  pub object : FdHandle
  pub found : get_elem? s.handles ref ≡ some object

module _ (ref : ℕ) (s : HandleStore) (there : IsThere s ref) where
  marked_there :
      get_elem? (set s.handles ref (record there.object { close_called = true })) ref
      ≡ some (record there.object { close_called = true })
  marked_there = get_elem?-set_self s.handles ref _ (lt-length_of_some s.handles ref there.found)

  mark_closed-close_called : (close_called ref (mark_closed ref s).1).0 ≡ ok true
  unfolding close_called mark_closed ◌>>=◌
  mark_closed-close_called = rw there.found (rw marked_there refl)

  close-close_called : ⦃o : Os⦄ → (close_called ref (close ref s).1).0 ≡ ok true
  unfolding close_called close ◌>>=◌
  close-close_called = elim (Bool-cases there.object.close_called) [
    | inl before ↦ rw there.found (rw before (rw there.found (rw before refl)))
    | inr now ↦ rw there.found (rw now (rw marked_there refl))
  ]

mark_closed-close_calls :
    (ref : ℕ) (s : HandleStore) → (mark_closed ref s).1.close_calls ≡ s.close_calls
unfolding mark_closed ◌>>=◌
mark_closed-close_calls ref s = elim (Option-cases (get_elem? s.handles ref)) [
  | inl lost ↦ rw lost refl
  | inr (x, there) ↦ rw there refl
]

module _ ⦃o : Os⦄ where
  close_closed :
      (ref : ℕ) (s : HandleStore) → (close_called ref s).0 ≡ ok true → close ref s ≡ (ok tt, s)
  unfolding close_called close ◌>>=◌
  close_closed ref s h = elim (Option-cases (get_elem? s.handles ref)) [
    | inl lost ↦ absurd (ground (arith, h, lost))
    | inr (x, there) ↦ elim (Bool-cases x.close_called) [
      | inl before ↦ rw there (rw before refl)
      | inr now ↦ let same : ok false ≡ ok true = rw (there, now) at h in cc
    ]
  ]

  exit-close :
      (ref : ℕ) (s : HandleStore) → ((exit ref s).1 ≡ (close ref s).1) × ((exit ref s).0 ≢ ok true)
  unfolding exit ◌>>=◌
  exit-close ref s = elim (Result-cases (close ref s).0) [
    | inl (x, done) ↦ rw done (refl, λ h. cc)
    | inr (e, failed) ↦ rw failed (refl, λ h. cc)
  ]

-- closing or marking one handle leaves the descriptor of every other, and its own
fd_of-marked :
    (ref y : ℕ) (s : HandleStore) (calls : List ℤ) {x : FdHandle}
    → get_elem? s.handles ref ≡ some x
    → (fd_of y (record {
      handles = set s.handles ref (record x { close_called = true });
      close_calls = calls;
    })).0
      ≡ (fd_of y s).0
unfolding fd_of ◌>>=◌
fd_of-marked ref y s calls {x} there = elim (Bool-cases (ref == y)) [
  | inl same ↦
      let is_ref : y ≡ ref = ground arith in
      rw is_ref (
        rw there (
          rw
            (get_elem?-set_self s.handles ref (record x { close_called = true })
              (lt-length_of_some s.handles ref there))
            refl))
  | inr other ↦
      let untouched =
        get_elem?-set_ne s.handles ref y (record x { close_called = true }) (ground arith) in
      elim (Option-cases (get_elem? s.handles y)) [
        | inl lost ↦ rw (untouched, lost) refl
        | inr (z, found) ↦ rw (untouched, found) refl
      ]
]

mark_closed-fd_of :
    (ref y : ℕ) (s : HandleStore) → (fd_of y (mark_closed ref s).1).0 ≡ (fd_of y s).0
unfolding mark_closed ◌>>=◌
mark_closed-fd_of ref y s = elim (Option-cases (get_elem? s.handles ref)) [
  | inl lost ↦ rw lost refl
  | inr (x, there) ↦ rw there (fd_of-marked ref y s s.close_calls there)
]

close-fd_of : ⦃o : Os⦄ → (ref y : ℕ) (s : HandleStore) → (fd_of y (close ref s).1).0 ≡ (fd_of y s).0
unfolding close ◌>>=◌
close-fd_of ref y s = elim (Option-cases (get_elem? s.handles ref)) [
  | inl lost ↦ rw lost refl
  | inr (x, there) ↦ elim (Bool-cases x.close_called) [
    | inl before ↦ rw there (rw before refl)
    | inr now ↦ rw there (rw now (fd_of-marked ref y s (x.fd ∷ s.close_calls) there))
  ]
]

-- `FdHandle` keeps every promise of `FileLikeHandle`, on any system: for an object that is there,
-- `mark_closed` marks it and calls no close(2); after `close` it counts as closed, also if that
-- raises, and a further `close` does nothing; the `with` statement closes it and lets exceptions
-- through; and no closing or marking changes the descriptor of any handle.
pub fd_handle_promises : ⦃o : Os⦄ → FileLikeHandleLaws IsThere (λ s. s.close_calls) fd_handle
unfolding fd_handle enter as_handle pure
fd_handle_promises = record {
  as_handle_self = λ x. refl;
  enter_self = λ x s. refl;
  marked = mark_closed-close_called;
  mark_makes_no_call = mark_closed-close_calls;
  closed = λ x s there. close-close_called x s there;
  close_again = close_closed;
  exit_closes = λ x s. (exit-close x s).0;
  exit_lets_through = λ x s. (exit-close x s).1;
  fd_stays = λ x y s. (close-fd_of x y s, mark_closed-fd_of x y s);
}
