-- ===== src/Client/Unwrap.antt =====
-- pysrc/century_ring/ring.py: what `unwrap_file` gives, and that it changes nothing.
use century_ring.Common.{◌≡◌, refl, sym, inl, inr, get_elem?, Option-cases, Bool-cases}
use century_ring.Common.Int.{ℤ}
use century_ring.Common.Exec.{
  ok, err, ok_injective, pure, ◌>>=◌, no_such_object, value_error, handle_closed,
}
use century_ring.Handle.{fd_of, close_called}
use century_ring.Client.Requests.{FileIs}
use century_ring.Client.State.{AcceptableFile, int, object, World, unwrap_file}

module _ {R : Type 0} where
  pub unwrap_file-state : (fd : AcceptableFile) (w : World R) → (unwrap_file fd w).1 ≡ w
  unfolding unwrap_file close_called fd_of ◌>>=◌
  unwrap_file-state (int fd) w = refl
  unwrap_file-state (object ref) w = elim (Option-cases (get_elem? w.store.handles ref)) [
    | inl dangling ↦ rw dangling refl
    | inr (x, there) ↦ elim (Bool-cases x.close_called) [
      | inl closed ↦ rw there (rw closed refl)
      | inr usable ↦ rw there (rw usable (rw there refl))
    ]
  ]

  -- the descriptor that it gives
  pub unwrap_file-FileIs :
      (fd : AcceptableFile) (s : World R) (file : ℤ)
      → (unwrap_file fd s).0 ≡ ok file
      → FileIs fd s.store file
  unfolding unwrap_file close_called fd_of ◌>>=◌ pure
  unwrap_file-FileIs (int fd) s file given = sym (ok_injective given)
  unwrap_file-FileIs (object ref) s file given =
      elim (Option-cases (get_elem? s.store.handles ref)) [
        | inl lost ↦ let impossible : err no_such_object ≡ ok file = rw lost at given in cc
        | inr (x, there) ↦ elim (Bool-cases x.close_called) [
          | inl closed ↦
              let impossible : err (value_error (handle_closed ref)) ≡ ok file =
                rw (there, closed) at given in
              cc
          | inr usable ↦ (x, there, usable, sym (ok_injective (rw (there, usable, there) at given)))
        ]
      ]
