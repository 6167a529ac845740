-- ===== src/Client/ClosedHandle.antt =====
-- pysrc/century_ring/ring.py: the methods of `IoUring` that take an fd, on a handle that is closed.
use century_ring.Common.{
  ℕ, zero, suc, ◌≡◌, ◌≢◌, ◌⊎◌, inl, inr, refl, ap, String, true, false, Option, none, some, List,
  get_elem?, arith,
}
use century_ring.Common.Int.{ℤ, pos, negsuc, ltb_ℤ}
use century_ring.Common.Exec.{Result, err, Exec, ◌>>=◌, value_error, negative_offset, handle_closed}
use century_ring.Platform.{Crates, Platform}
use century_ring.Handle.{FdHandle, close_called}
use century_ring.Ring.State.{get_next_user_data}
use century_ring.Client.State.{AcceptableFile, object, World, unwrap_file}
use century_ring.Client.Files
use century_ring.Client.Network

-- a method, and its arguments beside the fd and the flags of the entry
pub data FdMethod : Type 0 where
  prep_close : FdMethod
  prep_read : ℤ → ℤ → FdMethod
  prep_write : List ℕ → ℤ → Option ℤ → Option ℤ → FdMethod
  prep_connect_v4 prep_connect_v6 : String → ℤ → FdMethod
  prep_recv : ℤ → ℤ → FdMethod
  prep_send : List ℕ → Option ℤ → Option ℤ → ℤ → FdMethod

-- the offset in the file, which reading and writing look at first
abbrev pub offset_of : FdMethod → Option ℤ
offset_of (prep_read byte_count offset) = some offset
offset_of (prep_write buffer file_offset count buffer_offset) = some file_offset
offset_of _ = none

-- `negsuc 0` is -1
ltb-minus_one :
    (z : ℤ)
    → ((k : ℕ) × (z ≡ negsuc (suc k)) × (ltb_ℤ z (negsuc 0) ≡ true))
      ⊎ (((k : ℕ) → some z ≢ some (negsuc (suc k))) × (ltb_ℤ z (negsuc 0) ≡ false))
ltb-minus_one (pos n) = inr (λ k e. cc, ground arith)
ltb-minus_one (negsuc zero) = inr (λ k e. ground arith, refl)
ltb-minus_one (negsuc (suc k)) = inl (k, refl, ground arith)

module _ {R : Type 0} ⦃c : Crates⦄ ⦃p : Platform R⦄ where
  unfoldable pub call : FdMethod → AcceptableFile → Option ℤ → Exec (World R) ℕ
  call prep_close fd sqe = Files.prep_close fd sqe
  call (prep_read byte_count offset) fd sqe = Files.prep_read fd byte_count offset sqe
  call (prep_write buffer file_offset count buffer_offset) fd sqe =
      Files.prep_write fd buffer file_offset count buffer_offset sqe
  call (prep_connect_v4 address port) fd sqe = Network.prep_connect_v4 fd address port sqe
  call (prep_connect_v6 address port) fd sqe = Network.prep_connect_v6 fd address port sqe
  call (prep_recv byte_count flags) fd sqe = Network.prep_recv fd byte_count flags sqe
  call (prep_send buffer count buffer_offset flags) fd sqe =
      Network.prep_send fd buffer count buffer_offset flags sqe

  -- a closed handle is refused: the handles, the ring, its queue and its owned data stay as they
  -- were, and only the user data that the method had taken is gone
  abbrev pub RefusesHandle : ℕ → World R → Result ℕ × World R → Type 0
  RefusesHandle ref w out = out ≡ (
    err (value_error (handle_closed ref)),
    record w { process = (get_next_user_data w.process).1 },
  )

  -- Every method that takes an fd raises a ValueError on a closed handle, whatever its other
  -- arguments: for an offset in the file below -1, which comes first and leaves everything as it was,
  -- or else for the handle.
  pub closed_handle_refused :
      (method : FdMethod) (ref : ℕ) (sqe : Option ℤ) (w : World R) (x : FdHandle)
      → get_elem? w.store.handles ref ≡ some x
      → x.close_called ≡ true
      → let out = call method (object ref) sqe w in
        ((k : ℕ) × (offset_of method ≡ some (negsuc (suc k)))
          × (out ≡ (err (value_error (negative_offset (negsuc (suc k)))), w)))
        ⊎ (((k : ℕ) → offset_of method ≢ some (negsuc (suc k))) × RefusesHandle ref w out)
  unfolding call unwrap_file close_called get_next_user_data Files.prep_close Files.prep_read
      Files.prep_write Network.prep_connect_v4 Network.prep_connect_v6 Network.prep_recv
      Network.prep_send ◌>>=◌
  closed_handle_refused prep_close ref sqe w x there closed =
      rw there (rw closed (inr (λ k e. cc, refl)))
  closed_handle_refused (prep_connect_v4 _ _) ref sqe w x there closed =
      rw there (rw closed (inr (λ k e. cc, refl)))
  closed_handle_refused (prep_connect_v6 _ _) ref sqe w x there closed =
      rw there (rw closed (inr (λ k e. cc, refl)))
  closed_handle_refused (prep_recv _ _) ref sqe w x there closed =
      rw there (rw closed (inr (λ k e. cc, refl)))
  closed_handle_refused (prep_send _ _ _ _) ref sqe w x there closed =
      rw there (rw closed (inr (λ k e. cc, refl)))
  closed_handle_refused (prep_read byte_count offset) ref sqe w x there closed =
      elim (ltb-minus_one offset) [
        | inl (k, is, negative) ↦
            rw negative
              (inl (k, ap some is, ap (λ z. (err (value_error (negative_offset z)), w)) is))
        | inr (fine, allowed) ↦ rw allowed (rw there (rw closed (inr (fine, refl))))
      ]
  closed_handle_refused (prep_write buffer offset count buffer_offset) ref sqe w x there closed =
      elim (ltb-minus_one offset) [
        | inl (k, is, negative) ↦
            rw negative
              (inl (k, ap some is, ap (λ z. (err (value_error (negative_offset z)), w)) is))
        | inr (fine, allowed) ↦ rw allowed (rw there (rw closed (inr (fine, refl))))
      ]
