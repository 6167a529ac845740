-- ===== src/Ring/State.antt =====
-- src/ring.rs: the structs, and the ring's ownership of buffers.
use century_ring.Common.{ℕ, ◌+◌, ◌%◌, suc, String, Bool, not, Option, none, some, List}
use century_ring.Common.Int.{ℤ, u64_mod}
use century_ring.Common.Dict.{Dict, insert}
use century_ring.Common.Exec.{
  Result, err, Exec, value_error, not_implemented, ring_closed, raise_if, modify,
}
use century_ring.Platform.{Opcode}

-- `SockAddr` holds the bytes of the address.
pub data OwnedData : Type 0 where
  one_path : List ℕ → OwnedData
  two_paths : List ℕ → List ℕ → OwnedData
  buffer : List ℕ → OwnedData
  sock_addr : List ℕ → OwnedData

-- The owned value with the allocation that holds its bytes.
pub record Owned : Type 0 where
  pub block : ℕ
  pub content : OwnedData

pub record CompletionEvent : Type 0 where
  pub user_data : ℕ
  pub result : ℤ
  pub buffer : Option (List ℕ)

-- `probe` is used through `is_supported` alone.
pub record TheIoRing (R : Type 0) : Type 0 where
  pub the_io_uring : Option R
  pub probe : Opcode → Bool
  pub user_data_counter : ℕ
  pub autosubmit : Bool
  pub owned_data : Dict Owned

-- The ring object and the allocator: allocations are numbered in their order, and no number comes
-- back, so that an entry's pointer says which allocation it is into.
pub record Process (R : Type 0) : Type 0 where
  pub ring : TheIoRing R
  pub open ring use *
  pub next_block : ℕ

module _ {R : Type 0} where
  abbrev pub set_ring : R → Process R → Process R
  set_ring r s = record s { ring = record s.ring { the_io_uring = some r } }

  -- `let Some(ring) = &mut self.the_io_uring else { return Err(…) }`, and the rest of the method
  abbrev pub with_ring : {A : Type 0} → Exec R A → Exec (Process R) A
  with_ring m s = elim s.the_io_uring [
    | none ↦ (err (value_error ring_closed), s)
    | some r ↦ let (x, r') = m r in (x, set_ring r' s)
  ]

  unfoldable pub get_next_user_data : Exec (Process R) ℕ
  get_next_user_data s = (
    Result.ok s.user_data_counter,
    record s { ring = record s.ring { user_data_counter = (s.user_data_counter + 1) % u64_mod } },
  )

  abbrev pub own : ℕ → Owned → Process R → Process R
  own user_data o s = record s {
    ring = record s.ring { owned_data = insert user_data o s.owned_data };
  }

  unfoldable pub add_owned_path : ℕ → ℕ → List ℕ → Exec (Process R) Unit
  add_owned_path user_data block path =
      modify (own user_data (record { block = block; content = one_path path }))

  unfoldable pub add_owned_buffer : ℕ → ℕ → List ℕ → Exec (Process R) Unit
  add_owned_buffer user_data block buf =
      modify (own user_data (record { block = block; content = buffer buf }))

  unfoldable pub add_owned_sockaddr : ℕ → ℕ → List ℕ → Exec (Process R) Unit
  add_owned_sockaddr user_data block addr =
      modify (own user_data (record { block = block; content = sock_addr addr }))

  -- A new `Vec` or `Box` on the heap.
  unfoldable pub allocate : Exec (Process R) ℕ
  allocate s = (Result.ok s.next_block, record s { next_block = suc s.next_block })

  -- `if !ring.probe.is_supported(…) { return Err(PyNotImplementedError::new_err(…)) }`
  unfoldable pub require_support : Opcode → String → Exec (Process R) Unit
  require_support code name s = raise_if (not (s.probe code)) (not_implemented name) s

  unfoldable pub close : Exec (Process R) Unit
  close = modify (λ s. record s { ring = record s.ring { the_io_uring = none } })
