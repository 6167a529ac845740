-- ===== src/Prep/SkipSuccess.antt =====
-- SKIP_SUCCESS on the functions of src/files.rs and src/network.rs that hand the ring a buffer.
use century_ring.Common.{
  ℕ, ◌≡◌, ◌⊎◌, inl, inr, refl, String, true, false, Option, none, some, List, Bool-cases,
  Option-cases,
}
use century_ring.Common.Int.{ℤ}
use century_ring.Common.Exec.{
  Result, err, Exec, ◌>>=◌, value_error, not_implemented, bad_address, skip_success_owned,
}
use century_ring.Platform.{Opcode, Crates, Platform}
use century_ring.Ring.State.{Process, require_support, allocate}
use century_ring.Prep.Shared.{is_skip_success}
use century_ring.Prep.Files.{ioring_prep_openat, ioring_prep_read, ioring_prep_write}
use century_ring.Prep.Network.{
  do_sockaddr_submit, ioring_prep_connect_v4, ioring_prep_connect_v6, ioring_prep_send,
  ioring_prep_recv,
}

-- The operations with owned data, and the arguments beside the user data and the flags.
pub data OwningOp : Type 0 where
  openat : ℤ → List ℕ → ℤ → ℕ → OwningOp
  read : ℤ → ℕ → ℤ → OwningOp
  write : ℤ → List ℕ → ℕ → ℕ → ℤ → OwningOp
  connect_v4 connect_v6 : ℤ → String → ℕ → OwningOp
  send : ℤ → List ℕ → ℕ → ℕ → ℤ → OwningOp
  recv : ℤ → ℕ → ℤ → OwningOp

abbrev pub opcode_of : OwningOp → Opcode
opcode_of (openat _ _ _ _) = Opcode.open_at
opcode_of (read _ _ _) = Opcode.read
opcode_of (write _ _ _ _ _) = Opcode.write
opcode_of (connect_v4 _ _ _) = Opcode.connect
opcode_of (connect_v6 _ _ _) = Opcode.connect
opcode_of (send _ _ _ _ _) = Opcode.send
opcode_of (recv _ _ _) = Opcode.recv

-- an address of a connect is one that the standard library parses
abbrev pub HasAddress : ⦃c : Crates⦄ → OwningOp → Type 0
HasAddress ⦃c⦄ (connect_v4 _ ip _) = (octets : List ℕ) × (c.parse_v4 ip ≡ some octets)
HasAddress ⦃c⦄ (connect_v6 _ ip _) = (octets : List ℕ) × (c.parse_v6 ip ≡ some octets)
HasAddress _ = Unit

unparsed : {x : Option (List ℕ)} → x ≡ none → (octets : List ℕ) × (x ≡ some octets) → ⊥
unparsed bad (octets, parsed) = cc

module _ {R : Type 0} ⦃c : Crates⦄ ⦃p : Platform R⦄ where
  unfoldable pub prepare : OwningOp → ℕ → ℕ → Exec (Process R) Unit
  prepare (openat dirfd path flags mode) u sqe = ioring_prep_openat dirfd path u flags mode sqe
  prepare (read fd max_size offset) u sqe = ioring_prep_read fd max_size offset u sqe
  prepare (write fd bytes size start offset) u sqe =
      ioring_prep_write fd bytes size start offset u sqe
  prepare (connect_v4 fd ip port) u sqe = ioring_prep_connect_v4 fd ip port u sqe
  prepare (connect_v6 fd ip port) u sqe = ioring_prep_connect_v6 fd ip port u sqe
  prepare (send fd bytes size start flags) u sqe = ioring_prep_send fd bytes size start flags u sqe
  prepare (recv fd max_size flags) u sqe = ioring_prep_recv fd max_size flags u sqe

  -- How a refused operation ends: the kernel does not support it; or an address does not parse; or,
  -- if neither, for asking to skip its completion.
  abbrev pub RaisesFor : OwningOp → Process R → Result Unit → Type 0
  RaisesFor op s result =
      ((name : String) × (s.probe (opcode_of op) ≡ false) × (result ≡ err (not_implemented name)))
      ⊎ ((s.probe (opcode_of op) ≡ true)
          × (HasAddress op → ⊥)
          × (result ≡ err (value_error bad_address)))
      ⊎ ((s.probe (opcode_of op) ≡ true)
          × HasAddress op
          × (result ≡ err (value_error skip_success_owned)))

  -- Every operation with owned data that is asked to skip its completion raises, whatever its other
  -- arguments and whatever the kernel supports, and the ring object, its queue and its owned data
  -- stay as they were. Unless the kernel does not support it, a NotImplementedError, or an address
  -- does not parse, it is refused for that reason.
  pub skip_success_refused :
      (op : OwningOp) (u sqe_flags : ℕ) (s : Process R)
      → is_skip_success (c.from_bits_truncate sqe_flags) ≡ true
      → ((prepare op u sqe_flags s).1.ring ≡ s.ring) × RaisesFor op s (prepare op u sqe_flags s).0
  unfolding prepare ioring_prep_openat ioring_prep_read ioring_prep_write ioring_prep_connect_v4
      ioring_prep_connect_v6 do_sockaddr_submit ioring_prep_send ioring_prep_recv require_support
      allocate ◌>>=◌
  skip_success_refused (connect_v4 fd ip port) u sqe s skip =
      elim (Bool-cases (s.probe Opcode.connect)) [
        | inl probe ↦ elim (Option-cases (c.parse_v4 ip)) [
          | inl bad ↦ rw (probe, bad) (refl, inr (inl (refl, unparsed refl, refl)))
          | inr (octets, parsed) ↦
              rw (probe, parsed, skip) (refl, inr (inr (refl, (octets, refl), refl)))
        ]
        | inr missing ↦ rw missing (refl, inl ("connect", refl, refl))
      ]
  skip_success_refused (connect_v6 fd ip port) u sqe s skip =
      elim (Bool-cases (s.probe Opcode.connect)) [
        | inl probe ↦ elim (Option-cases (c.parse_v6 ip)) [
          | inl bad ↦ rw (probe, bad) (refl, inr (inl (refl, unparsed refl, refl)))
          | inr (octets, parsed) ↦
              rw (probe, parsed, skip) (refl, inr (inr (refl, (octets, refl), refl)))
        ]
        | inr missing ↦ rw missing (refl, inl ("connect", refl, refl))
      ]
  skip_success_refused (openat dirfd path flags mode) u sqe s skip =
      elim (Bool-cases (s.probe Opcode.open_at)) [
        | inl probe ↦ rw (probe, skip) (refl, inr (inr (refl, tt, refl)))
        | inr missing ↦ rw missing (refl, inl ("openat", refl, refl))
      ]
  skip_success_refused (read fd max_size offset) u sqe s skip =
      elim (Bool-cases (s.probe Opcode.read)) [
        | inl probe ↦ rw (probe, skip) (refl, inr (inr (refl, tt, refl)))
        | inr missing ↦ rw missing (refl, inl ("read", refl, refl))
      ]
  skip_success_refused (write fd bytes size start offset) u sqe s skip =
      elim (Bool-cases (s.probe Opcode.write)) [
        | inl probe ↦ rw (probe, skip) (refl, inr (inr (refl, tt, refl)))
        | inr missing ↦ rw missing (refl, inl ("write", refl, refl))
      ]
  skip_success_refused (send fd bytes size start flags) u sqe s skip =
      elim (Bool-cases (s.probe Opcode.send)) [
        | inl probe ↦ rw (probe, skip) (refl, inr (inr (refl, tt, refl)))
        | inr missing ↦ rw missing (refl, inl ("send", refl, refl))
      ]
  skip_success_refused (recv fd max_size flags) u sqe s skip =
      elim (Bool-cases (s.probe Opcode.recv)) [
        | inl probe ↦ rw (probe, skip) (refl, inr (inr (refl, tt, refl)))
        | inr missing ↦ rw missing (refl, inl ("recv", refl, refl))
      ]
