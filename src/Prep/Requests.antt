-- ===== src/Prep/Requests.antt =====
-- src/files.rs, src/network.rs and src/shared.rs: what the entries of the preparing functions say, and
-- what the ring is to own for them.
use century_ring.Common.{ℕ, ◌+◌, ◌≤◌, ◌≡◌, Option, none, some, List, length, take, drop}
use century_ring.Common.Int.{ℤ}
use century_ring.Platform.{Op, Sqe, Crates}
use century_ring.Ring.State.{OwnedData, buffer, sock_addr}
use century_ring.Prep.Shared.{as_u32}

module _ ⦃c : Crates⦄ where
  -- an operation without a pointer
  abbrev pub Plain : Op → ℕ → Sqe → Option OwnedData → Type 0
  Plain op sqe_flags e content =
      (e.op ≡ op) × (e.flags ≡ c.from_bits_truncate sqe_flags) × (content ≡ none)

  -- one that points into an allocation, which has this content
  abbrev pub Pointing : (ℕ → Op) → OwnedData → ℕ → Sqe → Option OwnedData → Type 0
  Pointing op owned sqe_flags e content =
      (block : ℕ) × (e.op ≡ op block)
      × (e.flags ≡ c.from_bits_truncate sqe_flags)
      × (content ≡ some owned)

  -- one that points to a copy of the window of `size` bytes from `offset` on, which lies in `bytes`
  abbrev pub PointingToWindow : (ℕ → ℕ → Op) → List ℕ → ℕ → ℕ → ℕ → Sqe → Option OwnedData → Type 0
  PointingToWindow op bytes size offset sqe_flags e content =
      (offset + size ≤ length bytes)
      × Pointing (λ block. op block (as_u32 size)) (buffer (take size (drop offset bytes)))
          sqe_flags e content

  -- one that points to the address that a text stands for
  abbrev pub PointingToAddress :
      ℤ → Option (List ℕ) → (List ℕ → List ℕ) → ℕ → Sqe → Option OwnedData → Type 0
  PointingToAddress fd parsed sockaddr sqe_flags e content =
      (ip : List ℕ) × (parsed ≡ some ip)
      × Pointing (λ block. Op.connect fd block (length (sockaddr ip))) (sock_addr (sockaddr ip))
          sqe_flags e content
