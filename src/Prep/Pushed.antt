-- ===== src/Prep/Pushed.antt =====
-- What the functions of src/files.rs and src/network.rs with owned data push and hand over, when the
-- queue has room.
use century_ring.Common.{
  ℕ, suc, ◌+◌, ◌-◌, ◌≤◌, ◌≡◌, refl, true, false, Option, none, some, List, [], ◌∷◌, ◌++◌, length,
  length-replicate, take, drop, replicate, arith,
}
use century_ring.Common.Int.{as_u64}
use century_ring.Common.Exec.{ok, ◌>>=◌}
use century_ring.Platform.{Sqe, Op, Crates, Platform}
use century_ring.Ring.State.{
  OwnedData, one_path, two_paths, buffer, sock_addr, Process, set_ring, own, require_support,
  allocate, add_owned_path, add_owned_buffer, add_owned_sockaddr,
}
use century_ring.Ring.Queue.{autosubmit}
use century_ring.Ring.Autosubmit.{autosubmit_loop-eq-tries}
use century_ring.Prep.Shared.{check_write_buffer, as_u32, is_skip_success}
use century_ring.Prep.Files.{ioring_prep_openat, ioring_prep_read, ioring_prep_write}
use century_ring.Prep.Network.{
  do_sockaddr_submit, ioring_prep_connect_v4, ioring_prep_connect_v6, ioring_prep_send,
  ioring_prep_recv,
}
use century_ring.Prep.SkipSuccess.{
  OwningOp, openat, read, write, connect_v4, connect_v6, send, recv, opcode_of, HasAddress, prepare,
}

abbrev pub or_empty : Option (List ℕ) → List ℕ
or_empty none = []
or_empty (some octets) = octets

-- the bytes that the kernel reads or writes, at the time of the push
abbrev pub content_of : ⦃c : Crates⦄ → OwningOp → OwnedData
content_of (openat _ path _ _) = one_path (path ++ 0 ∷ [])
content_of (read _ max_size _) = buffer (replicate max_size 0)
content_of (write _ bytes size start _) = buffer (take size (drop start bytes))
content_of ⦃c⦄ (connect_v4 _ ip port) = sock_addr (c.sockaddr_v4 (or_empty (c.parse_v4 ip)) port)
content_of ⦃c⦄ (connect_v6 _ ip port) = sock_addr (c.sockaddr_v6 (or_empty (c.parse_v6 ip)) port)
content_of (send _ bytes size start _) = buffer (take size (drop start bytes))
content_of (recv _ max_size _) = buffer (replicate max_size 0)

abbrev pub bytes_of : OwnedData → List ℕ
bytes_of (one_path path) = path
bytes_of (two_paths from to) = from ++ to
bytes_of (buffer buf) = buf
bytes_of (sock_addr addr) = addr

-- what is asked of the kernel, with the number of the allocation
abbrev pub request : ⦃c : Crates⦄ → OwningOp → ℕ → Op
request (openat dirfd _ flags mode) block = Op.open_at dirfd block flags mode
request (read fd max_size offset) block = Op.read fd block max_size (as_u64 offset)
request (write fd bytes size start offset) block =
    Op.write fd block (as_u32 (length (take size (drop start bytes)))) (as_u64 offset)
request ⦃c⦄ (connect_v4 fd ip port) block =
    Op.connect fd block (length (c.sockaddr_v4 (or_empty (c.parse_v4 ip)) port))
request ⦃c⦄ (connect_v6 fd ip port) block =
    Op.connect fd block (length (c.sockaddr_v6 (or_empty (c.parse_v6 ip)) port))
request (send fd bytes size start flags) block =
    Op.send fd block (as_u32 (length (take size (drop start bytes)))) flags
request (recv fd max_size flags) block = Op.recv fd block max_size flags

-- how many bytes the kernel is told that it may use
abbrev pub told_length : Op → ℕ
told_length (Op.read _ _ n _) = n
told_length (Op.write _ _ n _) = n
told_length (Op.connect _ _ n) = n
told_length (Op.send _ _ n _) = n
told_length (Op.recv _ _ n _) = n
told_length _ = 0

-- the window of a write lies in its buffer
abbrev pub HasWindow : OwningOp → Type 0
HasWindow (write _ bytes size start _) = start + size ≤ length bytes
HasWindow (send _ bytes size start _) = start + size ≤ length bytes
HasWindow _ = Unit

window-check :
    (bytes : List ℕ) (size start : ℕ)
    → start + size ≤ length bytes
    → check_write_buffer bytes size start ≡ ok (start + size)
unfolding check_write_buffer
window-check bytes size start h = ground arith

width : (start size : ℕ) → start + size - start ≡ size
width start size = omega arith

-- The kernel is never told more bytes than the ring owns.
told_length-fits :
    ⦃c : Crates⦄ (op : OwningOp) (block : ℕ)
    → told_length (request op block) ≤ length (bytes_of (content_of op))
told_length-fits (openat _ path _ _) block = omega arith
told_length-fits (read _ n _) block = omega (arith, length-replicate {A = ℕ} n 0)
told_length-fits (write _ bytes size start _) block = omega arith
told_length-fits (connect_v4 _ _ _) block = omega arith
told_length-fits (connect_v6 _ _ _) block = omega arith
told_length-fits (send _ bytes size start _) block = omega arith
told_length-fits (recv _ n _) block = omega (arith, length-replicate {A = ℕ} n 0)

abbrev pub entry_for : ⦃c : Crates⦄ → OwningOp → ℕ → ℕ → ℕ → Sqe
entry_for ⦃c⦄ op block u sqe_flags = record {
  op = request op block;
  flags = c.from_bits_truncate sqe_flags;
  user_data = u;
}

module _ {R : Type 0} ⦃c : Crates⦄ ⦃p : Platform R⦄ where
  autosubmit-room :
      (e : Sqe) (s : Process R) {r r' : R}
      → s.the_io_uring ≡ some r
      → p.push e r ≡ some r'
      → autosubmit e s ≡ (ok tt, set_ring r' s)
  unfolding autosubmit
  autosubmit-room e s {r} opened room =
      rw (opened, autosubmit_loop-eq-tries 0 s.autosubmit e r, room) refl

  abbrev pub handed_over : OwningOp → ℕ → R → Process R → Process R
  handed_over op u r s =
      own u (record { block = s.next_block; content = content_of op })
        (set_ring r (record s { next_block = suc s.next_block }))

  -- An operation with owned data on an open ring that has room for its entry, which the kernel
  -- supports, without SKIP_SUCCESS, with an address that parses and a window that lies in its
  -- buffer: it succeeds; it pushes the one entry for it, which points to a new allocation; the ring
  -- owns this allocation under the user data, with the bytes to be used; and the kernel is told no
  -- more bytes than the allocation has.
  pub prepare_pushes :
      (op : OwningOp) (u sqe_flags : ℕ) (s : Process R) {r r' : R}
      → s.the_io_uring ≡ some r
      → s.probe (opcode_of op) ≡ true
      → is_skip_success (c.from_bits_truncate sqe_flags) ≡ false
      → HasAddress op
      → HasWindow op
      → p.push (entry_for op s.next_block u sqe_flags) r ≡ some r'
      → (prepare op u sqe_flags s ≡ (ok tt, handed_over op u r' s))
        × (told_length (request op s.next_block) ≤ length (bytes_of (content_of op)))
  unfolding prepare ioring_prep_openat ioring_prep_read ioring_prep_write ioring_prep_connect_v4
      ioring_prep_connect_v6 do_sockaddr_submit ioring_prep_send ioring_prep_recv require_support
      allocate add_owned_path add_owned_buffer add_owned_sockaddr ◌>>=◌
  prepare_pushes op u sqe_flags s {r} {r'} opened probe skip address window room = (
    steps op probe address window
        (autosubmit-room (entry_for op s.next_block u sqe_flags) allocated opened room),
    told_length-fits op s.next_block,
  )
    where
      allocated : Process R
      allocated = record s { next_block = suc s.next_block }

      steps :
          (op : OwningOp)
          → s.probe (opcode_of op) ≡ true
          → HasAddress op
          → HasWindow op
          → autosubmit (entry_for op s.next_block u sqe_flags) allocated
            ≡ (ok tt, set_ring r' allocated)
          → prepare op u sqe_flags s ≡ (ok tt, handed_over op u r' s)
      steps (read fd n offset) probe address window pushed = rw (probe, skip, pushed) refl
      steps (openat dirfd path flags mode) probe address window pushed =
          rw (probe, skip, pushed) refl
      steps (recv fd n flags) probe address window pushed = rw (probe, skip, pushed) refl
      steps (write fd bytes size start offset) probe address window pushed =
          rw (probe, skip, window-check bytes size start window, width start size, pushed) refl
      steps (send fd bytes size start flags) probe address window pushed =
          rw (probe, skip, window-check bytes size start window, width start size, pushed) refl
      steps (connect_v4 fd ip port) probe (octets, parsed) window pushed =
          rw (probe, parsed, skip) (rw (rw parsed at pushed) refl)
      steps (connect_v6 fd ip port) probe (octets, parsed) window pushed =
          rw (probe, parsed, skip) (rw (rw parsed at pushed) refl)
