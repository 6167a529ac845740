-- ===== src/Prep/Outcome/Functions.antt =====
-- Each preparing function of src/shared.rs, src/files.rs and src/network.rs has such an outcome.
use century_ring.Common.{
  ℕ, ◌-◌, ◌≡◌, refl, ap, some, String, List, [], ◌∷◌, ◌++◌, length, take, drop, replicate, arith,
}
use century_ring.Common.Int.{ℤ, as_u64}
use century_ring.Common.Exec.{ok}
use century_ring.Platform.{Opcode, Op, Crates, Platform}
use century_ring.Platform.Laws.{PlatformLaws}
use century_ring.Ring.State.{
  TheIoRing, one_path, buffer, sock_addr, add_owned_path, add_owned_buffer, add_owned_sockaddr,
}
use century_ring.Prep.Shared.{ioring_prep_close, check_write_buffer, slice, as_u32}
use century_ring.Prep.Files.{ioring_prep_openat, ioring_prep_read, ioring_prep_write}
use century_ring.Prep.Network.{
  SocketAddr, v4, v6, sockaddr_bytes, ioring_prep_create_socket, do_sockaddr_submit,
  ioring_prep_connect_v4, ioring_prep_connect_v6, ioring_prep_send, ioring_prep_recv,
}
use century_ring.Prep.Bounds.{check_passed, check_write_buffer_window}
use century_ring.Prep.Requests.{Plain, Pointing, PointingToWindow, PointingToAddress}
use century_ring.Prep.Outcome.{Prepares, Prepares-asks, push_and_own, push_plain}
use century_ring.Prep.Outcome.Steps.{supported, allocated, unless, checked, parsed}

-- the slice that was checked
window_asked :
    ⦃c : Crates⦄ (op : ℕ → ℕ → Op) (bytes : List ℕ) (size offset last block sqe_flags u : ℕ)
    → check_write_buffer bytes size offset ≡ ok last
    → let copy = slice offset last bytes in
      PointingToWindow op bytes size offset sqe_flags
        (record {
          op = op block (as_u32 (length copy));
          flags = c.from_bits_truncate sqe_flags;
          user_data = u;
        })
        (some (buffer copy))
window_asked op bytes size offset last block sqe_flags u passed =
    let (fits, last_is) = check_passed bytes size offset last passed in
    let width : last - offset ≡ size = omega arith in
    (
      fits,
      (
        block,
        ap (λ n. op block (as_u32 n)) (check_write_buffer_window bytes size offset last passed).0,
        refl,
        ap (λ n. some (buffer (take n (drop offset bytes)))) width,
      ),
    )

module _ {R : Type 0} ⦃c : Crates⦄ ⦃p : Platform R⦄ (laws : PlatformLaws R) (u : ℕ)
    (ring : TheIoRing R) where
  pub ioring_prep_close-Prepares :
      (fd : ℤ) (sqe_flags : ℕ)
      → Prepares laws (Plain (Op.close fd) sqe_flags) u ring (ioring_prep_close fd u sqe_flags)
  unfolding ioring_prep_close
  ioring_prep_close-Prepares fd sqe_flags =
      supported laws _ u ring Opcode.close "read"
        λ _. push_plain laws _ ring _ (refl, refl, refl) refl

  pub ioring_prep_read-Prepares :
      (fd : ℤ) (max_size : ℕ) (offset : ℤ) (sqe_flags : ℕ)
      → Prepares laws
          (Pointing
            (λ block. Op.read fd block max_size (as_u64 offset))
            (buffer (replicate max_size 0))
            sqe_flags)
          u
          ring
          (ioring_prep_read fd max_size offset u sqe_flags)
  unfolding ioring_prep_read add_owned_buffer
  ioring_prep_read-Prepares fd max_size offset sqe_flags =
      supported laws _ u ring Opcode.read "read" λ _. unless laws _ u ring _ _ (λ _.
        allocated laws _ u ring λ buf. push_and_own laws _ ring _ _ (buf, refl, refl, refl) refl)

  pub ioring_prep_openat-Prepares :
      (dirfd : ℤ) (path : List ℕ) (flags : ℤ) (mode sqe_flags : ℕ)
      → Prepares laws
          (Pointing
            (λ block. Op.open_at dirfd block flags mode)
            (one_path (path ++ 0 ∷ []))
            sqe_flags)
          u
          ring
          (ioring_prep_openat dirfd path u flags mode sqe_flags)
  unfolding ioring_prep_openat add_owned_path
  ioring_prep_openat-Prepares dirfd path flags mode sqe_flags =
      supported laws _ u ring Opcode.open_at "openat" λ _. unless laws _ u ring _ _ λ _.
        (allocated laws _ u ring
          λ owned_path. push_and_own laws _ ring _ _ (owned_path, refl, refl, refl) refl)

  pub ioring_prep_write-Prepares :
      (fd : ℤ) (bytes : List ℕ) (size buffer_offset : ℕ) (offset : ℤ) (sqe_flags : ℕ)
      → Prepares laws
          (PointingToWindow
            (λ block n. Op.write fd block n (as_u64 offset))
            bytes
            size
            buffer_offset
            sqe_flags)
          u
          ring
          (ioring_prep_write fd bytes size buffer_offset offset u sqe_flags)
  unfolding ioring_prep_write add_owned_buffer
  ioring_prep_write-Prepares fd bytes size buffer_offset offset sqe_flags =
      supported laws _ u ring Opcode.write "write" λ _. unless laws _ u ring _ _ (λ _.
        checked laws _ u ring _ λ end_offset passed. allocated laws _ u ring λ vec.
          push_and_own laws _ ring _ _
            (window_asked (λ block n. Op.write fd block n (as_u64 offset)) bytes size buffer_offset
              end_offset vec sqe_flags u passed)
            refl)

  pub ioring_prep_create_socket-Prepares :
      (domain type protocol : ℤ) (sqe_flags : ℕ)
      → Prepares laws
          (Plain (Op.socket domain type protocol) sqe_flags)
          u
          ring
          (ioring_prep_create_socket domain type protocol u sqe_flags)
  unfolding ioring_prep_create_socket
  ioring_prep_create_socket-Prepares domain type protocol sqe_flags =
      supported laws _ u ring Opcode.socket "socket"
        λ _. push_plain laws _ ring _ (refl, refl, refl) refl

  do_sockaddr_submit-Prepares :
      (fd : ℤ) (addr : SocketAddr) (sqe_flags : ℕ)
      → Prepares laws
          (Pointing
            (λ block. Op.connect fd block (length (sockaddr_bytes addr)))
            (sock_addr (sockaddr_bytes addr))
            sqe_flags)
          u
          ring
          (do_sockaddr_submit fd addr u sqe_flags)
  unfolding do_sockaddr_submit add_owned_sockaddr
  do_sockaddr_submit-Prepares fd addr sqe_flags = allocated laws _ u ring λ c_addr.
      unless laws _ u ring _ _ (λ _. push_and_own laws _ ring _ _ (c_addr, refl, refl, refl) refl)

  pub ioring_prep_connect_v4-Prepares :
      (fd : ℤ) (ip : String) (port sqe_flags : ℕ)
      → Prepares laws
          (PointingToAddress fd (c.parse_v4 ip) (λ a. c.sockaddr_v4 a port) sqe_flags)
          u
          ring
          (ioring_prep_connect_v4 fd ip port u sqe_flags)
  unfolding ioring_prep_connect_v4
  ioring_prep_connect_v4-Prepares fd ip port sqe_flags =
      supported laws _ u ring Opcode.connect "connect" λ _.
        parsed laws _ u ring _ _ λ v4_addr reads.
          Prepares-asks laws u ring (λ e content asked. (v4_addr, reads, asked))
            (do_sockaddr_submit-Prepares fd (v4 v4_addr port) sqe_flags)

  pub ioring_prep_connect_v6-Prepares :
      (fd : ℤ) (ip : String) (port sqe_flags : ℕ)
      → Prepares laws
          (PointingToAddress fd (c.parse_v6 ip) (λ a. c.sockaddr_v6 a port) sqe_flags)
          u
          ring
          (ioring_prep_connect_v6 fd ip port u sqe_flags)
  unfolding ioring_prep_connect_v6
  ioring_prep_connect_v6-Prepares fd ip port sqe_flags =
      supported laws _ u ring Opcode.connect "connect" λ _.
        parsed laws _ u ring _ _ λ v6_addr reads.
          Prepares-asks laws u ring (λ e content asked. (v6_addr, reads, asked))
            (do_sockaddr_submit-Prepares fd (v6 v6_addr port) sqe_flags)

  pub ioring_prep_send-Prepares :
      (fd : ℤ) (bytes : List ℕ) (size buffer_offset : ℕ) (flags : ℤ) (sqe_flags : ℕ)
      → Prepares laws
          (PointingToWindow
            (λ block n. Op.send fd block n flags)
            bytes
            size
            buffer_offset
            sqe_flags)
          u
          ring
          (ioring_prep_send fd bytes size buffer_offset flags u sqe_flags)
  unfolding ioring_prep_send add_owned_buffer
  ioring_prep_send-Prepares fd bytes size buffer_offset flags sqe_flags =
      supported laws _ u ring Opcode.send "send" λ _. unless laws _ u ring _ _ (λ _.
        checked laws _ u ring _ λ end_offset passed. allocated laws _ u ring λ vec.
          push_and_own laws _ ring _ _
            (window_asked (λ block n. Op.send fd block n flags) bytes size buffer_offset end_offset
              vec sqe_flags u passed)
            refl)

  pub ioring_prep_recv-Prepares :
      (fd : ℤ) (max_size : ℕ) (flags : ℤ) (sqe_flags : ℕ)
      → Prepares laws
          (Pointing
            (λ block. Op.recv fd block max_size flags)
            (buffer (replicate max_size 0))
            sqe_flags)
          u
          ring
          (ioring_prep_recv fd max_size flags u sqe_flags)
  unfolding ioring_prep_recv add_owned_buffer
  ioring_prep_recv-Prepares fd max_size flags sqe_flags =
      supported laws _ u ring Opcode.recv "recv" λ _. unless laws _ u ring _ _ (λ _.
        allocated laws _ u ring λ buf. push_and_own laws _ ring _ _ (buf, refl, refl, refl) refl)
