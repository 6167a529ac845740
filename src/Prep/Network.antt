-- ===== src/Prep/Network.antt =====
-- src/network.rs: sockets.
use century_ring.Common.{ℕ, String, List, length, replicate}
use century_ring.Common.Int.{ℤ}
use century_ring.Common.Exec.{Exec, lift, ◌>>=◌, ◌>>◌, or_raise, value_error, bad_address}
use century_ring.Platform.{Opcode, Op, Crates, Platform}
use century_ring.Ring.State.{
  Process, require_support, allocate, add_owned_buffer, add_owned_sockaddr,
}
use century_ring.Ring.Queue.{autosubmit}
use century_ring.Prep.Shared.{check_write_buffer, slice, as_u32, refuse_skip_success}

-- std::net::SocketAddr: the octets of the address and the port
pub data SocketAddr : Type 0 where
  v4 v6 : List ℕ → ℕ → SocketAddr

abbrev pub sockaddr_bytes : ⦃c : Crates⦄ → SocketAddr → List ℕ
sockaddr_bytes ⦃c⦄ (v4 ip port) = c.sockaddr_v4 ip port
sockaddr_bytes ⦃c⦄ (v6 ip port) = c.sockaddr_v6 ip port

module _ {R : Type 0} ⦃c : Crates⦄ ⦃p : Platform R⦄ where
  unfoldable pub ioring_prep_create_socket : ℤ → ℤ → ℤ → ℕ → ℕ → Exec (Process R) Unit
  ioring_prep_create_socket domain socket_type protocol user_data sqe_flags = do
    require_support Opcode.socket "socket"
    autosubmit (record {
      op = Op.socket domain socket_type protocol;
      flags = c.from_bits_truncate sqe_flags;
      user_data = user_data;
    })

  unfoldable pub do_sockaddr_submit : ℤ → SocketAddr → ℕ → ℕ → Exec (Process R) Unit
  do_sockaddr_submit fd addr user_data sqe_flags = do
    c_addr ← allocate
    let flags = c.from_bits_truncate sqe_flags
    refuse_skip_success flags
    autosubmit (record {
      op = Op.connect fd c_addr (length (sockaddr_bytes addr));
      flags = flags;
      user_data = user_data;
    })
    add_owned_sockaddr user_data c_addr (sockaddr_bytes addr)

  unfoldable pub ioring_prep_connect_v4 : ℤ → String → ℕ → ℕ → ℕ → Exec (Process R) Unit
  ioring_prep_connect_v4 fd ip port user_data sqe_flags = do
    require_support Opcode.connect "connect"
    v4_addr ← or_raise (value_error bad_address) (c.parse_v4 ip)
    do_sockaddr_submit fd (v4 v4_addr port) user_data sqe_flags

  unfoldable pub ioring_prep_connect_v6 : ℤ → String → ℕ → ℕ → ℕ → Exec (Process R) Unit
  ioring_prep_connect_v6 fd ip port user_data sqe_flags = do
    require_support Opcode.connect "connect"
    v6_addr ← or_raise (value_error bad_address) (c.parse_v6 ip)
    do_sockaddr_submit fd (v6 v6_addr port) user_data sqe_flags

  unfoldable pub ioring_prep_send : ℤ → List ℕ → ℕ → ℕ → ℤ → ℕ → ℕ → Exec (Process R) Unit
  ioring_prep_send fd bytes size buffer_offset flags user_data sqe_flags = do
    require_support Opcode.send "send"
    let parsed_sqe_flags = c.from_bits_truncate sqe_flags
    refuse_skip_success parsed_sqe_flags
    end_offset ← lift (check_write_buffer bytes size buffer_offset)
    let copy = slice buffer_offset end_offset bytes
    vec ← allocate
    autosubmit (record {
      op = Op.send fd vec (as_u32 (length copy)) flags;
      flags = parsed_sqe_flags;
      user_data = user_data;
    })
    add_owned_buffer user_data vec copy

  unfoldable pub ioring_prep_recv : ℤ → ℕ → ℤ → ℕ → ℕ → Exec (Process R) Unit
  ioring_prep_recv fd max_size flags user_data sqe_flags = do
    require_support Opcode.recv "recv"
    let parsed_sqe_flags = c.from_bits_truncate sqe_flags
    refuse_skip_success parsed_sqe_flags
    buf ← allocate
    autosubmit (record {
      op = Op.recv fd buf max_size flags;
      flags = parsed_sqe_flags;
      user_data = user_data;
    })
    add_owned_buffer user_data buf (replicate max_size 0)
