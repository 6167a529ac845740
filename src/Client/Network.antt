-- ===== src/Client/Network.antt =====
-- pysrc/century_ring/ring.py: the methods of `IoUring` for sockets. An address is its text.
use century_ring.Common.{ℕ, String, Bool, Option, List, length, if◌then◌else◌}
use century_ring.Common.Int.{ℤ, pos, or_ℤ}
use century_ring.Common.Exec.{Exec, pure, ◌>>=◌, ◌>>◌}
use century_ring.Platform.{Crates, Platform}
use century_ring.Prep.Network.{
  ioring_prep_create_socket, ioring_prep_connect_v4, ioring_prep_connect_v6, ioring_prep_send,
  ioring_prep_recv,
}
use century_ring.Client.State.{
  AcceptableFile, World, on_process, unsigned, signed, unwrap_file, next_user_data, if_none,
}

-- socket.SOCK_CLOEXEC and socket.SOCK_NONBLOCK
abbrev pub sock_cloexec : ℕ
sock_cloexec = 0o2000000

abbrev pub sock_nonblock : ℕ
sock_nonblock = 0o4000

-- the two `type |= …`
unfoldable pub socket_type : ℤ → Bool → ℤ
socket_type type nonblocking =
    if nonblocking then or_ℤ (or_ℤ type sock_cloexec) sock_nonblock else or_ℤ type sock_cloexec

module _ {R : Type 0} ⦃c : Crates⦄ ⦃p : Platform R⦄ where
  unfoldable pub prep_create_socket : ℤ → ℤ → ℤ → Bool → Option ℤ → Exec (World R) ℕ
  prep_create_socket domain type protocol nonblocking sqe_flags = do
    user_data ← next_user_data
    raw_domain ← signed 32 domain
    raw_type ← signed 32 (socket_type type nonblocking)
    raw_protocol ← signed 32 protocol
    ud ← unsigned 64 (pos user_data)
    sqe ← unsigned 8 (if_none (pos 0) sqe_flags)
    on_process (ioring_prep_create_socket raw_domain raw_type raw_protocol ud sqe)
    pure user_data

  unfoldable pub prep_connect_v4 : AcceptableFile → String → ℤ → Option ℤ → Exec (World R) ℕ
  prep_connect_v4 fd address port sqe_flags = do
    user_data ← next_user_data
    file ← unwrap_file fd
    raw_fd ← signed 32 file
    raw_port ← unsigned 16 port
    ud ← unsigned 64 (pos user_data)
    sqe ← unsigned 8 (if_none (pos 0) sqe_flags)
    on_process (ioring_prep_connect_v4 raw_fd address raw_port ud sqe)
    pure user_data

  unfoldable pub prep_connect_v6 : AcceptableFile → String → ℤ → Option ℤ → Exec (World R) ℕ
  prep_connect_v6 fd address port sqe_flags = do
    user_data ← next_user_data
    file ← unwrap_file fd
    raw_fd ← signed 32 file
    raw_port ← unsigned 16 port
    ud ← unsigned 64 (pos user_data)
    sqe ← unsigned 8 (if_none (pos 0) sqe_flags)
    on_process (ioring_prep_connect_v6 raw_fd address raw_port ud sqe)
    pure user_data

  unfoldable pub prep_recv : AcceptableFile → ℤ → ℤ → Option ℤ → Exec (World R) ℕ
  prep_recv fd byte_count flags sqe_flags = do
    user_data ← next_user_data
    file ← unwrap_file fd
    raw_fd ← signed 32 file
    max_size ← unsigned 32 byte_count
    raw_flags ← signed 32 flags
    ud ← unsigned 64 (pos user_data)
    sqe ← unsigned 8 (if_none (pos 0) sqe_flags)
    on_process (ioring_prep_recv raw_fd max_size raw_flags ud sqe)
    pure user_data

  unfoldable pub prep_send :
      AcceptableFile → List ℕ → Option ℤ → Option ℤ → ℤ → Option ℤ → Exec (World R) ℕ
  prep_send fd buffer count buffer_offset flags sqe_flags = do
    user_data ← next_user_data
    file ← unwrap_file fd
    raw_fd ← signed 32 file
    size ← unsigned 64 (if_none (pos (length buffer)) count)
    from ← unsigned 64 (if_none (pos 0) buffer_offset)
    raw_flags ← signed 32 flags
    ud ← unsigned 64 (pos user_data)
    sqe ← unsigned 8 (if_none (pos 0) sqe_flags)
    on_process (ioring_prep_send raw_fd buffer size from raw_flags ud sqe)
    pure user_data
