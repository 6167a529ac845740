-- ===== src/Client/Methods.antt =====
-- pysrc/century_ring/ring.py: a call of one of the methods of `IoUring` that prepare an operation.
use century_ring.Common.{ℕ, String, Bool, Option, List}
use century_ring.Common.Int.{ℤ}
use century_ring.Common.Exec.{Exec}
use century_ring.Platform.{Crates, Platform}
use century_ring.OpenFlags.{FileOpenMode, FileOpenFlag}
use century_ring.Client.State.{AcceptableFile, World}
use century_ring.Client.Files
use century_ring.Client.Network

-- the method with its arguments
pub data Method : Type 0 where
  prep_openat :
      Option AcceptableFile
      → List ℕ
      → FileOpenMode
      → Option (List FileOpenFlag)
      → ℤ
      → Option ℤ
      → Method
  prep_close : AcceptableFile → Option ℤ → Method
  prep_read : AcceptableFile → ℤ → ℤ → Option ℤ → Method
  prep_write : AcceptableFile → List ℕ → ℤ → Option ℤ → Option ℤ → Option ℤ → Method
  prep_create_socket : ℤ → ℤ → ℤ → Bool → Option ℤ → Method
  prep_connect_v4 : AcceptableFile → String → ℤ → Option ℤ → Method
  prep_connect_v6 : AcceptableFile → String → ℤ → Option ℤ → Method
  prep_recv : AcceptableFile → ℤ → ℤ → Option ℤ → Method
  prep_send : AcceptableFile → List ℕ → Option ℤ → Option ℤ → ℤ → Option ℤ → Method

module _ {R : Type 0} ⦃c : Crates⦄ ⦃p : Platform R⦄ where
  unfoldable pub call_method : Method → Exec (World R) ℕ
  call_method (prep_openat relative_to path open_mode flags permissions sqe_flags) =
      Files.prep_openat relative_to path open_mode flags permissions sqe_flags
  call_method (prep_close fd sqe_flags) = Files.prep_close fd sqe_flags
  call_method (prep_read fd byte_count offset sqe_flags) =
      Files.prep_read fd byte_count offset sqe_flags
  call_method (prep_write fd buffer file_offset count buffer_offset sqe_flags) =
      Files.prep_write fd buffer file_offset count buffer_offset sqe_flags
  call_method (prep_create_socket domain type protocol nonblocking sqe_flags) =
      Network.prep_create_socket domain type protocol nonblocking sqe_flags
  call_method (prep_connect_v4 fd address port sqe_flags) =
      Network.prep_connect_v4 fd address port sqe_flags
  call_method (prep_connect_v6 fd address port sqe_flags) =
      Network.prep_connect_v6 fd address port sqe_flags
  call_method (prep_recv fd byte_count flags sqe_flags) =
      Network.prep_recv fd byte_count flags sqe_flags
  call_method (prep_send fd buffer count buffer_offset flags sqe_flags) =
      Network.prep_send fd buffer count buffer_offset flags sqe_flags
