-- ===== src/Client/Requests.antt =====
-- pysrc/century_ring/ring.py: what the entry of a preparing method says, by the method's arguments.
use century_ring.Common.{
  ℕ, ◌-◌, ◌<◌, ◌^◌, ◌≡◌, Bool, true, false, Option, none, some, List, [], ◌∷◌, ◌++◌, length,
  replicate, get_elem?, bit_or,
}
use century_ring.Common.Int.{ℤ, pos, negsuc, or_ℤ, as_u64}
use century_ring.Platform.{Op, Sqe, Crates}
use century_ring.OpenFlags.{FileOpenFlag, mode_value, contains, temporary_file}
use century_ring.OpenFlags.Order.{all_bits}
use century_ring.Handle.{FdHandle, HandleStore}
use century_ring.Ring.State.{OwnedData, one_path, buffer}
use century_ring.Prep.Requests.{Plain, Pointing, PointingToWindow, PointingToAddress}
use century_ring.Client.State.{AcceptableFile, int, object, if_none}
use century_ring.Client.Methods.{
  Method, prep_openat, prep_close, prep_read, prep_write, prep_create_socket, prep_connect_v4,
  prep_connect_v6, prep_recv, prep_send,
}

-- a Python integer in the range of an `i{w}`
abbrev pub FitsSigned : ℕ → ℤ → Type 0
FitsSigned w (pos n) = n < 2 ^ (w - 1)
FitsSigned w (negsuc n) = n < 2 ^ (w - 1)

-- one that is the `u{w}` `n`
abbrev pub IsUnsigned : ℕ → ℤ → ℕ → Type 0
IsUnsigned w z n = (z ≡ pos n) × (n < 2 ^ w)

-- the descriptor of a file: of a handle, if that is open
abbrev pub FileIs : AcceptableFile → HandleStore → ℤ → Type 0
FileIs (int fd) store file = file ≡ fd
FileIs (object ref) store file =
    (x : FdHandle) × (get_elem? store.handles ref ≡ some x)
    × (x.close_called ≡ false)
    × (file ≡ x.fd)

-- that of a directory: -1 for none, and of a handle whether it is open or not
abbrev pub DirectoryIs : Option AcceptableFile → HandleStore → ℤ → Type 0
DirectoryIs none store dir = dir ≡ negsuc 0
DirectoryIs (some (int fd)) store dir = dir ≡ fd
DirectoryIs (some (object ref)) store dir =
    (x : FdHandle) × (get_elem? store.handles ref ≡ some x) × (dir ≡ x.fd)

module _ (store : HandleStore) where
  -- a file whose descriptor is an `i32`
  abbrev pub File : AcceptableFile → ℤ → Type 0
  File fd file = FileIs fd store file × FitsSigned 32 file

-- the flags of the entry, 0 unless given
abbrev pub FlagsAre : Option ℤ → ℕ → Type 0
FlagsAre sqe_flags x = IsUnsigned 8 (if_none (pos 0) sqe_flags) x

-- the flags of open(2): O_CLOEXEC, and the bits that each flag of the package stands for
abbrev pub open_flags : Option (List FileOpenFlag) → ℕ
open_flags none = 0o2000000
open_flags (some flags) = bit_or 0o2000000 (all_bits (contains temporary_file flags) flags)

-- the type of a socket, always with SOCK_CLOEXEC, and with SOCK_NONBLOCK if that is asked for
abbrev pub type_with_flags : ℤ → Bool → ℤ
type_with_flags type false = or_ℤ type 0o2000000
type_with_flags type true = or_ℤ (or_ℤ type 0o2000000) 0o4000

module _ ⦃c : Crates⦄ where
  abbrev pub Asks : Method → HandleStore → Sqe → Option OwnedData → Type 0
  Asks (prep_openat relative_to path open_mode flags permissions sqe_flags) store e content =
      let file_flags = pos (bit_or (open_flags flags) (mode_value open_mode)) in
      (dir : ℤ) × (mode : ℕ) × (x : ℕ) × DirectoryIs relative_to store dir
      × FitsSigned 32 dir
      × FitsSigned 32 file_flags
      × IsUnsigned 32 permissions mode
      × FlagsAre sqe_flags x
      × Pointing (λ block. Op.open_at dir block file_flags mode) (one_path (path ++ 0 ∷ [])) x e
          content
  Asks (prep_close fd sqe_flags) store e content =
      (file : ℤ) × (x : ℕ) × File store fd file
      × FlagsAre sqe_flags x
      × Plain (Op.close file) x e content
  Asks (prep_read fd byte_count offset sqe_flags) store e content =
      (file : ℤ) × (n : ℕ) × (x : ℕ) × File store fd file
      × IsUnsigned 32 byte_count n
      × FitsSigned 64 offset
      × FlagsAre sqe_flags x
      × Pointing (λ block. Op.read file block n (as_u64 offset)) (buffer (replicate n 0)) x e
          content
  Asks (prep_write fd bytes file_offset count buffer_offset sqe_flags) store e content =
      (file : ℤ) × (size : ℕ) × (from : ℕ) × (x : ℕ) × File store fd file
      × IsUnsigned 64 (if_none (pos (length bytes)) count) size
      × IsUnsigned 64 (if_none (pos 0) buffer_offset) from
      × FitsSigned 64 file_offset
      × FlagsAre sqe_flags x
      × PointingToWindow (λ block n. Op.write file block n (as_u64 file_offset)) bytes size from x e
          content
  Asks (prep_create_socket domain type protocol nonblocking sqe_flags) store e content =
      let raw_type = type_with_flags type nonblocking in
      (x : ℕ) × FitsSigned 32 domain
      × FitsSigned 32 raw_type
      × FitsSigned 32 protocol
      × FlagsAre sqe_flags x
      × Plain (Op.socket domain raw_type protocol) x e content
  Asks (prep_connect_v4 fd address port sqe_flags) store e content =
      (file : ℤ) × (raw_port : ℕ) × (x : ℕ) × File store fd file
      × IsUnsigned 16 port raw_port
      × FlagsAre sqe_flags x
      × PointingToAddress file (c.parse_v4 address) (λ ip. c.sockaddr_v4 ip raw_port) x e content
  Asks (prep_connect_v6 fd address port sqe_flags) store e content =
      (file : ℤ) × (raw_port : ℕ) × (x : ℕ) × File store fd file
      × IsUnsigned 16 port raw_port
      × FlagsAre sqe_flags x
      × PointingToAddress file (c.parse_v6 address) (λ ip. c.sockaddr_v6 ip raw_port) x e content
  Asks (prep_recv fd byte_count flags sqe_flags) store e content =
      (file : ℤ) × (n : ℕ) × (x : ℕ) × File store fd file
      × IsUnsigned 32 byte_count n
      × FitsSigned 32 flags
      × FlagsAre sqe_flags x
      × Pointing (λ block. Op.recv file block n flags) (buffer (replicate n 0)) x e content
  Asks (prep_send fd bytes count buffer_offset flags sqe_flags) store e content =
      (file : ℤ) × (size : ℕ) × (from : ℕ) × (x : ℕ) × File store fd file
      × IsUnsigned 64 (if_none (pos (length bytes)) count) size
      × IsUnsigned 64 (if_none (pos 0) buffer_offset) from
      × FitsSigned 32 flags
      × FlagsAre sqe_flags x
      × PointingToWindow (λ block n. Op.send file block n flags) bytes size from x e content
