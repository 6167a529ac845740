-- ===== src/Platform.antt =====
-- Everything that src/ calls and does not hold: the crates io_uring, procfs, nix and pyo3, with the
-- kernel behind them. The model takes it as instance arguments, two records of functions.
pub mod Laws
pub mod Toy
use century_ring.Common.{ℕ, ◌≡◌, refl, ◌⊎◌, inl, inr, String, Bool, Option, none, some, List}
use century_ring.Common.Int.{ℤ}
use century_ring.Common.Exec.{Result, ok, err, os_error}

-- The opcodes that the kernel is probed for.
pub data Opcode : Type 0 where
  open_at close read write socket connect send recv : Opcode

-- io_uring::types::Timespec
pub record Timespec : Type 0 where
  pub sec : ℕ
  pub nsec : ℕ

-- What a submission queue entry asks for. A pointer to the heap is the number of the allocation it
-- points to.
pub data Op : Type 0 where
  -- directory fd, pointer to the path, flags, mode
  open_at : ℤ → ℕ → ℤ → ℕ → Op
  close : ℤ → Op
  -- fd, pointer, length (u32), offset (u64)
  read write : ℤ → ℕ → ℕ → ℕ → Op
  -- domain, type, protocol
  socket : ℤ → ℤ → ℤ → Op
  -- fd, pointer to the address, its length
  connect : ℤ → ℕ → ℕ → Op
  -- fd, pointer, length (u32), flags
  send recv : ℤ → ℕ → ℕ → ℤ → Op
  -- pointer to a Timespec in the stack frame of the method that makes the entry, which holds this as
  -- long as the frame is there
  timeout : Timespec → Op

-- Where a pointer of an entry leads. An allocation on the heap is there until it is dropped; a value
-- in a stack frame is gone when the method has returned or raised, whatever the entry has become.
pub data Target : Type 0 where
  on_heap : ℕ → Target
  in_frame : Timespec → Target

-- What the kernel reads or writes until the operation has completed.
abbrev pub points_to : Op → Option Target
points_to (Op.open_at _ block _ _) = some (on_heap block)
points_to (Op.read _ block _ _) = some (on_heap block)
points_to (Op.write _ block _ _) = some (on_heap block)
points_to (Op.connect _ block _) = some (on_heap block)
points_to (Op.send _ block _ _) = some (on_heap block)
points_to (Op.recv _ block _ _) = some (on_heap block)
points_to (Op.timeout timespec) = some (in_frame timespec)
points_to _ = none

-- io_uring::squeue::Entry. `flags` is a value of squeue::Flags, which is passed round and tested
-- only through the functions below.
pub record Sqe : Type 0 where
  pub op : Op
  pub flags : ℕ
  pub user_data : ℕ

-- io_uring::cqueue::Entry
pub record Cqe : Type 0 where
  pub user_data : ℕ
  pub result : ℤ

-- The associated constants of squeue::Flags that the code names.
pub data SqeFlag : Type 0 where
  fixed_file io_drain io_link io_hardlink async buffer_select skip_success : SqeFlag

-- What io_uring::Builder has been told before `build`.
pub record BuildOptions : Type 0 where
  pub entries : ℕ
  pub dontfork : Bool
  pub submit_all : Bool
  pub single_issuer : Bool
  pub sqpoll : Option ℕ
  pub cqsize : Option ℕ

-- std::io::Result: the error is its errno.
pub data IoResult (A : Type 0) : Type 0 where
  done : A → IoResult A
  failed : ℕ → IoResult A

pub IoResult-cases :
    {A : Type 0} (x : IoResult A) → ((a : A) × (x ≡ done a)) ⊎ ((errno : ℕ) × (x ≡ failed errno))
IoResult-cases (done a) = inl (a, refl)
IoResult-cases (failed errno) = inr (errno, refl)

-- `?` turns an io::Error into an OSError.
abbrev pub from_io : {A : Type 0} → IoResult A → Result A
from_io (done a) = ok a
from_io (failed errno) = err (os_error errno)

-- The functions that no ring takes part in.
pub record Crates : Type 0 where
  -- procfs::KernelVersion::current, its major and minor numbers
  pub kernel_version : Option (ℕ × ℕ)
  -- squeue::Flags: empty, the constants, |, bits, from_bits_truncate, contains
  pub no_flags : ℕ
  pub flag : SqeFlag → ℕ
  pub union : ℕ → ℕ → ℕ
  pub bits : ℕ → ℕ
  pub from_bits_truncate : ℕ → ℕ
  pub contains : ℕ → ℕ → Bool
  -- Ipv4Addr::from_str and Ipv6Addr::from_str, and the sockaddr of an address and a port
  pub parse_v4 : String → Option (List ℕ)
  pub parse_v6 : String → Option (List ℕ)
  pub sockaddr_v4 : List ℕ → ℕ → List ℕ
  pub sockaddr_v6 : List ℕ → ℕ → List ℕ
  -- pyo3's conversion of a Python integer to u{w} and to i{w}; none is an OverflowError
  pub to_unsigned : ℕ → ℤ → Option ℕ
  pub to_signed : ℕ → ℤ → Option ℤ

-- `R` is an open ring, io_uring::IoUring, with the kernel's side of it.
pub record Platform (R : Type 0) : Type 0 where
  -- `submission().push`: none is a PushError, the queue is full
  pub push : Sqe → R → Option R
  pub submit : R → IoResult ℕ × R
  pub submit_and_wait : ℕ → R → IoResult ℕ × R
  -- `submission().len()`
  pub sq_len : R → ℕ
  -- `completion()` read to its end: the entries that are visible at that time
  pub completion : R → List Cqe × R
  pub register_eventfd : ℤ → R → IoResult (Unit {0}) × R
  pub build : BuildOptions → IoResult R
  pub is_feature_nodrop : R → Bool
  -- `register_probe`, then `Probe::is_supported`
  pub register_probe : R → IoResult (Opcode → Bool)
  -- what an allocation that held these bytes holds once the kernel has written to it
  pub after_kernel : R → ℕ → List ℕ → List ℕ

-- The system calls that Python's `os` makes for the package: close(2), by the calls made before and
-- its fd, gives none or an errno; eventfd(2) takes an initial value and flags.
pub record Os : Type 0 where
  pub close : List ℤ → ℤ → Option ℕ
  pub eventfd : ℕ → ℕ → IoResult ℤ
