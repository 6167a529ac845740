-- ===== src/Client.antt =====
-- pysrc/century_ring/ring.py: the `IoUring` wrapper and `make_io_ring`.
pub mod State
pub mod Queue
pub mod Files
pub mod Network
pub mod Session
pub mod Methods
pub mod Requests
pub mod Unwrap
pub mod Outcome
pub mod Closing
pub mod ClosedHandle
