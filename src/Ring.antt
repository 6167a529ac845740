-- ===== src/Ring.antt =====
-- src/ring.rs: the `TheIoRing` object, its queues, the reaping of completions, and its creation.
pub mod State
pub mod Queue
pub mod Reap
pub mod Timeout
pub mod Reads
pub mod Create
pub mod Autosubmit
pub mod Termination
pub mod Completions
pub mod Returned
pub mod Closed
pub mod Counter
pub mod Accepted
