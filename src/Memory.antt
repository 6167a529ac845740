-- ===== src/Memory.antt =====
-- The buffers that the kernel may still use are owned by the ring: the claim that the comments of
-- src/ring.rs make for `owned_data`, for every use of the wrapper in pysrc/century_ring/ring.py.
pub mod Invariant
pub mod Queue
pub mod Reap
pub mod Quiet
pub mod QuietCalls
pub mod Settled
pub mod Sequence
pub mod Frames
pub mod Created
