-- ===== src/Sidecar.antt =====
-- pysrc/century_ring/aio/sidecar.py and trio.py: `start_uring_sidecar`.
pub mod Host
pub mod Start
pub mod Ending
pub mod Toy
