-- ===== src/Tickets.antt =====
-- The user data that the methods of `IoUring` (pysrc/century_ring/ring.py) hand out, and that the
-- completion events bring back: what a user of the package sees of a ring.
pub mod Protocol
pub mod Trace
pub mod Reports
pub mod Steps
pub mod Refines
