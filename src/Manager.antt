-- ===== src/Manager.antt =====
-- pysrc/century_ring/aio/manager.py: dispatching completions to the tasks that wait for them.
pub mod Anyio
pub mod Dispatch
pub mod Toy
pub mod Routing
pub mod Steps
pub mod Rounds
pub mod Unheard
pub mod Once
pub mod Completed
