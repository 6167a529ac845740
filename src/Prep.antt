-- ===== src/Prep.antt =====
-- src/shared.rs, src/flags.rs, src/files.rs and src/network.rs: the functions that prepare a
-- submission queue entry.
pub mod Shared
pub mod Flags
pub mod Files
pub mod Network
pub mod Bounds
pub mod SkipSuccess
pub mod FlagBits
pub mod Pushed
pub mod Requests
pub mod Outcome
