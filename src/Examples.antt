-- ===== src/Examples.antt =====
-- The theorems at concrete inputs: a ring on the platform of Platform/Toy.antt.
mod Memory
mod Rings
mod Preparing
mod Clients
mod Managers
mod Sidecars
mod Tickets
mod Timeouts
mod Protocols
