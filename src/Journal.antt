-- ===== src/Journal.antt =====
-- The journal of a client: include/tradep2p/journal.hpp and src/journal.cpp.
pub mod Types
pub mod Format
pub mod Store
pub mod Replay
pub mod Transitions
pub mod RoundTrip
pub mod Framing
pub mod Resume
pub mod Appends
pub mod Consistent
pub mod Reopen
pub mod Written
pub mod Crash
pub mod Canonical
pub mod Linked
pub mod Tamper
pub mod Collision
mod Examples
