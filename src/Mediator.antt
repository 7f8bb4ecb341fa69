-- ===== src/Mediator.antt =====
-- The settlement session of the mediator: include/tradep2p/mediator.hpp and src/mediator.cpp.
pub mod Session
pub mod Step
pub mod Invariant
pub mod Turn
pub mod Ledger
pub mod Settlement
pub mod FeePaid
pub mod Runs
pub mod Ends
pub mod Bounded
pub mod Honest
pub mod Liveness
pub mod Announce
mod Examples
