-- ===== src/Protocol.antt =====
-- The wire protocol: include/tradep2p/protocol.hpp and src/protocol.cpp.
pub mod Wire
pub mod Types
pub mod Validate
pub mod Tranche
pub mod Hex
pub mod Terms
pub mod Offers
pub mod Pages
pub mod Registry
pub mod Invites
pub mod Trade
pub mod Receipts
pub mod Issued
pub mod Disclosure
mod Examples
