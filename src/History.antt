-- ===== src/History.antt =====
-- What a client remembers of its counterparties: include/tradep2p/history.hpp and src/history.cpp.
pub mod Types
pub mod Cipher
pub mod Format
pub mod RoundTrip
pub mod Store
pub mod Lookup
pub mod Update
pub mod Reopen
pub mod Text
pub mod Size
pub mod Total
pub mod Refusal
mod Examples
