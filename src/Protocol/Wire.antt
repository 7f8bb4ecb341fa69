-- ===== src/Protocol/Wire.antt =====
-- The classes Writer and Reader of src/protocol.cpp, and the laws that join them.
pub mod Bytes
pub mod Writer
pub mod Reader
pub mod RoundTrip
pub mod Canonical
