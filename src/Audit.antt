-- ===== src/Audit.antt =====
-- internal/audit: events, their canonical bytes and hashes, the chain, its verification, the logger.
pub mod Event
pub mod Canonical
pub mod Logger
pub mod Integrity
pub mod Samples
mod Tests
