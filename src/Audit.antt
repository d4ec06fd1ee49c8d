-- ===== src/Audit.antt =====
-- solomon-core/src/audit: the hash chain of audit records, and what feeds it.
pub mod Localization
pub mod Record
pub mod Chain
pub mod Logger
pub mod Anomaly
mod Tests
