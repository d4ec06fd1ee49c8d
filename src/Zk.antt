-- ===== src/Zk.antt =====
-- The proof system of solomon-zk.
pub mod Field
pub mod Merkle
pub mod Verifier
pub mod Fri
mod Tests
