-- ===== src/Crypto.antt =====
-- ML-DSA-65, the post-quantum signature: solomon-core/src/crypto.
pub mod Word
pub mod Scalar
pub mod Packing
pub mod Rounding
pub mod Ntt
pub mod Poly
mod Tests
