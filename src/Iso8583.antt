-- ===== src/Iso8583.antt =====
-- solomon-core/src/iso8583.rs: ISO 8583 messages.
pub mod Schema
pub mod Message
pub mod Text
pub mod Bitmap
pub mod Serialize
pub mod Parse
pub mod WellFormed
pub mod RoundTrip
pub mod Limits
mod Tests
