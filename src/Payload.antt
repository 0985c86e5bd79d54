-- ===== src/Payload.antt =====
-- Payloads: src/payload_handling.rs.
pub mod Tlv
pub mod Message
