-- ===== src/Noise.antt =====
-- The Noise transport of src/noise_protocol.rs.
pub mod Cipher
pub mod Action
pub mod Symmetric
pub mod Handshake
pub mod Session
pub mod Manager
