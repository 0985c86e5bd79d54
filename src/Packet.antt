-- ===== src/Packet.antt =====
-- Packets: src/data_structures.rs, src/packet_creation.rs and src/packet_parser.rs.
pub mod Types
pub mod Version
pub mod Padding
pub mod Encode
pub mod Parse
pub mod Binary
pub mod Stages
pub mod Frames
pub mod RoundTrip
pub mod Safety
