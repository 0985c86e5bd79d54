-- ===== src/Wire.antt =====
-- The binary messages: the buffer methods of src/binary_protocol_utils.rs and the messages of
-- src/binary_encoding.rs.
pub mod Buffer
pub mod Uuid
pub mod PeerId
pub mod DeliveryAck
pub mod ProtocolAck
pub mod VersionHello
