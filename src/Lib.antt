-- ===== src/Lib.antt =====
-- bitchat-tui, a terminal client of the BitChat mesh: its wire formats, its fragments and its
-- encrypted transport.
--
-- A packet travels so: src/packet_creation.rs encodes and pads it; src/fragmentation.rs cuts what
-- is longer than 500 bytes into fragments of 150 bytes, each a packet of its own;
-- src/packet_parser.rs parses every received frame; the handler of src/notification_handlers.rs
-- hands fragments to the collector of src/data_structures.rs, which puts packets together. A
-- message is a payload of src/payload_handling.rs inside a packet. Private traffic goes through
-- the sessions of src/noise_session.rs, whose manager keeps one for each peer: an XX handshake of
-- src/noise_protocol.rs makes it, and its cipher states carry the messages. src/encryption.rs
-- holds the older keys, by peer and by channel. src/tui/app.rs keeps the conversations that are
-- shown. Deliveries are acknowledged by the rules of src/packet_delivery.rs, with the tracker of
-- src/data_structures.rs; the binary form of the acknowledgements is in src/binary_encoding.rs,
-- over the buffer methods of src/binary_protocol_utils.rs.
--
--   Base         shared names, Boolean tests, lists, results
--   Bytes, Text  byte buffers, reading them from a cursor, strings, the standard library's UTF-8;
--                the parameter for the crate `hex`
--   Maps         HashMap and HashSet as association lists, with Laws and Entries
--   Hex          hex_encode and hex_decode of src/binary_protocol_utils.rs
--   Compression  src/compression.rs, with its crates as parameters
--   Packet       Types (src/data_structures.rs), Padding, Encode (src/packet_creation.rs), Parse
--                (src/packet_parser.rs); their laws in Padding.Laws, Encode.Layout, Stages, Frames,
--                RoundTrip and Safety; Version (negotiate_version) and Binary (to_binary_data and
--                from_binary_data of a packet) of src/data_structures.rs
--   Fragments    the collector; Send (src/fragmentation.rs), Receive (the fragment part of
--                src/notification_handlers.rs); Relay, Chunks, Fill, Reassembly, EndToEnd and
--                Delivery
--   Payload      src/payload_handling.rs: Tlv, the private and the verification payloads, and
--                Message, the message payloads
--   Wire         Buffer and Uuid (BinaryDataExt of src/binary_protocol_utils.rs), PeerId, and the
--                messages DeliveryAck, ProtocolAck and VersionHello of src/binary_encoding.rs
--   Delivery     should_send_ack of src/packet_delivery.rs, Tracker (DeliveryTracker)
--   Noise        src/noise_protocol.rs: Cipher (NoiseCipherState, with Window and Replay),
--                Symmetric (NoiseSymmetricState), Handshake (NoiseHandshakeState, with Keys for
--                validate_public_key, Party and Agreement); src/noise_session.rs: Session
--                (NoiseSession, with Agreement, Traffic with Link and Exchange, and Invariant) and
--                Manager (NoiseSessionManager, with Sessions and Handshakes for its methods, and
--                Sound, Invariant, Transport, Outcomes, Fingerprints, Paired and Repeat); Action is
--                a state with errors, for methods on &mut self
--   Encryption   src/encryption.rs, with Keys and Exchange
--   App          the conversations of src/tui/app.rs, with Messages, Status, Sent, Unread
--                (People says who is meant by a target) and Switch (Keys, Left and Leave for the
--                channel that is left), and the geohash channels of src/nostr_geo.rs
--   Tests        concrete runs
--
-- A definition has the name of the function that it models. A byte is a number below 256, a
-- buffer a list of bytes, a string the list of its UTF-8 bytes. A cursor into a buffer is the
-- rest of the buffer from there on. Casts are written as remainders. An index or a slice that
-- may be out of range is the result `panic`; behind a test of the length, and on arrays of a fixed
-- size, it may stand as `take`, `drop` or `get_or`. The clock, random ids, the target platform and what the radio link
-- does are arguments; the crates (hex, miniz_oxide, lz4_flex, chacha20poly1305, sha2, hmac,
-- x25519-dalek, ed25519-dalek, aes-gcm, hkdf, pbkdf2) are records of functions, and what a
-- theorem needs of them is a hypothesis of the theorem. Loops over a buffer take the buffer's
-- length as fuel, since each round takes a byte at least.
--
-- Not modelled: logging and debug output, delays, the terminal interface, Bluetooth and network
-- input and output, which compute nothing that the formats depend on; the locks of the session
-- manager; the binary messages that Wire does not name; of the application state the log lines,
-- the people of geohash channels, popups and previews.
pub mod Base
pub mod Bytes
pub mod Text
pub mod Maps
pub mod Hex
pub mod Compression
pub mod Packet
pub mod Fragments
pub mod Payload
pub mod Wire
pub mod Delivery
pub mod Noise
pub mod Encryption
pub mod App
pub mod Tests
