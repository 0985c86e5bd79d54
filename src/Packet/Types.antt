-- ===== src/Packet/Types.antt =====
-- The packet of src/data_structures.rs: message types with their wire bytes, flags, the record
-- `BitchatPacket`, and `ProtocolVersion`.
use bitchat_tui.Base.{ℕ, ◌==◌, if◌then◌else◌, Bool, ◌||◌, Option, none, some, replicate}
use bitchat_tui.Bytes.{Bytes}

pub data MessageType : Type 0 where
  announce message leave key_exchange : MessageType
  fragment_start fragment_continue fragment_end : MessageType
  channel_announce channel_retention : MessageType
  delivery_ack delivery_status_request read_receipt : MessageType
  noise_handshake_init noise_handshake_resp noise_encrypted noise_identity_announce : MessageType
  request_sync file_transfer : MessageType
  protocol_ack protocol_nack system_validation handshake_request : MessageType

-- `msg_type as u8`
unfoldable pub type_byte : MessageType → ℕ
type_byte announce = 0x01
type_byte message = 0x02
type_byte leave = 0x03
type_byte key_exchange = 0x0D
type_byte fragment_start = 0x05
type_byte fragment_continue = 0x06
type_byte fragment_end = 0x07
type_byte channel_announce = 0x08
type_byte channel_retention = 0x09
type_byte delivery_ack = 0x0A
type_byte delivery_status_request = 0x0B
type_byte read_receipt = 0x0C
type_byte noise_handshake_init = 0x10
type_byte noise_handshake_resp = 0x12
type_byte noise_encrypted = 0x11
type_byte noise_identity_announce = 0x13
type_byte request_sync = 0x21
type_byte file_transfer = 0x22
type_byte protocol_ack = 0x26
type_byte protocol_nack = 0x23
type_byte system_validation = 0x24
type_byte handshake_request = 0x25

-- The match on the type byte, which `parse_bitchat_packet_core` and `from_binary_data` share.
unfoldable pub type_of_byte : ℕ → Option MessageType
type_of_byte b =
    if b == 0x01
    then some announce
    else if b == 0x02
    then some message
    else if b == 0x03
    then some leave
    else if b == 0x04
    then some message
    else if b == 0x05
    then some fragment_start
    else if b == 0x06
    then some fragment_continue
    else if b == 0x07
    then some fragment_end
    else if b == 0x08
    then some channel_announce
    else if b == 0x09
    then some channel_retention
    else if b == 0x0A
    then some delivery_ack
    else if b == 0x0B
    then some delivery_status_request
    else if b == 0x0C
    then some read_receipt
    else if b == 0x0D
    then some key_exchange
    else if b == 0x10
    then some noise_handshake_init
    else if b == 0x11
    then some noise_encrypted
    else if b == 0x12
    then some noise_handshake_resp
    else if b == 0x13
    then some noise_identity_announce
    else if b == 0x20
    then some fragment_start
    else if b == 0x21
    then some request_sync
    else if b == 0x22
    then some file_transfer
    else if b == 0x23
    then some protocol_nack
    else if b == 0x24
    then some system_validation
    else if b == 0x25
    then some handshake_request
    else if b == 0x26
    then some protocol_ack
    else none

abbrev pub flag_has_recipient : ℕ
flag_has_recipient = 0x01

abbrev pub flag_has_signature : ℕ
flag_has_signature = 0x02

abbrev pub flag_is_compressed : ℕ
flag_is_compressed = 0x04

abbrev pub signature_size : ℕ
signature_size = 64

abbrev pub broadcast_recipient : Bytes
broadcast_recipient = replicate 8 0xFF

pub record BitchatPacket : Type 0 where
  pub version : ℕ
  pub msg_type : MessageType
  pub sender_id : Bytes
  pub sender_id_str : Bytes
  pub recipient_id : Option Bytes
  pub recipient_id_str : Option Bytes
  pub timestamp : ℕ
  pub payload : Bytes
  pub signature : Option Bytes
  pub ttl : ℕ

-- `ProtocolVersion::is_supported`
unfoldable pub is_supported : ℕ → Bool
is_supported version = version == 1 || version == 2
