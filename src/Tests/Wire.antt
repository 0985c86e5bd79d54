-- ===== src/Tests/Wire.antt =====
-- Binary messages: runs of the hex and uuid functions, and the acknowledgements.
use bitchat_tui.Base.{◌≡◌, refl, arith, [], ◌∷◌, All, true, some, ok, panic, replicate}
use bitchat_tui.Bytes.{Bytes, IsByte}
use bitchat_tui.Text.Utf8.{is_utf8, utf8_loop, utf8_char, utf8_char_width, is_second_byte, within}
use bitchat_tui.Hex.{hex_decode, hex_pairs, byte_of_hex, digit_value, is_continuation}
use bitchat_tui.Wire.Uuid.{append_uuid, uuid_pairs, without_hyphens}
use bitchat_tui.Wire.DeliveryAck
use bitchat_tui.Wire.DeliveryAck.RoundTrip.{ack_of, from-to_binary_ack}
use bitchat_tui.Wire.ProtocolAck
use bitchat_tui.Wire.ProtocolAck.RoundTrip.{
  protocol_ack_of, from-to_binary_protocol_ack, to_binary_protocol_ack_short,
}
use bitchat_tui.Wire.VersionHello
use bitchat_tui.Wire.VersionHello.RoundTrip.{from-to_binary_hello}
use bitchat_tui.Tests.Values.{fragment_id, greeting}

decoding : Unit {0}
unfolding hex_decode hex_pairs byte_of_hex digit_value is_continuation append_uuid uuid_pairs
    without_hyphens is_utf8 utf8_loop utf8_char utf8_char_width is_second_byte within
decoding = tt

-- A plus sign stands for a digit.
plus_sign : hex_decode (b'+' ∷ b'f' ∷ []) ≡ ok (some (15 ∷ []))
unfolding decoding
plus_sign = refl

-- "a", U+00E9, "b": four bytes, and a cut inside the character.
cut_character : hex_decode (b'a' ∷ 0xC3 ∷ 0xA9 ∷ b'b' ∷ []) ≡ panic
unfolding decoding
cut_character = refl

-- What is no uuid is written as zeros.
no_uuid : append_uuid greeting ≡ ok (replicate 16 0)
unfolding decoding
no_uuid = refl

abbrev uuid : Bytes
uuid = replicate 16 0xAB

ids_are_bytes : All IsByte fragment_id
ids_are_bytes = (
  omega arith,
  (
    omega arith,
    (omega arith, (omega arith, (omega arith, (omega arith, (omega arith, (omega arith, tt)))))),
  ),
)

uuid_is_bytes : All IsByte uuid
uuid_is_bytes = ground arith

greeting_is_text : is_utf8 greeting ≡ true
unfolding decoding
greeting_is_text = refl

from-to_binary_ack_example :
    (written : Bytes) × (DeliveryAck.to_binary_data (ack_of uuid uuid fragment_id greeting 5 1)
      ≡ ok written)
    × (DeliveryAck.from_binary_data written ≡ ok (ack_of uuid uuid fragment_id greeting 5 1))
from-to_binary_ack_example =
    from-to_binary_ack uuid uuid fragment_id greeting 5 1 uuid_is_bytes (omega arith) uuid_is_bytes
      (omega arith) ids_are_bytes (omega arith) (omega arith) greeting_is_text (omega arith)

from-to_binary_protocol_ack_example :
    (written : Bytes) × (ProtocolAck.to_binary_data
        (protocol_ack_of uuid uuid fragment_id fragment_id 2 5 1)
      ≡ ok written)
    × (ProtocolAck.from_binary_data written
        ≡ ok (protocol_ack_of uuid uuid fragment_id fragment_id 2 5 1))
from-to_binary_protocol_ack_example =
    from-to_binary_protocol_ack uuid uuid fragment_id fragment_id 2 5 1 uuid_is_bytes (omega arith)
      uuid_is_bytes (omega arith) ids_are_bytes (omega arith) ids_are_bytes (omega arith)
      (omega arith)

to_binary_protocol_ack_short_example :
    ProtocolAck.to_binary_data (protocol_ack_of uuid uuid [] fragment_id 2 5 1) ≡ panic
to_binary_protocol_ack_short_example =
    to_binary_protocol_ack_short uuid uuid [] fragment_id 2 5 1 uuid_is_bytes (omega arith)
      uuid_is_bytes (omega arith) tt (omega arith)

-- Two versions and one capability.
abbrev hello : VersionHello.VersionHello
hello = record {
  supported_versions = 1 ∷ 2 ∷ [];
  preferred_version = 2;
  client_version = greeting;
  platform = greeting;
  capabilities = some (greeting ∷ []);
}

from-to_binary_hello_example :
    VersionHello.from_binary_data (VersionHello.to_binary_data hello) ≡ ok hello
from-to_binary_hello_example =
    from-to_binary_hello hello (omega arith) (omega arith, greeting_is_text)
      (omega arith, greeting_is_text) (omega arith, ((omega arith, greeting_is_text), tt))
