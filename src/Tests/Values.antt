-- ===== src/Tests/Values.antt =====
-- Test data: concrete functions for the crates, ids, a signature.
use bitchat_tui.Base.{◌+◌, ◌*◌, [], ◌∷◌, Option, none, some, replicate}
use bitchat_tui.Bytes.{Bytes}
use bitchat_tui.Text.{Text, HexCrate}
use bitchat_tui.Hex.{hex_encode, digit_value}
use bitchat_tui.Compression.{Inflate}
use bitchat_tui.Noise.Cipher.{Aead}

-- `hex::decode`: pairs of digits.
unfoldable pub decode_pairs : Text → Option Bytes
unfolding digit_value
decode_pairs [] = some []
decode_pairs (a ∷ []) = none
decode_pairs (a ∷ b ∷ rest) = elim (decode_pairs rest) [
  | none ↦ none
  | some bytes ↦ elim (digit_value a) [
    | none ↦ none
    | some hi ↦ elim (digit_value b) [ none ↦ none | some lo ↦ some ((hi * 16 + lo) ∷ bytes) ]
  ]
]

abbrev pub plain_hex : HexCrate
plain_hex = record { encode = hex_encode; decode = decode_pairs }

abbrev pub no_inflate : Inflate
no_inflate = record { zlib = λ input limit. none; raw = λ input limit. none }

-- A cipher that leaves the text as it is.
abbrev pub plain_aead : Aead
plain_aead = record {
  encrypt = λ key nonce associated_data plaintext. some plaintext;
  decrypt = λ key nonce associated_data ciphertext. some ciphertext;
}

-- "0102030405060708"
abbrev pub alice : Text
alice =
    b'0' ∷ b'1' ∷ b'0' ∷ b'2' ∷ b'0' ∷ b'3' ∷ b'0' ∷ b'4' ∷ b'0' ∷ b'5' ∷ b'0' ∷ b'6' ∷ b'0' ∷ b'7'
    ∷ b'0' ∷ b'8' ∷ []

-- "bob", which is no hex string
abbrev pub bob : Text
bob = b'b' ∷ b'o' ∷ b'b' ∷ []

abbrev pub greeting : Bytes
greeting = b'h' ∷ b'i' ∷ []

abbrev pub signature : Bytes
signature = replicate 64 9

abbrev pub fragment_id : Bytes
fragment_id = 1 ∷ 2 ∷ 3 ∷ 4 ∷ 5 ∷ 6 ∷ 7 ∷ 8 ∷ []
