-- ===== src/Packet/Binary/RoundTrip.antt =====
-- What `from_binary_data` reads from the bytes of `to_binary_data`.
use bitchat_tui.Base.{
  zero, suc, replicate, ap, ◌∙◌, sym, subst, ◌↔◌, length-replicate, take_of_length-le, not, bit_and,
  ◌==◌, ℕ, ◌%◌, ◌^◌, ◌<◌, ◌≤◌, ◌≡◌, refl, arith, [], ◌∷◌, ◌++◌, append-nil, Option, none, some,
  length, take, drop, length-append, ok,
}
use bitchat_tui.Bytes.{Bytes, split, to_be_bytes}
use bitchat_tui.Bytes.Laws.{length-to_be_bytes, from_be_bytes-to_be_bytes}
use bitchat_tui.Bytes.Cursor.{refused, get_byte, slice_or, slice_or-append}
use bitchat_tui.Hex.{hex_encode}
use bitchat_tui.Packet.Types.{BitchatPacket, MessageType, type_byte}
use bitchat_tui.Packet.Encode.{flags_of, signature_bytes}
use bitchat_tui.Packet.Stages.{IsSignature, type_of_byte-type_byte}
use bitchat_tui.Packet.Binary.{to_binary_data, from_binary_data, field_if, hex_of}

-- The packet that is read with given ids, payload and signature.
abbrev pub read_packet :
    MessageType → ℕ → ℕ → Bytes → Option Bytes → Bytes → Option Bytes → BitchatPacket
read_packet t ttl timestamp sender recipient payload signature = record {
  version = 1;
  msg_type = t;
  sender_id = sender;
  sender_id_str = hex_encode sender;
  recipient_id = recipient;
  recipient_id_str = hex_of recipient;
  timestamp = timestamp;
  payload = payload;
  signature = signature;
  ttl = ttl;
}

-- The first bytes of a buffer that is long enough.
cut_short :
    (n : ℕ) (bytes : Bytes)
    → n ≤ length bytes
    → slice_or refused n bytes ≡ ok (take n bytes, drop n bytes)
unfolding slice_or split
cut_short n bytes h = ground arith

signature_field :
    (recipient signature : Option Bytes) (rest : Bytes)
    → IsSignature signature
    → field_if
        (not (bit_and (flags_of recipient signature) 0x02 == 0))
        64
        (signature_bytes signature ++ rest)
      ≡ ok (signature, rest)
unfolding field_if flags_of
signature_field none none rest h = refl
signature_field (some r) none rest h = refl
signature_field none (some sig) rest h = rw (slice_or-append refused 64 sig rest h) refl
signature_field (some r) (some sig) rest h = rw (slice_or-append refused 64 sig rest h) refl

recipient_field :
    (recipient : Bytes) (signature : Option Bytes) (rest : Bytes)
    → length recipient ≡ 8
    → field_if (not (bit_and (flags_of (some recipient) signature) 0x01 == 0)) 8 (recipient ++ rest)
      ≡ ok (some recipient, rest)
unfolding field_if flags_of
recipient_field recipient none rest h = rw (slice_or-append refused 8 recipient rest h) refl
recipient_field recipient (some sig) rest h = rw (slice_or-append refused 8 recipient rest h) refl

-- The parser behind the sender, on any bytes.
from_header :
    (t : MessageType) (ttl timestamp flags len : ℕ) (sender : Bytes) (recipient : Option Bytes)
    (payload : Bytes) (signature : Option Bytes) (d7 d8 d9 d10 : Bytes)
    → timestamp < 2 ^ 64
    → len < 2 ^ 16
    → length sender ≡ 8
    → field_if (not (bit_and flags 0x01 == 0)) 8 d7 ≡ ok (recipient, d8)
    → slice_or refused len d8 ≡ ok (payload, d9)
    → field_if (not (bit_and flags 0x02 == 0)) 64 d9 ≡ ok (signature, d10)
    → from_binary_data (
        1
        ∷ type_byte t
        ∷ ttl
        ∷ (to_be_bytes 8 timestamp ++ (flags ∷ (to_be_bytes 2 len ++ (sender ++ d7)))))
      ≡ ok (read_packet t ttl timestamp sender recipient payload signature)
unfolding from_binary_data get_byte
from_header t ttl timestamp flags len sender recipient payload signature d7 d8 d9 d10 ht hl hs er ep
      es =
    ground (
      arith,
      type_of_byte-type_byte t,
      slice_or-append refused 8 (to_be_bytes 8 timestamp)
          (flags ∷ (to_be_bytes 2 len ++ (sender ++ d7))) (length-to_be_bytes 8 timestamp),
      slice_or-append refused 2 (to_be_bytes 2 len) (sender ++ d7) (length-to_be_bytes 2 len),
      slice_or-append refused 8 sender d7 hs,
      from_be_bytes-to_be_bytes 8 timestamp ht,
      from_be_bytes-to_be_bytes 2 len hl,
      length-append (to_be_bytes 8 timestamp) (flags ∷ (to_be_bytes 2 len ++ (sender ++ d7))),
      length-append (to_be_bytes 2 len) (sender ++ d7),
      length-append sender d7,
      length-to_be_bytes 8 timestamp,
      length-to_be_bytes 2 len,
    )

-- A packet with a recipient is read back from its bytes: its version is 1, its ids have eight bytes,
-- its payload is shorter than 65536 bytes, its time is a u64 and its signature, if it has one, has
-- 64 bytes; the texts of the ids are their
-- lower-case hex.
pub from-to_binary :
    (t : MessageType) (sender recipient payload : Bytes) (signature : Option Bytes)
    (ttl timestamp : ℕ)
    → length sender ≡ 8
    → length recipient ≡ 8
    → length payload < 2 ^ 16
    → timestamp < 2 ^ 64
    → IsSignature signature
    → from_binary_data
        (to_binary_data (read_packet t ttl timestamp sender (some recipient) payload signature))
      ≡ ok (read_packet t ttl timestamp sender (some recipient) payload signature)
unfolding to_binary_data
from-to_binary t sender recipient payload signature ttl timestamp hs hr hp ht hg =
    let fits : length payload % 2 ^ 16 ≡ length payload = omega arith in
    let flags = flags_of (some recipient) signature in
    let d8 = payload ++ (signature_bytes signature ++ []) in
    rw (fits, ← append-nil (signature_bytes signature))
      (from_header t ttl timestamp flags (length payload) sender (some recipient) payload signature
        (recipient ++ d8) d8 (signature_bytes signature ++ []) [] ht hp hs
        (recipient_field recipient signature d8 hr)
        (slice_or-append refused (length payload) payload (signature_bytes signature ++ []) refl)
        (signature_field (some recipient) signature [] hg))

from_broadcast :
    (t : MessageType) (sender payload : Bytes) (ttl timestamp : ℕ)
    → length sender ≡ 8
    → length payload < 2 ^ 16
    → timestamp < 2 ^ 64
    → from_binary_data (to_binary_data (read_packet t ttl timestamp sender none payload none))
      ≡ ok (
          read_packet t ttl timestamp sender none
            (take (length payload) (replicate 8 0xFF ++ payload))
            none)
unfolding to_binary_data field_if flags_of
from_broadcast t sender payload ttl timestamp hs hp ht =
    let fits : length payload % 2 ^ 16 ≡ length payload = omega arith in
    let n = length payload in
    let d7 = replicate 8 0xFF ++ payload in
    rw (fits, append-nil payload)
      (from_header t ttl timestamp 0 n sender none (take n d7) none d7 d7 (drop n d7) (drop n d7) ht
        hp hs refl (cut_short n d7 (omega arith)) refl)

replicate-append_cons : (k x : ℕ) (p : Bytes) → replicate k x ++ (x ∷ p) ≡ x ∷ (replicate k x ++ p)
replicate-append_cons zero x p = refl
replicate-append_cons (suc k) x p = ap (◌∷◌ x) (replicate-append_cons k x p)

-- Bytes that stay when others of value `x` are put in front and the end is cut.
replicate_of_shift :
    (k x : ℕ) (p : Bytes)
    → take (length p) (replicate (suc k) x ++ p) ≡ p
    → p ≡ replicate (length p) x
replicate_of_shift k x [] h = refl
replicate_of_shift k x (b ∷ p) h =
    let same : b ≡ x = cc in
    let rest : take (length p) (replicate k x ++ (b ∷ p)) ≡ p = cc in
    let moved : take (length p) (replicate (suc k) x ++ p) ≡ p =
      rw (← replicate-append_cons k x p) (rw same at rest) in
    ground (arith, same, replicate_of_shift k x p moved)

take-replicate_append : (k x n : ℕ) → take n (replicate k x ++ replicate n x) ≡ replicate n x
take-replicate_append zero x n =
    take_of_length-le n (replicate n x) (omega (arith, length-replicate n x))
take-replicate_append (suc k) x zero = refl
take-replicate_append (suc k) x (suc n) =
    rw (replicate-append_cons k x (replicate n x)) (ap (◌∷◌ x) (take-replicate_append (suc k) x n))

-- A packet of version 1 without a recipient and without a signature: the eight broadcast bytes that
-- `to_binary_data` writes, with no flag set for them, become the start of the payload, and as many
-- bytes at its end are lost. So it is read back as it was exactly when its payload has no other
-- bytes than 0xFF.
pub from-to_binary_broadcast :
    (t : MessageType) (sender payload : Bytes) (ttl timestamp : ℕ)
    → length sender ≡ 8
    → length payload < 2 ^ 16
    → timestamp < 2 ^ 64
    → let sent = read_packet t ttl timestamp sender none payload none in
      (from_binary_data (to_binary_data sent)
        ≡ ok (
            read_packet t ttl timestamp sender none
              (take (length payload) (replicate 8 0xFF ++ payload))
              none))
      × ((from_binary_data (to_binary_data sent) ≡ ok sent)
          ↔ (payload ≡ replicate (length payload) 0xFF))
from-to_binary_broadcast t sender payload ttl timestamp hs hp ht =
    let back = from_broadcast t sender payload ttl timestamp hs hp ht in
    let n = length payload in
    (
      back,
      (
        λ same. replicate_of_shift 7 0xFF payload (ground (arith, back, same)),
        λ full.
            back
            ∙ ap (λ bytes. ok (read_packet t ttl timestamp sender none bytes none))
                (subst (λ bytes. take n (replicate 8 0xFF ++ bytes) ≡ bytes) (sym full)
                  (take-replicate_append 8 0xFF n)),
      ),
    )
