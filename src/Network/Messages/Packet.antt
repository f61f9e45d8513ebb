-- ===== src/Network/Messages/Packet.antt =====
-- network/messages/packet.cpp: a packet is its size, a message count, the messages and a checksum,
-- the last four bytes of an MD5 digest over all that stands before it.
pub mod Wire
pub mod RoundTrip
pub mod Readers
pub mod Invalid
pub mod Accepted
mod Tests
use discnet.Common.{
  ℕ, zero, suc, ◌+◌, ◌-◌, ◌%◌, ◌^◌, ◌<◌, List, [], ◌∷◌, ◌++◌, Bool, true, false, ltb, ◌==◌,
  if◌then◌else◌, length, take, drop,
}
use discnet.Host.{Host, load}
use discnet.Network.Buffer.{Buffer, data_span, remaining_bytes, bytes_left_to_read, reset_read}
use discnet.Network.Messages.Decoder.{
  Error, packet_header_missing, packet_data_missing, checksum_failed, header_failed, message_failed,
  unknown_message_type, Expected, value, unexpected, M, pure, fail, ◌>>=◌, map_error, read_word,
  read_bytes,
}
use discnet.Network.Messages.Encoder.{W, append_word}
use discnet.Network.Messages.Header.{
  Header, MessageType, discovery_message, data_message, command_message, unnamed, to_uint16,
}
use discnet.Network.Messages.Header
use discnet.Network.Messages.DataMessage.{DataMessage}
use discnet.Network.Messages.DataMessage
use discnet.Network.Messages.DiscoveryMessage.{DiscoveryMessage}
use discnet.Network.Messages.DiscoveryMessage

-- `message_variant_t`.
pub data Message : Type 0 where
  of_discovery : DiscoveryMessage → Message
  of_data : DataMessage → Message

pub record Packet : Type 0 where
  pub messages : List Message

abbrev pub s_packet_size_field_size : ℕ
s_packet_size_field_size = 4

abbrev pub s_checksum_size : ℕ
s_checksum_size = 4

-- Size, message count and checksum.
abbrev pub s_header_size : ℕ
s_header_size = s_packet_size_field_size + 2 + s_checksum_size

-- `visit_message_size_t`.
unfoldable pub message_size : Message → ℕ
message_size (of_discovery m) = DiscoveryMessage.encoded_size m
message_size (of_data m) = DataMessage.encoded_size m

-- `visit_message_encode_t`.
encode_message : Host → Message → W
encode_message h (of_discovery m) = DiscoveryMessage.encode h m
encode_message h (of_data m) = DataMessage.encode h m

-- The loop that adds up the sizes.
sizes : List Message → ℕ
sizes [] = 0
sizes (m ∷ ms) = message_size m + sizes ms

unfoldable pub total_packet_size : List Message → ℕ
unfolding sizes
total_packet_size ms = s_header_size + sizes ms

-- `*reinterpret_cast<uint32_t*>(&digest[12])`.
unfoldable pub last_part_digest : Host → List ℕ → ℕ
last_part_digest h xs = load (take 4 (drop 12 (h.digest xs)))

-- The loop over the messages ends at the first that is refused.
encode_messages : Host → List Message → W
encode_messages h [] b = (true, b)
encode_messages h (m ∷ ms) b =
    let rest = encode_messages h ms (encode_message h m b).1 in
    if (encode_message h m b).0 then rest else (false, (encode_message h m b).1)

append_checksum : Host → W
append_checksum h b = (true, (append_word h 4 (last_part_digest h (data_span b)) b).1)

encode_fields : Host → List Message → W
unfolding encode_messages append_checksum
encode_fields h ms b =
    let b1 = (append_word h 4 (total_packet_size ms % 2 ^ 32) b).1 in
    let b2 = (append_word h 2 (length ms % 2 ^ 16) b1).1 in
    let r = encode_messages h ms b2 in if r.0 then append_checksum h r.1 else (false, r.1)

pub encode : Host → List Message → W
unfolding encode_fields
encode h ms b =
    if ltb (remaining_bytes b) (total_packet_size ms) then (false, b) else encode_fields h ms b

-- `size - s_checksum_size` in `size_t`.
unfoldable pub message_bytes : ℕ → ℕ
message_bytes size = (size + 2 ^ 64 - s_checksum_size) % 2 ^ 64

compare_checksum : Host → ℕ → List ℕ → M Bool
compare_checksum h checksum complete =
    if checksum == last_part_digest h complete
    then pure true
    else fail (checksum_failed checksum (load (take 1 (drop 3 (h.digest complete)))))

pub validate_checksum : Host → ℕ → M Bool
unfolding compare_checksum
validate_checksum h size = do
  complete ← read_bytes (message_bytes size)
  checksum ← read_word h 4
  compare_checksum h checksum complete

validate_size : Host → ℕ → M Bool
unfolding validate_checksum
validate_size h size b =
    if ltb (bytes_left_to_read (reset_read b)) size
    then (fail packet_data_missing) (reset_read b)
    else validate_checksum h size (reset_read b)

pub validate_packet : Host → M Bool
unfolding validate_size
validate_packet h b =
    if ltb (bytes_left_to_read b) s_packet_size_field_size
    then (fail packet_header_missing) b
    else (do size ← read_word h 4; validate_size h size) b

-- The switch over the type of a header.
decode_body : Host → ℕ → MessageType → M Message
decode_body h i discovery_message = do
  m ← map_error (message_failed i) (DiscoveryMessage.decode h)
  pure (of_discovery m)
decode_body h i data_message = do
  m ← map_error (message_failed i) (DataMessage.decode h)
  pure (of_data m)
decode_body h i command_message = fail (unknown_message_type (to_uint16 command_message))
decode_body h i (unnamed v) = fail (unknown_message_type (to_uint16 (unnamed v)))

decode_message : Host → ℕ → M Message
unfolding decode_body
decode_message h i = do
  header ← map_error (header_failed i) (Header.decode h)
  decode_body h i header.type

-- `i` is the number of the message, and the other number counts those that are left.
decode_messages : Host → ℕ → ℕ → M (List Message)
unfolding decode_message
decode_messages h i zero = pure []
decode_messages h i (suc n) = do
  m ← decode_message h i
  ms ← decode_messages h (i + 1) n
  pure (m ∷ ms)

decode_fields : Host → M Packet
unfolding decode_messages
decode_fields h = do
  size ← read_word h 4
  messages ← read_word h 2
  ms ← decode_messages h 0 messages
  checksum ← read_word h 4
  pure (record { messages = ms })

decode_valid : Host → Expected Bool → M Packet
unfolding decode_fields
decode_valid h (value valid) b = decode_fields h b
decode_valid h (unexpected e) b = (unexpected e, b)

pub decode : Host → M Packet
unfolding validate_packet decode_valid
decode h b = decode_valid h (validate_packet h b).0 (reset_read (validate_packet h b).1)
