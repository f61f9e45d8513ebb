-- ===== src/Network/Messages/Packet/Readers.antt =====
-- What `packet_codec_t::decode` changes of a buffer.
use discnet.Common.{◌≡◌, ◌≤◌, Bool, ℕ, zero, suc, ◌+◌, refl, arith, List}
use discnet.Host.{Host}
use discnet.Network.Buffer.{Buffer, reset_read}
use discnet.Network.Messages.Decoder.{Expected, value, unexpected}
use discnet.Network.Messages.Decoder.Readers.{
  SameData, IsReader, SameData-refl, SameData-trans, pure-IsReader, fail-IsReader, bind-IsReader,
  guard-IsReader, map_error-IsReader, read_word-IsReader, read_bytes-IsReader,
}
use discnet.Network.Messages.Header.{
  MessageType, discovery_message, data_message, command_message, unnamed,
}
use discnet.Network.Messages.Header
use discnet.Network.Messages.DataMessage
use discnet.Network.Messages.DiscoveryMessage
use discnet.Network.Messages.Packet.{
  Message, compare_checksum, validate_checksum, validate_size, validate_packet, decode_body,
  decode_message, decode_messages, decode_fields, decode_valid, decode,
}

reset_read-SameData : (b : Buffer) → SameData b (reset_read b)
unfolding reset_read
reset_read-SameData b = record { bytes = refl; offset = refl; within = λ h. omega arith }

compare_checksum-IsReader :
    (h : Host) (checksum : ℕ) (xs : List ℕ) → IsReader (compare_checksum h checksum xs)
unfolding compare_checksum
compare_checksum-IsReader h checksum xs = record { run = λ b. ground (arith, SameData-refl b) }

pub validate_checksum-IsReader : (h : Host) (size : ℕ) → IsReader (validate_checksum h size)
unfolding validate_checksum
validate_checksum-IsReader h size =
    bind-IsReader _ _ (read_bytes-IsReader _)
      (λ xs. bind-IsReader _ _ (read_word-IsReader h 4) (λ c. compare_checksum-IsReader h c xs))

validate_size-IsReader : (h : Host) (size : ℕ) → IsReader (validate_size h size)
unfolding validate_size
validate_size-IsReader h size = record {
  run = λ b.
      SameData-trans b (reset_read b) _ (reset_read-SameData b)
        (guard-IsReader _ _ (reset_read b) _ (validate_checksum-IsReader h size));
}

pub validate_packet-IsReader : (h : Host) → IsReader (validate_packet h)
unfolding validate_packet
validate_packet-IsReader h = record {
  run = λ b.
      guard-IsReader _ _ b _
        (bind-IsReader _ _ (read_word-IsReader h 4) (λ size. validate_size-IsReader h size));
}

decode_body-IsReader : (h : Host) (i : ℕ) (type : MessageType) → IsReader (decode_body h i type)
unfolding decode_body
decode_body-IsReader h i discovery_message =
    bind-IsReader _ _ (map_error-IsReader _ _ (DiscoveryMessage.Wire.decode-IsReader h))
      (λ m. pure-IsReader _)
decode_body-IsReader h i data_message =
    bind-IsReader _ _ (map_error-IsReader _ _ (DataMessage.Wire.decode-IsReader h))
      (λ m. pure-IsReader _)
decode_body-IsReader h i command_message = fail-IsReader Message _
decode_body-IsReader h i (unnamed v) = fail-IsReader Message _

decode_message-IsReader : (h : Host) (i : ℕ) → IsReader (decode_message h i)
unfolding decode_message
decode_message-IsReader h i =
    bind-IsReader _ _ (map_error-IsReader _ _ (Header.Wire.decode-IsReader h))
      (λ header. decode_body-IsReader h i header.type)

decode_messages-IsReader : (h : Host) (i n : ℕ) → IsReader (decode_messages h i n)
unfolding decode_messages
decode_messages-IsReader h i zero = pure-IsReader _
decode_messages-IsReader h i (suc n) =
    bind-IsReader _ _ (decode_message-IsReader h i)
      (λ m. bind-IsReader _ _ (decode_messages-IsReader h (i + 1) n) (λ ms. pure-IsReader _))

decode_fields-IsReader : (h : Host) → IsReader (decode_fields h)
unfolding decode_fields
decode_fields-IsReader h = bind-IsReader _ _ (read_word-IsReader h 4) (λ size.
    bind-IsReader _ _ (read_word-IsReader h 2) (λ n.
      bind-IsReader _ _ (decode_messages-IsReader h 0 n)
        (λ ms. bind-IsReader _ _ (read_word-IsReader h 4) (λ c. pure-IsReader _))))

decode_valid-IsReader : (h : Host) (r : Expected Bool) → IsReader (decode_valid h r)
unfolding decode_valid
decode_valid-IsReader h (value valid) = record { run = (decode_fields-IsReader h).run }
decode_valid-IsReader h (unexpected e) = record { run = SameData-refl }

pub decode-IsReader : (h : Host) → IsReader (decode h)
unfolding decode
decode-IsReader h = record {
  run = λ b. SameData-trans b _ _ ((validate_packet-IsReader h).run b) (
      SameData-trans _ _ _ (reset_read-SameData (validate_packet h b).1)
        ((decode_valid-IsReader h (validate_packet h b).0).run _));
}

-- Whatever the bytes are and whatever `decode` answers, the bytes and the write offset stay, and the
-- read offset, that is at most the write offset before, is at most the write offset after.
pub decode-SameData :
    (h : Host) (b : Buffer)
    → b.read_offset ≤ b.write_offset
    → ((decode h b).1.bytes ≡ b.bytes)
      × ((decode h b).1.write_offset ≡ b.write_offset)
      × ((decode h b).1.read_offset ≤ (decode h b).1.write_offset)
decode-SameData h b within =
    let same = (decode-IsReader h).run b in (same.bytes, same.offset, same.within within)
