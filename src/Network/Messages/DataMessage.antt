-- ===== src/Network/Messages/DataMessage.antt =====
-- network/messages/data_message.cpp: a message that carries bytes.
pub mod Wire
use discnet.Common.{
  ℕ, ◌+◌, ◌%◌, ◌^◌, ◌≤◌, ◌<◌, ◌≡◌, arith, List, ◌++◌, false, ltb, le→ltb, lt→ltb, if◌then◌else◌,
  length, length-append,
}
use discnet.Host.{Host, IsHost}
use discnet.Network.Buffer.{Buffer, remaining_bytes, bytes_left_to_read, append_span}
use discnet.Network.Buffer.Reading.{bytes_left-Holds}
use discnet.Network.Messages.Decoder.Readers.{
  IsReader, guard-IsReader, bind-IsReader, pure-IsReader, read_word-IsReader, read_bytes-IsReader,
}
use discnet.Network.Messages.Decoder.{
  short_data_message, M, pure, fail, ◌>>=◌, read_word, read_bytes, word, length-word, Parses,
  Parses-word, Parses-bytes, Parses-bind, Parses-map,
}
use discnet.Network.Messages.Encoder.{
  W, ◌>>◌, return_true, append_word, Writes, Writes-word, Writes-span, Writes-seq, Writes-last,
}
use discnet.Network.Messages.Header.{data_message, s_header_size}
use discnet.Network.Messages.Header

pub record DataMessage : Type 0 where
  pub identifier : ℕ
  pub buffer : List ℕ

abbrev pub s_data_message_header_size : ℕ
s_data_message_header_size = 4

unfoldable pub encoded_size : DataMessage → ℕ
encoded_size m = s_header_size + (s_data_message_header_size + length m.buffer)

encode_fields : Host → DataMessage → W
encode_fields h m = do
  Header.encode h (encoded_size m) data_message
  append_word h 2 m.identifier
  append_word h 2 (length m.buffer % 2 ^ 16)
  append_span m.buffer
  return_true

pub encode : Host → DataMessage → W
unfolding encode_fields
encode h m b = if ltb (remaining_bytes b) (encoded_size m) then (false, b) else encode_fields h m b

decode_fields : Host → M DataMessage
decode_fields h = do
  identifier ← read_word h 2
  size ← read_word h 2
  span ← read_bytes size
  pure (record { identifier = identifier; buffer = span })

pub decode : Host → M DataMessage
unfolding decode_fields
decode h b =
    if ltb (bytes_left_to_read b) s_data_message_header_size
    then (fail short_data_message) b
    else decode_fields h b
