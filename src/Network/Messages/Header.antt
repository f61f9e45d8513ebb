-- ===== src/Network/Messages/Header.antt =====
-- network/messages/header.cpp: the size and the type in front of each message.
pub mod Wire
use discnet.Common.{
  ℕ, ◌%◌, ◌^◌, ◌≤◌, ◌<◌, ◌≡◌, arith, List, ◌++◌, false, ltb, ◌==◌, if◌then◌else◌, length,
  length-append, le→ltb,
}
use discnet.Host.{Host, IsHost}
use discnet.Network.Buffer.{remaining_bytes, bytes_left_to_read}
use discnet.Network.Buffer.Reading.{bytes_left-Holds}
use discnet.Network.Messages.Decoder.Readers.{
  IsReader, guard-IsReader, bind-IsReader, pure-IsReader, read_word-IsReader,
}
use discnet.Network.Messages.Decoder.{
  short_header, M, pure, fail, ◌>>=◌, read_word, word, length-word, Parses, Parses-word,
  Parses-bind, Parses-map,
}
use discnet.Network.Messages.Encoder.{
  W, ◌>>◌, return_true, append_word, Writes, Writes-word, Writes-seq, Writes-last,
}

-- The enumeration has a fixed underlying type, so a cast may give a value without a name.
pub data MessageType : Type 0 where
  discovery_message data_message command_message : MessageType
  unnamed : ℕ → MessageType

-- `(uint16_t)message_type`.
unfoldable pub to_uint16 : MessageType → ℕ
to_uint16 discovery_message = 1
to_uint16 data_message = 2
to_uint16 command_message = 3
to_uint16 (unnamed v) = v

-- `(message_type_e)value`.
unfoldable pub of_uint16 : ℕ → MessageType
of_uint16 v =
    if v == 1
    then discovery_message
    else if v == 2
    then data_message
    else if v == 3
    then command_message
    else unnamed v

pub record Header : Type 0 where
  pub size : ℕ
  pub type : MessageType

abbrev pub s_header_size : ℕ
s_header_size = 6

unfoldable pub encode : Host → ℕ → MessageType → W
encode h size type b =
    if ltb (remaining_bytes b) s_header_size
    then (false, b)
    else (do append_word h 4 (size % 2 ^ 32); append_word h 2 (to_uint16 type); return_true) b

decode_fields : Host → M Header
decode_fields h = do
  size ← read_word h 4
  type ← read_word h 2
  pure (record { size = size; type = of_uint16 type })

unfoldable pub decode : Host → M Header
unfolding decode_fields
decode h b =
    if ltb (bytes_left_to_read b) s_header_size then (fail short_header) b else decode_fields h b
