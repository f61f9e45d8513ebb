-- ===== src/Network/Messages/DataMessage/Wire.antt =====
-- The bytes of network/messages/data_message.cpp: what encode appends and decode takes.
use discnet.Common.{
  ℕ, ◌%◌, ◌^◌, ◌≤◌, ◌<◌, ◌≡◌, arith, List, ◌++◌, false, le→ltb, lt→ltb, length, length-append,
}
use discnet.Host.{Host, IsHost}
use discnet.Network.Buffer.{Buffer, remaining_bytes, bytes_left_to_read}
use discnet.Network.Buffer.Reading.{bytes_left-Holds}
use discnet.Network.Messages.Decoder.Readers.{
  IsReader, guard-IsReader, bind-IsReader, pure-IsReader, read_word-IsReader, read_bytes-IsReader,
}
use discnet.Network.Messages.Decoder.{
  word, length-word, Parses, Parses-word, Parses-bytes, Parses-bind, Parses-map,
}
use discnet.Network.Messages.Encoder.{Writes, Writes-word, Writes-span, Writes-seq, Writes-last}
use discnet.Network.Messages.Header.{data_message, s_header_size}
use discnet.Network.Messages.Header
use discnet.Network.Messages.DataMessage.{
  DataMessage, encoded_size, encode_fields, encode, decode_fields, decode,
}

-- The ranges of the fields, and a payload whose size the 16-bit field can hold.
pub record IsDataMessage (m : DataMessage) : Type 0 where
  pub identifier-lt : m.identifier < 2 ^ 16
  pub length-lt : length m.buffer < 2 ^ 16

-- The bytes behind the header, and all bytes.
unfoldable pub body : Host → DataMessage → List ℕ
body h m = word h 2 m.identifier ++ (word h 2 (length m.buffer % 2 ^ 16) ++ m.buffer)

unfoldable pub wire : Host → DataMessage → List ℕ
wire h m = Header.Wire.wire h (encoded_size m) data_message ++ body h m

pub length-wire : (h : Host) (m : DataMessage) → length (wire h m) ≡ encoded_size m
unfolding wire body encoded_size
length-wire h m = omega (
  arith,
  length-append (Header.Wire.wire h (encoded_size m) data_message) (body h m),
  length-append (word h 2 m.identifier) (word h 2 (length m.buffer % 2 ^ 16) ++ m.buffer),
  length-append (word h 2 (length m.buffer % 2 ^ 16)) m.buffer,
  Header.Wire.length-wire h (encoded_size m) data_message,
  length-word h 2 m.identifier,
  length-word h 2 (length m.buffer % 2 ^ 16),
)

encode_fields-Writes : (h : Host) (m : DataMessage) → Writes (encode_fields h m) (wire h m)
unfolding encode_fields wire body
encode_fields-Writes h m =
    Writes-seq _ _ _ _ (Header.Wire.encode-Writes h (encoded_size m) data_message) (
      Writes-seq _ _ _ _ (Writes-word h 2 m.identifier) (
        Writes-seq _ _ _ _ (Writes-word h 2 (length m.buffer % 2 ^ 16))
          (Writes-last _ _ (Writes-span m.buffer))))

pub encode-Writes : (h : Host) (m : DataMessage) → Writes (encode h m) (wire h m)
unfolding encode
encode-Writes h m b valid fits =
    rw (le→ltb (remaining_bytes b) (encoded_size m) (omega (arith, length-wire h m)))
      (encode_fields-Writes h m b valid fits)

pub encode_refused :
    (h : Host) (m : DataMessage) (b : Buffer)
    → remaining_bytes b < encoded_size m
    → encode h m b ≡ (false, b)
unfolding encode
encode_refused h m b short = rw (lt→ltb _ _ short)

decode_fields-Parses :
    (h : Host) (n : ℕ) (m : DataMessage)
    → IsHost h
    → 0 < n
    → IsDataMessage m
    → Parses n (decode_fields h) (body h m) m
unfolding decode_fields body
decode_fields-Parses h n m laws pos ok =
    let e : length m.buffer % 2 ^ 16 ≡ length m.buffer = omega (arith, ok.length-lt) in
    rw e (
      Parses-bind n _ _ (word h 2 m.identifier) _ m.identifier m
        (Parses-word h n 2 m.identifier laws (omega arith) ok.identifier-lt)
        (Parses-bind n _ _ (word h 2 (length m.buffer)) m.buffer (length m.buffer) m
          (Parses-word h n 2 (length m.buffer) laws (omega arith) ok.length-lt)
          (Parses-map n _ _ m.buffer m.buffer (Parses-bytes n m.buffer pos))))

-- Behind a header and with a byte to follow, a payload is read back whole.
pub decode-Parses :
    (h : Host) (n : ℕ) (m : DataMessage)
    → IsHost h
    → 0 < n
    → IsDataMessage m
    → Parses n (decode h) (body h m) m
unfolding decode
decode-Parses h n m laws pos ok b rest more held =
    rw (le→ltb (bytes_left_to_read b) 4 enough)
      (decode_fields-Parses h n m laws pos ok b rest more held)
  where
    enough : 4 ≤ bytes_left_to_read b
    enough =
        unfold body in
        omega (
          arith,
          bytes_left-Holds b _ held,
          length-append (body h m) rest,
          length-append (word h 2 m.identifier) (word h 2 (length m.buffer % 2 ^ 16) ++ m.buffer),
          length-append (word h 2 (length m.buffer % 2 ^ 16)) m.buffer,
          length-word h 2 m.identifier,
          length-word h 2 (length m.buffer % 2 ^ 16),
        )

decode_fields-IsReader : (h : Host) → IsReader (decode_fields h)
unfolding decode_fields
decode_fields-IsReader h = bind-IsReader _ _ (read_word-IsReader h 2) (λ id.
    bind-IsReader _ _ (read_word-IsReader h 2)
      (λ size. bind-IsReader _ _ (read_bytes-IsReader size) (λ span. pure-IsReader _)))

pub decode-IsReader : (h : Host) → IsReader (decode h)
unfolding decode
decode-IsReader h = record { run = λ b. guard-IsReader _ _ b _ (decode_fields-IsReader h) }
