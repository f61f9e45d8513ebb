-- ===== src/Network/Messages/Header/Wire.antt =====
-- The bytes of network/messages/header.cpp: what encode appends and decode takes.
use discnet.Common.{ℕ, ◌%◌, ◌^◌, ◌≤◌, ◌<◌, ◌≡◌, arith, List, ◌++◌, length, length-append, le→ltb}
use discnet.Host.{Host, IsHost}
use discnet.Network.Buffer.{remaining_bytes, bytes_left_to_read}
use discnet.Network.Buffer.Reading.{bytes_left-Holds}
use discnet.Network.Messages.Decoder.Readers.{
  IsReader, guard-IsReader, bind-IsReader, pure-IsReader, read_word-IsReader,
}
use discnet.Network.Messages.Decoder.{
  read_word, word, length-word, Parses, Parses-word, Parses-bind, Parses-map,
}
use discnet.Network.Messages.Encoder.{Writes, Writes-word, Writes-seq, Writes-last}
use discnet.Network.Messages.Header.{
  MessageType, of_uint16, to_uint16, encode, decode_fields, decode,
}

-- The six bytes of a header.
unfoldable pub wire : Host → ℕ → MessageType → List ℕ
wire h size type = word h 4 (size % 2 ^ 32) ++ word h 2 (to_uint16 type)

pub length-wire : (h : Host) (size : ℕ) (type : MessageType) → length (wire h size type) ≡ 6
unfolding wire
length-wire h size type = omega (
  arith,
  length-append (word h 4 (size % 2 ^ 32)) (word h 2 (to_uint16 type)),
  length-word h 4 (size % 2 ^ 32),
  length-word h 2 (to_uint16 type),
)

pub encode-Writes :
    (h : Host) (size : ℕ) (type : MessageType) → Writes (encode h size type) (wire h size type)
unfolding encode wire
encode-Writes h size type b valid fits = rw (le→ltb _ _ room) (
    Writes-seq _ _ _ _ (Writes-word h 4 (size % 2 ^ 32))
      (Writes-last _ _ (Writes-word h 2 (to_uint16 type))) b valid fits)
  where
    room : 6 ≤ remaining_bytes b
    room = omega (arith, length-wire h size type)

pub decode-Parses :
    (h : Host) (n size v : ℕ)
    → IsHost h
    → size < 2 ^ 32
    → v < 2 ^ 16
    → Parses n (decode h) (word h 4 size ++ word h 2 v) (record { size = size; type = of_uint16 v })
unfolding decode
decode-Parses h n size v laws hs hv b rest more held = rw (le→ltb _ _ enough) (
    Parses-bind n (read_word h 4) _ (word h 4 size) (word h 2 v) size _
      (Parses-word h n 4 size laws (omega arith) hs)
      (Parses-map n (read_word h 2) _ (word h 2 v) v (Parses-word h n 2 v laws (omega arith) hv)) b
      rest more held)
  where
    enough : 6 ≤ bytes_left_to_read b
    enough = omega (
      arith,
      bytes_left-Holds b _ held,
      length-append (word h 4 size ++ word h 2 v) rest,
      length-append (word h 4 size) (word h 2 v),
      length-word h 4 size,
      length-word h 2 v,
    )

decode_fields-IsReader : (h : Host) → IsReader (decode_fields h)
unfolding decode_fields
decode_fields-IsReader h =
    bind-IsReader _ _ (read_word-IsReader h 4)
      (λ size. bind-IsReader _ _ (read_word-IsReader h 2) (λ type. pure-IsReader _))

pub decode-IsReader : (h : Host) → IsReader (decode h)
unfolding decode
decode-IsReader h = record { run = λ b. guard-IsReader _ _ b _ (decode_fields-IsReader h) }
