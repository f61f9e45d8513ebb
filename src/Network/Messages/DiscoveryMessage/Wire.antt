-- ===== src/Network/Messages/DiscoveryMessage/Wire.antt =====
-- The bytes of network/messages/discovery_message.cpp: what encode appends and decode takes.
use discnet.Common.{
  ℕ, ◌+◌, ◌*◌, ◌%◌, ◌^◌, ◌≤◌, ◌<◌, ◌≡◌, arith, List, [], ◌∷◌, ◌++◌, false, le→ltb, lt→ltb, length,
  length-append, All,
}
use discnet.Host.{Host, IsHost}
use discnet.Network.Buffer.{Buffer, remaining_bytes, bytes_left_to_read}
use discnet.Network.Buffer.Reading.{bytes_left-Holds}
use discnet.Network.Messages.Decoder.Readers.{
  IsReader, guard-IsReader, bind-IsReader, pure-IsReader, read_word-IsReader, repeat-IsReader,
}
use discnet.Network.Messages.Decoder.{
  read_word, word, length-word, flat, Parses, Parses-word, Parses-repeat, Parses-bind, Parses-map,
}
use discnet.Network.Messages.Encoder.{
  append_word, Writes, Writes-word, Writes-each, Writes-seq, Writes-last,
}
use discnet.Network.Messages.Header.{discovery_message, s_header_size}
use discnet.Network.Messages.Header
use discnet.Network.Messages.DiscoveryMessage.{
  Node, DiscoveryMessage, dynamic_size, encoded_size, encode_node, encode_fields, encode,
  decode_node, decode_fields, decode,
}

-- The ranges of the fields, and counts that the 16-bit fields can hold.
pub record IsNode (n : Node) : Type 0 where
  pub identifier-lt : n.identifier < 2 ^ 16
  pub address-lt : n.address < 2 ^ 32
  pub length-lt : length n.jumps < 2 ^ 16
  pub jumps-lt : All (λ j. j < 2 ^ 16) n.jumps

pub record IsDiscoveryMessage (m : DiscoveryMessage) : Type 0 where
  pub identifier-lt : m.identifier < 2 ^ 16
  pub length-lt : length m.nodes < 2 ^ 16
  pub nodes-IsNode : All IsNode m.nodes

unfoldable pub node_wire : Host → Node → List ℕ
node_wire h n =
    word h 2 n.identifier
    ++ (word h 4 n.address ++ (word h 2 (length n.jumps % 2 ^ 16) ++ flat (word h 2) n.jumps))

-- The bytes behind the header, and all bytes.
unfoldable pub body : Host → DiscoveryMessage → List ℕ
unfolding node_wire
body h m =
    word h 2 m.identifier ++ (word h 2 (length m.nodes % 2 ^ 16) ++ flat (node_wire h) m.nodes)

unfoldable pub wire : Host → DiscoveryMessage → List ℕ
wire h m = Header.Wire.wire h (encoded_size m) discovery_message ++ body h m

length-jumps : (h : Host) (js : List ℕ) → length (flat (word h 2) js) ≡ length js * 2
length-jumps h [] = omega arith
length-jumps h (j ∷ js) =
    omega
      (arith, length-append (word h 2 j) (flat (word h 2) js), length-word h 2 j, length-jumps h js)

length-node_wire : (h : Host) (n : Node) → length (node_wire h n) ≡ 8 + length n.jumps * 2
unfolding node_wire
length-node_wire h n = omega (
  arith,
  length-append (word h 2 n.identifier)
      (word h 4 n.address ++ (word h 2 (length n.jumps % 2 ^ 16) ++ flat (word h 2) n.jumps)),
  length-append (word h 4 n.address)
      (word h 2 (length n.jumps % 2 ^ 16) ++ flat (word h 2) n.jumps),
  length-append (word h 2 (length n.jumps % 2 ^ 16)) (flat (word h 2) n.jumps),
  length-word h 2 n.identifier,
  length-word h 4 n.address,
  length-word h 2 (length n.jumps % 2 ^ 16),
  length-jumps h n.jumps,
)

length-nodes :
    (h : Host) (ns : List Node) → length (flat (node_wire h) ns) ≡ 8 * length ns + dynamic_size ns
unfolding dynamic_size
length-nodes h [] = omega arith
length-nodes h (n ∷ ns) = omega (
  arith,
  length-append (node_wire h n) (flat (node_wire h) ns),
  length-node_wire h n,
  length-nodes h ns,
)

length-body :
    (h : Host) (m : DiscoveryMessage)
    → length (body h m) ≡ 4 + 8 * length m.nodes + dynamic_size m.nodes
unfolding body
length-body h m = omega (
  arith,
  length-append (word h 2 m.identifier)
      (word h 2 (length m.nodes % 2 ^ 16) ++ flat (node_wire h) m.nodes),
  length-append (word h 2 (length m.nodes % 2 ^ 16)) (flat (node_wire h) m.nodes),
  length-word h 2 m.identifier,
  length-word h 2 (length m.nodes % 2 ^ 16),
  length-nodes h m.nodes,
)

pub length-wire : (h : Host) (m : DiscoveryMessage) → length (wire h m) ≡ encoded_size m
unfolding wire encoded_size
length-wire h m = omega (
  arith,
  length-append (Header.Wire.wire h (encoded_size m) discovery_message) (body h m),
  Header.Wire.length-wire h (encoded_size m) discovery_message,
  length-body h m,
)

encode_node-Writes : (h : Host) (n : Node) → Writes (encode_node h n) (node_wire h n)
unfolding encode_node node_wire
encode_node-Writes h n = Writes-seq _ _ _ _ (Writes-word h 2 n.identifier) (
    Writes-seq _ _ _ _ (Writes-word h 4 n.address) (
      Writes-seq _ _ _ _ (Writes-word h 2 (length n.jumps % 2 ^ 16))
        (Writes-each (append_word h 2) (word h 2) n.jumps (Writes-word h 2))))

encode_fields-Writes : (h : Host) (m : DiscoveryMessage) → Writes (encode_fields h m) (wire h m)
unfolding encode_fields wire body
encode_fields-Writes h m =
    Writes-seq _ _ _ _ (Header.Wire.encode-Writes h (encoded_size m) discovery_message) (
      Writes-seq _ _ _ _ (Writes-word h 2 m.identifier) (
        Writes-seq _ _ _ _ (Writes-word h 2 (length m.nodes % 2 ^ 16)) (
          Writes-last _ _
            (Writes-each (encode_node h) (node_wire h) m.nodes (encode_node-Writes h)))))

pub encode-Writes : (h : Host) (m : DiscoveryMessage) → Writes (encode h m) (wire h m)
unfolding encode
encode-Writes h m b valid fits =
    rw (le→ltb (remaining_bytes b) (encoded_size m) (omega (arith, length-wire h m)))
      (encode_fields-Writes h m b valid fits)

pub encode_refused :
    (h : Host) (m : DiscoveryMessage) (b : Buffer)
    → remaining_bytes b < encoded_size m
    → encode h m b ≡ (false, b)
unfolding encode
encode_refused h m b short = rw (lt→ltb _ _ short)

decode_node-Parses :
    (h : Host) (k : ℕ)
    → IsHost h
    → (n : Node) → IsNode n
    → Parses k (decode_node h) (node_wire h n) n
unfolding decode_node node_wire
decode_node-Parses h k laws n ok =
    let e : length n.jumps % 2 ^ 16 ≡ length n.jumps = omega (arith, ok.length-lt) in
    rw e (
      Parses-bind k _ _ (word h 2 n.identifier) _ n.identifier n
        (Parses-word h k 2 n.identifier laws (omega arith) ok.identifier-lt)
        (Parses-bind k _ _ (word h 4 n.address) _ n.address n
          (Parses-word h k 4 n.address laws (omega arith) ok.address-lt)
          (Parses-bind k _ _ (word h 2 (length n.jumps)) _ (length n.jumps) n
            (Parses-word h k 2 (length n.jumps) laws (omega arith) ok.length-lt)
            (Parses-map k _ _ (flat (word h 2) n.jumps) n.jumps (
              Parses-repeat k (read_word h 2) (word h 2) (λ j. j < 2 ^ 16) n.jumps
                (λ j hj. Parses-word h k 2 j laws (omega arith) hj) ok.jumps-lt)))))

decode_fields-Parses :
    (h : Host) (n : ℕ) (m : DiscoveryMessage)
    → IsHost h
    → IsDiscoveryMessage m
    → Parses n (decode_fields h) (body h m) m
unfolding decode_fields body
decode_fields-Parses h n m laws ok =
    let e : length m.nodes % 2 ^ 16 ≡ length m.nodes = omega (arith, ok.length-lt) in
    rw e (
      Parses-bind n _ _ (word h 2 m.identifier) _ m.identifier m
        (Parses-word h n 2 m.identifier laws (omega arith) ok.identifier-lt)
        (Parses-bind n _ _ (word h 2 (length m.nodes)) _ (length m.nodes) m
          (Parses-word h n 2 (length m.nodes) laws (omega arith) ok.length-lt)
          (Parses-map n _ _ (flat (node_wire h) m.nodes) m.nodes (
            Parses-repeat n (decode_node h) (node_wire h) IsNode m.nodes
              (decode_node-Parses h n laws) ok.nodes-IsNode))))

pub decode-Parses :
    (h : Host) (n : ℕ) (m : DiscoveryMessage)
    → IsHost h
    → IsDiscoveryMessage m
    → Parses n (decode h) (body h m) m
unfolding decode
decode-Parses h n m laws ok b rest more held =
    rw (le→ltb (bytes_left_to_read b) 4 enough)
      (decode_fields-Parses h n m laws ok b rest more held)
  where
    enough : 4 ≤ bytes_left_to_read b
    enough =
        omega (arith, bytes_left-Holds b _ held, length-append (body h m) rest, length-body h m)

decode_node-IsReader : (h : Host) → IsReader (decode_node h)
unfolding decode_node
decode_node-IsReader h = bind-IsReader _ _ (read_word-IsReader h 2) (λ id.
    bind-IsReader _ _ (read_word-IsReader h 4) (λ address.
      bind-IsReader _ _ (read_word-IsReader h 2) (λ n.
        bind-IsReader _ _ (repeat-IsReader n _ (read_word-IsReader h 2)) (λ js. pure-IsReader _))))

decode_fields-IsReader : (h : Host) → IsReader (decode_fields h)
unfolding decode_fields
decode_fields-IsReader h = bind-IsReader _ _ (read_word-IsReader h 2) (λ id.
    bind-IsReader _ _ (read_word-IsReader h 2) (λ n.
      bind-IsReader _ _ (repeat-IsReader n _ (decode_node-IsReader h)) (λ ns. pure-IsReader _)))

pub decode-IsReader : (h : Host) → IsReader (decode h)
unfolding decode
decode-IsReader h = record { run = λ b. guard-IsReader _ _ b _ (decode_fields-IsReader h) }
