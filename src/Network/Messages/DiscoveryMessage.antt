-- ===== src/Network/Messages/DiscoveryMessage.antt =====
-- network/messages/discovery_message.cpp: a node's announcement of itself and of the nodes that it
-- can reach, each with the jumps of its route.
pub mod Wire
use discnet.Common.{
  ℕ, ◌+◌, ◌*◌, ◌%◌, ◌^◌, ◌≤◌, ◌<◌, ◌≡◌, arith, List, [], ◌∷◌, ◌++◌, false, ltb, le→ltb, lt→ltb,
  if◌then◌else◌, length, length-append, All,
}
use discnet.Host.{Host, IsHost}
use discnet.Network.Buffer.{Buffer, remaining_bytes, bytes_left_to_read}
use discnet.Network.Buffer.Reading.{bytes_left-Holds}
use discnet.Network.Messages.Decoder.Readers.{
  IsReader, guard-IsReader, bind-IsReader, pure-IsReader, read_word-IsReader, repeat-IsReader,
}
use discnet.Network.Messages.Decoder.{
  short_discovery_message, M, pure, fail, ◌>>=◌, read_word, repeat, word, length-word, flat, Parses,
  Parses-word, Parses-repeat, Parses-bind, Parses-map,
}
use discnet.Network.Messages.Encoder.{
  W, ◌>>◌, return_true, each, append_word, Writes, Writes-word, Writes-each, Writes-seq,
  Writes-last,
}
use discnet.Network.Messages.Header.{discovery_message, s_header_size}
use discnet.Network.Messages.Header

pub record Node : Type 0 where
  pub identifier : ℕ
  pub address : ℕ
  pub jumps : List ℕ

pub record DiscoveryMessage : Type 0 where
  pub identifier : ℕ
  pub nodes : List Node

abbrev pub s_node_id_size : ℕ
s_node_id_size = 2

abbrev pub s_nodes_array_size : ℕ
s_nodes_array_size = 2

abbrev pub s_nodes_array_element_size : ℕ
s_nodes_array_element_size = 2 + 4 + 2

-- The loop over the nodes that adds up their jumps.
unfoldable pub dynamic_size : List Node → ℕ
dynamic_size [] = 0
dynamic_size (n ∷ ns) = length n.jumps * 2 + dynamic_size ns

unfoldable pub encoded_size : DiscoveryMessage → ℕ
unfolding dynamic_size
encoded_size m =
    s_header_size
    + (s_node_id_size + s_nodes_array_size + s_nodes_array_element_size * length m.nodes)
    + dynamic_size m.nodes

encode_node : Host → Node → W
encode_node h n = do
  append_word h 2 n.identifier
  append_word h 4 n.address
  append_word h 2 (length n.jumps % 2 ^ 16)
  each (append_word h 2) n.jumps

encode_fields : Host → DiscoveryMessage → W
unfolding encode_node
encode_fields h m = do
  Header.encode h (encoded_size m) discovery_message
  append_word h 2 m.identifier
  append_word h 2 (length m.nodes % 2 ^ 16)
  each (encode_node h) m.nodes
  return_true

pub encode : Host → DiscoveryMessage → W
unfolding encode_fields
encode h m b = if ltb (remaining_bytes b) (encoded_size m) then (false, b) else encode_fields h m b

decode_node : Host → M Node
decode_node h = do
  identifier ← read_word h 2
  address ← read_word h 4
  count ← read_word h 2
  jumps ← repeat count (read_word h 2)
  pure (record { identifier = identifier; address = address; jumps = jumps })

decode_fields : Host → M DiscoveryMessage
unfolding decode_node
decode_fields h = do
  identifier ← read_word h 2
  size ← read_word h 2
  nodes ← repeat size (decode_node h)
  pure (record { identifier = identifier; nodes = nodes })

pub decode : Host → M DiscoveryMessage
unfolding decode_fields
decode h b =
    if ltb (bytes_left_to_read b) (s_node_id_size + s_nodes_array_size)
    then (fail short_discovery_message) b
    else decode_fields h b
