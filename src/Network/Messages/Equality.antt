-- ===== src/Network/Messages/Equality.antt =====
-- `operator==` of the messages, in network/messages/data_message.cpp and discovery_message.cpp.
use discnet.Common.{
  ◌≡◌, true, Bool, ◌&&◌, ◌==◌, refl, equal_list, equal_list-IsEquality, IsEquality, ==-IsEquality,
  both_true,
}
use discnet.Network.Messages.DataMessage.{DataMessage}
use discnet.Network.Messages.DiscoveryMessage.{Node, DiscoveryMessage}

unfoldable equal_data_message : DataMessage → DataMessage → Bool
equal_data_message lhs rhs =
    (lhs.identifier == rhs.identifier) && equal_list (◌==◌) lhs.buffer rhs.buffer

unfoldable equal_node : Node → Node → Bool
equal_node lhs rhs =
    ((lhs.identifier == rhs.identifier) && (lhs.address == rhs.address))
    && equal_list (◌==◌) lhs.jumps rhs.jumps

unfoldable equal_discovery_message : DiscoveryMessage → DiscoveryMessage → Bool
equal_discovery_message lhs rhs =
    (lhs.identifier == rhs.identifier) && equal_list equal_node lhs.nodes rhs.nodes

numbers : IsEquality (equal_list (◌==◌))
numbers = equal_list-IsEquality (◌==◌) ==-IsEquality

equal_data_message-IsEquality : IsEquality equal_data_message
unfolding equal_data_message
equal_data_message-IsEquality = record { reflexive = reflexive; sound = sound }
  where
    reflexive : (a : DataMessage) → equal_data_message a a ≡ true
    reflexive a = rw (==-IsEquality.reflexive a.identifier, numbers.reflexive a.buffer) refl

    sound : (a b : DataMessage) → equal_data_message a b ≡ true → a ≡ b
    sound a b h =
        let (identifier, buffer) = both_true (a.identifier == b.identifier) _ h in
        λ i. record {
          identifier = ==-IsEquality.sound _ _ identifier i;
          buffer = numbers.sound _ _ buffer i;
        }

equal_node-IsEquality : IsEquality equal_node
unfolding equal_node
equal_node-IsEquality = record { reflexive = reflexive; sound = sound }
  where
    reflexive : (a : Node) → equal_node a a ≡ true
    reflexive a =
        rw
          (
            ==-IsEquality.reflexive a.identifier,
            ==-IsEquality.reflexive a.address,
            numbers.reflexive a.jumps,
          )
          refl

    sound : (a b : Node) → equal_node a b ≡ true → a ≡ b
    sound a b h =
        let (same, jumps) = both_true _ (equal_list (◌==◌) a.jumps b.jumps) h in
        let (identifier, address) = both_true (a.identifier == b.identifier) _ same in
        λ i. record {
          identifier = ==-IsEquality.sound _ _ identifier i;
          address = ==-IsEquality.sound _ _ address i;
          jumps = numbers.sound _ _ jumps i;
        }

equal_discovery_message-IsEquality : IsEquality equal_discovery_message
unfolding equal_discovery_message
equal_discovery_message-IsEquality = record { reflexive = reflexive; sound = sound }
  where
    nodes : IsEquality (equal_list equal_node)
    nodes = equal_list-IsEquality equal_node equal_node-IsEquality

    reflexive : (a : DiscoveryMessage) → equal_discovery_message a a ≡ true
    reflexive a = rw (==-IsEquality.reflexive a.identifier, nodes.reflexive a.nodes) refl

    sound : (a b : DiscoveryMessage) → equal_discovery_message a b ≡ true → a ≡ b
    sound a b h =
        let (identifier, entries) = both_true (a.identifier == b.identifier) _ h in
        λ i. record {
          identifier = ==-IsEquality.sound _ _ identifier i;
          nodes = nodes.sound _ _ entries i;
        }
