-- ===== src/Transmission.antt =====
-- transmission_handler.cpp: when a node announces itself on its adapters, and what it announces.
pub mod Timing
pub mod Queue
mod Tests
use discnet.Common.{
  ℕ, ◌+◌, ◌-◌, ◌*◌, ◌%◌, ◌^◌, ◌==◌, ltb, leb, Bool, true, false, not, ◌&&◌, if◌then◌else◌, List, [],
  ◌∷◌, ◌++◌, Option, none, some, Text, map, length,
}
use discnet.Host.{Host}
use discnet.Network.Messages.DiscoveryMessage.{Node, DiscoveryMessage}
use discnet.Network.Messages.DataMessage.{DataMessage}
use discnet.Network.Messages.Packet.{Message, of_discovery, of_data}
use discnet.Network.NetworkHandler.{Client, NetworkHandler, transmit_multicast}
use discnet.Adapters.{Adapter, AdapterManager, find_adapter_id}
use discnet.Routes.{NodeIdentifier, Route}
use discnet.Routes.Manager.{RouteManager}
use discnet.Routes.Manager.Selection.{find_routes_for_adapter}

-- `recipient_status_t`.
pub record RecipientStatus : Type 0 where
  pub node : NodeIdentifier
  pub sent : Bool

-- `message_status_t`.
pub record MessageStatus : Type 0 where
  pub message : DataMessage
  pub recipients : List RecipientStatus

-- `transmission_handler`, with the node's number from the configuration.
pub record TransmissionHandler : Type 0 where
  pub node_id : ℕ
  pub last_discovery : ℕ
  pub interval : ℕ
  pub queue : List MessageStatus

-- The constructor; `min()` is 0.
unfoldable pub new_transmission : ℕ → ℕ → TransmissionHandler
new_transmission second node_id = record {
  node_id = node_id;
  last_discovery = 0;
  interval = 20 * second;
  queue = [];
}

-- The node of a route in a discovery message.
unfoldable pub indirect_node : Route → Node
indirect_node route = record {
  identifier = route.identifier.node.id;
  address = route.identifier.node.address;
  jumps = route.status.jumps;
}

unfoldable pub discovery_of : ℕ → List Route → DiscoveryMessage
discovery_of node_id routes = record { identifier = node_id; nodes = map indirect_node routes }

unfoldable pub transmit_on :
    Host → Option Adapter → ℕ → RouteManager → NetworkHandler → NetworkHandler
transmit_on h none node_id routes network = network
transmit_on h (some adapter) node_id routes network =
    transmit_multicast h adapter
      (of_discovery (discovery_of node_id (find_routes_for_adapter adapter.guid routes)) ∷ [])
      network

-- The loop over a copy of the clients.
unfoldable pub transmit_clients :
    Host → List Client → ℕ → AdapterManager → RouteManager → NetworkHandler → NetworkHandler
transmit_clients h [] node_id adapters routes network = network
transmit_clients h (c ∷ cs) node_id adapters routes network =
    transmit_clients h cs node_id adapters routes
      (transmit_on h (find_adapter_id c.adapter_identifier adapters) node_id routes network)

unfoldable pub transmit_discovery_message :
    Host → ℕ → AdapterManager → RouteManager → NetworkHandler → NetworkHandler
transmit_discovery_message h node_id adapters routes network =
    transmit_clients h network.clients node_id adapters routes network

-- Whether `update` transmits: the two tests. `diff_forward` is a signed duration, that is not
-- greater than the interval where the clock went back.
unfoldable pub is_due : TransmissionHandler → ℕ → Bool
is_due t current_time =
    if ltb (t.last_discovery + t.interval) current_time
    then true
    else if ltb t.interval (current_time - t.last_discovery)
    then true
    else false

unfoldable pub update :
    Host
    → AdapterManager
    → RouteManager
    → ℕ
    → TransmissionHandler × NetworkHandler
    → TransmissionHandler × NetworkHandler
update h adapters routes current_time (t, network) =
    if is_due t current_time
    then (
      record t { last_discovery = current_time },
      transmit_discovery_message h t.node_id adapters routes network,
    )
    else (t, network)

-- Whether a recipient gets a copy now.
unfoldable pub is_unsent : RecipientStatus → Bool
is_unsent r = not r.sent && not (r.node.id == 0)

-- `remaining_packet_size -= message_size` in `size_t`.
unfoldable pub subtract : ℕ → ℕ → ℕ
subtract remaining size = (remaining + 2 ^ 64 - size) % 2 ^ 64

-- The loop over the recipients of one message: the recipients, the copies, the size that remains.
unfoldable pub send_copies :
    DataMessage → List RecipientStatus → ℕ → List RecipientStatus × List Message × ℕ
send_copies m [] remaining = ([], [], remaining)
send_copies m (r ∷ rs) remaining =
    let left = if is_unsent r then subtract remaining (length m.buffer) else remaining in
    let rest = send_copies m rs left in
    if is_unsent r
    then (record r { sent = true } ∷ rest.0, of_data m ∷ rest.1, rest.2)
    else (r ∷ rest.0, rest.1, rest.2)

unfoldable pub send_message : MessageStatus → ℕ → List RecipientStatus × List Message × ℕ
send_message status remaining =
    if leb (length status.message.buffer) remaining
    then send_copies status.message status.recipients remaining
    else (status.recipients, [], remaining)

-- The loop over the queue, that stops where nothing remains.
unfoldable pub send_queue : List MessageStatus → ℕ → List MessageStatus × List Message
send_queue [] remaining = ([], [])
send_queue (status ∷ queue) remaining =
    let step = send_message status remaining in
    let status' : MessageStatus = record status { recipients = step.0 } in
    let rest = send_queue queue step.2 in
    if step.2 == 0 then (status' ∷ queue, step.1) else (status' ∷ rest.0, step.1 ++ rest.1)

unfoldable pub get_messages_for_adapter : TransmissionHandler → TransmissionHandler × List Message
get_messages_for_adapter t = let r = send_queue t.queue 1024 in (record t { queue = r.0 }, r.1)
