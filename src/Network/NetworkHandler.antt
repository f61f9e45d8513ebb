-- ===== src/Network/NetworkHandler.antt =====
-- network/network_handler.cpp: the clients of the adapters, the messages they transmit and those
-- that come in. Starting a client is a future of the standard library, whose end is an event.
pub mod Delivery
pub mod Clients
pub mod Starting
pub mod Listener
mod StartingTests
mod Tests
use discnet.Common.{
  ℕ, ◌==◌, Bool, true, false, not, if◌then◌else◌, List, [], ◌∷◌, ◌++◌, Option, none, some, Text,
}
use mathlib.Core.Option
use discnet.Host.{Host}
use discnet.Network.Buffer.{Buffer, new, const_buffer}
use discnet.Network.Messages.DiscoveryMessage.{DiscoveryMessage}
use discnet.Network.Messages.DataMessage.{DataMessage}
use discnet.Network.Messages.Packet.{Message, of_discovery, of_data, Packet, encode}
use discnet.Network.DataHandler.{DataHandler, StreamPackets, new_handler, process_all}
use discnet.Adapters.{Adapter, equal_text, equal_address_list}
use discnet.Routes.Manager.{NetworkInfo}

pub record UdpInfo : Type 0 where
  pub adapter : ℕ
  pub multicast : ℕ
  pub port : ℕ

-- `network_client_t`: the `udp_client` of this info, and the handler of what it receives.
pub record Client : Type 0 where
  pub adapter_identifier : Text
  pub info : UdpInfo
  pub handler : DataHandler

-- A future of `m_adapter_init_list`: it runs, it has a result (`none` is the error), or the result
-- was taken.
pub data Pending : Type 0 where
  running : Client → Pending
  ready : Option Client → Pending
  taken : Pending

-- What the handler does outside: the datagrams, `close` of a client, and the two signals.
pub data Effect : Type 0 where
  multicast : UdpInfo → List ℕ → Effect
  unicast : UdpInfo → ℕ → List ℕ → Effect
  closed : UdpInfo → Effect
  discovery_message_received : DiscoveryMessage → NetworkInfo → Effect
  data_message_received : DataMessage → NetworkInfo → Effect

-- `network_handler`, with the two options of the configuration that it reads.
pub record NetworkHandler : Type 0 where
  pub multicast_address : ℕ
  pub multicast_port : ℕ
  pub clients : List Client
  pub adapter_init_list : List Pending
  pub effects : List Effect

unfoldable pub emit : Effect → NetworkHandler → NetworkHandler
emit e s = record s { effects = s.effects ++ (e ∷ []) }

-- `std::find_if` by the MAC address of the adapter.
unfoldable pub find_client : Text → List Client → Option Client
find_client id [] = none
find_client id (c ∷ cs) =
    let rest = find_client id cs in if equal_text c.adapter_identifier id then some c else rest

-- The buffer is written even where the messages do not fit it, and is empty then.
unfoldable pub packet_bytes : Host → List Message → List ℕ
packet_bytes h messages = const_buffer (encode h messages (new 4096)).1

unfoldable pub multicast_on : Option Client → List ℕ → NetworkHandler → NetworkHandler
multicast_on none bytes s = s
multicast_on (some c) bytes s =
    if not (c.info.multicast == 0) then emit (multicast c.info bytes) s else s

unfoldable pub transmit_multicast : Host → Adapter → List Message → NetworkHandler → NetworkHandler
transmit_multicast h adapter messages s =
    multicast_on (find_client adapter.mac_address s.clients) (packet_bytes h messages) s

unfoldable pub unicast_on : Option Client → ℕ → List ℕ → NetworkHandler → NetworkHandler
unicast_on none recipient bytes s = s
unicast_on (some c) recipient bytes s = emit (unicast c.info recipient bytes) s

unfoldable pub transmit_unicast :
    Host → Adapter → ℕ → List Message → NetworkHandler → NetworkHandler
transmit_unicast h adapter recipient messages s =
    unicast_on (find_client adapter.mac_address s.clients) recipient (packet_bytes h messages) s

-- The results that are ready become clients, in order, and are taken.
unfoldable pub new_clients : List Pending → List Client
new_clients [] = []
new_clients (ready (some c) ∷ ps) = c ∷ new_clients ps
new_clients (ready none ∷ ps) = new_clients ps
new_clients (running c ∷ ps) = new_clients ps
new_clients (taken ∷ ps) = new_clients ps

unfoldable pub take_results : List Pending → List Pending
take_results [] = []
take_results (ready r ∷ ps) = taken ∷ take_results ps
take_results (running c ∷ ps) = running c ∷ take_results ps
take_results (taken ∷ ps) = taken ∷ take_results ps

unfoldable pub message_effect : NetworkInfo → Message → Effect
message_effect info (of_discovery m) = discovery_message_received m info
message_effect info (of_data m) = data_message_received m info

unfoldable pub message_effects : NetworkInfo → List Message → List Effect
message_effects info [] = []
message_effects info (m ∷ ms) = message_effect info m ∷ message_effects info ms

unfoldable pub packet_effects : NetworkInfo → List Packet → List Effect
packet_effects info [] = []
packet_effects info (p ∷ ps) = message_effects info p.messages ++ packet_effects info ps

-- The loop over the streams of a client.
unfoldable pub stream_effects : ℕ → ℕ → List StreamPackets → List Effect
stream_effects adapter current [] = []
stream_effects adapter current (s ∷ ss) =
    let info : NetworkInfo = record {
      adapter = adapter;
      sender = s.identifier.sender_ip;
      receiver = s.identifier.recipient_ip;
      reception_time = current;
    } in
    packet_effects info s.packets ++ stream_effects adapter current ss

unfoldable pub add_client_result :
    ℕ
    → Client
    → Option (DataHandler × List StreamPackets)
    → Option (List Client × List Effect)
    → Option (List Client × List Effect)
add_client_result current c (some (d, streams)) (some (cs, es)) =
    some (record c { handler = d } ∷ cs, stream_effects c.info.adapter current streams ++ es)
add_client_result current c (some r) none = none
add_client_result current c none rest = none

-- The loop over the clients; `none` when a stream ran out of fuel.
unfoldable pub update_clients : Host → ℕ → List Client → Option (List Client × List Effect)
update_clients h current [] = some ([], [])
update_clients h current (c ∷ cs) =
    add_client_result current c (process_all h c.handler) (update_clients h current cs)

unfoldable pub update : Host → ℕ → NetworkHandler → Option NetworkHandler
update h current s =
    Option.map
      (λ r. record s {
        clients = r.0;
        adapter_init_list = take_results s.adapter_init_list;
        effects = s.effects ++ r.1;
      })
      (update_clients h current (s.clients ++ new_clients s.adapter_init_list))

unfoldable pub erase_client : Text → List Client → List Client
erase_client id [] = []
erase_client id (c ∷ cs) =
    let rest = erase_client id cs in if equal_text c.adapter_identifier id then cs else c ∷ rest

unfoldable pub remove_found : Option Client → Text → NetworkHandler → NetworkHandler
remove_found none id s = s
remove_found (some c) id s = record (emit (closed c.info) s) { clients = erase_client id s.clients }

unfoldable pub remove_client : Adapter → NetworkHandler → NetworkHandler
remove_client adapter s =
    remove_found (find_client adapter.mac_address s.clients) adapter.mac_address s

-- The client of an adapter whose first address is `address`.
unfoldable pub client_of : Adapter → ℕ → NetworkHandler → Client
client_of adapter address s = record {
  adapter_identifier = adapter.mac_address;
  info = record { adapter = address; multicast = s.multicast_address; port = s.multicast_port };
  handler = new_handler 4095;
}

unfoldable pub start_client : Adapter → List (ℕ × ℕ) → NetworkHandler → NetworkHandler
start_client adapter [] s = s
start_client adapter ((address, mask) ∷ rest) s = if adapter.loopback then s else record s {
  adapter_init_list = s.adapter_init_list ++ (running (client_of adapter address s) ∷ []);
}

unfoldable pub add_client : Adapter → NetworkHandler → NetworkHandler
add_client adapter s =
    if not adapter.enabled then s else start_client adapter adapter.address_list s

unfoldable pub adapter_added : Adapter → NetworkHandler → NetworkHandler
adapter_added adapter s = add_client adapter s

unfoldable pub change_found : Option Client → Adapter → Adapter → NetworkHandler → NetworkHandler
change_found none previous current s = s
change_found (some c) previous current s =
    if not (equal_address_list previous.address_list current.address_list)
    then add_client current (remove_client previous s)
    else s

unfoldable pub adapter_changed : Adapter → Adapter → NetworkHandler → NetworkHandler
adapter_changed previous current s =
    change_found (find_client current.mac_address s.clients) previous current s

unfoldable pub adapter_removed : Adapter → NetworkHandler → NetworkHandler
adapter_removed adapter s = remove_client adapter s
