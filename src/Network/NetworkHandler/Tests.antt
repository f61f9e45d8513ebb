-- ===== src/Network/NetworkHandler/Tests.antt =====
-- Runs of the network handler, and its theorems at concrete inputs.
use discnet.Common.{
  ℕ, ◌+◌, ◌<◌, ◌≤◌, ◌≡◌, ◌≢◌, ◌⊎◌, refl, arith, true, false, List, [], ◌∷◌, some, equal_list,
}
use discnet.Host.Swapping.{swapping}
use discnet.Network.Messages.DataMessage
use discnet.Network.Messages.DataMessage.{DataMessage}
use discnet.Network.Messages.Packet.{Message, of_data, total_packet_size, message_size}
use discnet.Network.Messages.Packet.Wire.{wire}
use discnet.Network.DataStream.Framing.{Fits}
use discnet.Network.DataHandler.{Identifier, new_handler, handle_datagram}
use discnet.Adapters.{Adapter}
use discnet.Network.NetworkHandler.{
  Client, running, multicast, NetworkHandler, emit, find_client, packet_bytes, client_of,
  transmit_multicast, adapter_added,
}
use discnet.Network.NetworkHandler.Delivery.{transmit_multicast_cases}
use discnet.Network.NetworkHandler.Clients.{adapter_added_cases}

abbrev ethernet : Adapter
ethernet = record {
  guid = 1 ∷ [];
  mac_address = 60 ∷ [];
  index = 4;
  name = [];
  description = [];
  loopback = false;
  enabled = true;
  address_list = (3232238090, 4294967040) ∷ [];
  gateway = 3232238081;
  mtu = 1500;
}

abbrev sender : Identifier
sender = record { sender_ip = 3232238091; recipient_ip = 4026531841 }

abbrev greeting : List Message
greeting = of_data (record { identifier = 1; buffer = 1 ∷ 2 ∷ 3 ∷ [] }) ∷ []

greeting_size : total_packet_size greeting ≡ 23
unfolding total_packet_size message_size DataMessage.encoded_size
greeting_size = refl

greeting-Fits : Fits greeting
greeting-Fits = (
  record {
    messages-IsMessage = omega arith;
    length-lt = omega arith;
    size-lt = omega (arith, greeting_size);
  },
  omega (arith, greeting_size),
)

abbrev doubled : ℕ → ℕ → ℕ
doubled capacity n = n + n

-- The client of the adapter, when the greeting has come in.
abbrev client : Client
client = record {
  adapter_identifier = 60 ∷ [];
  info = record { adapter = 3232238090; multicast = 4026531841; port = 1337 };
  handler =
      handle_datagram doubled 7 (packet_bytes swapping greeting) 3232238091 4026531841
        (new_handler 4095);
}

abbrev node : NetworkHandler
node = record {
  multicast_address = 4026531841;
  multicast_port = 1337;
  clients = client ∷ [];
  adapter_init_list = [];
  effects = [];
}

found : find_client (60 ∷ []) node.clients ≡ some client
unfolding find_client equal_list
found = refl

group : ◌≢◌ {A = ℕ} 4026531841 0
group e = absurd (omega (arith, e))

transmit_multicast_cases_example :
    (total_packet_size greeting ≤ 4096)
      × (transmit_multicast swapping ethernet greeting node
          ≡ emit (multicast client.info (wire swapping greeting)) node)
    ⊎ (4096 < total_packet_size greeting)
      × (transmit_multicast swapping ethernet greeting node ≡ emit (multicast client.info []) node)
transmit_multicast_cases_example =
    transmit_multicast_cases swapping ethernet greeting client node found group

adapter_added_cases_example :
    ((address : ℕ) × (mask : ℕ) × (rest : List (ℕ × ℕ)) × (ethernet.enabled ≡ true)
      × (ethernet.loopback ≡ false)
      × (ethernet.address_list ≡ (address, mask) ∷ rest)
      × (adapter_added ethernet node
          ≡ record node { adapter_init_list = running (client_of ethernet address node) ∷ [] }))
    ⊎ (((ethernet.enabled ≡ false) ⊎ ((ethernet.loopback ≡ true) ⊎ (ethernet.address_list ≡ [])))
        × (adapter_added ethernet node ≡ node))
adapter_added_cases_example = adapter_added_cases ethernet node
