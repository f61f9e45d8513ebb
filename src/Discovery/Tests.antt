-- ===== src/Discovery/Tests.antt =====
-- A run of a discovery, and its theorem at concrete inputs.
use discnet.Common.{ℕ, ◌+◌, ◌≡◌, refl, arith, false, true, [], ◌∷◌, some}
use discnet.Host.Swapping.{swapping}
use discnet.Network.Messages.DiscoveryMessage
use discnet.Network.Messages.DiscoveryMessage.{DiscoveryMessage}
use discnet.Network.Messages.Packet.{of_discovery, total_packet_size, message_size}
use discnet.Network.DataStream.Framing.{Fits}
use discnet.Network.DataHandler.{Identifier, new_handler, handle_datagram}
use discnet.Network.NetworkHandler.{Client, NetworkHandler, packet_bytes}
use discnet.Adapters.{Adapter, AdapterManager, find_adapter, find_by_address, has_address}
use discnet.Routes.Manager.{RouteManager}

abbrev ethernet : Adapter
ethernet = record {
  guid = 1 ∷ [];
  mac_address = 60 ∷ [];
  index = 4;
  name = [];
  description = [];
  loopback = false;
  enabled = true;
  address_list = (3232238090, 4294967040) ∷ [];
  gateway = 3232238081;
  mtu = 1500;
}

abbrev adapters : AdapterManager
adapters = record { adapters = (60 ∷ [], ethernet) ∷ []; signals = [] }

known : find_adapter 3232238090 adapters ≡ some ethernet
unfolding find_adapter find_by_address has_address
known = refl

abbrev announcement : DiscoveryMessage
announcement = record {
  identifier = 1010;
  nodes = record { identifier = 1011; address = 3232238092; jumps = 512 ∷ [] } ∷ [];
}

announcement_size : total_packet_size (of_discovery announcement ∷ []) ≡ 30
unfolding total_packet_size message_size DiscoveryMessage.encoded_size
announcement_size = refl

announcement-Fits : Fits (of_discovery announcement ∷ [])
announcement-Fits = (
  record {
    messages-IsMessage = omega arith;
    length-lt = omega arith;
    size-lt = omega (arith, announcement_size);
  },
  omega (arith, announcement_size),
)

abbrev sender : Identifier
sender = record { sender_ip = 3232238091; recipient_ip = 4026531841 }

abbrev doubled : ℕ → ℕ → ℕ
doubled capacity n = n + n

abbrev client : Client
client = record {
  adapter_identifier = 60 ∷ [];
  info = record { adapter = 3232238090; multicast = 4026531841; port = 1337 };
  handler =
      handle_datagram doubled 7 (packet_bytes swapping (of_discovery announcement ∷ [])) 3232238091
        4026531841 (new_handler 4095);
}

abbrev node : NetworkHandler
node = record {
  multicast_address = 4026531841;
  multicast_port = 1337;
  clients = client ∷ [];
  adapter_init_list = [];
  effects = [];
}

abbrev empty : RouteManager
empty = record { adapter_routes = []; signals = [] }
