-- ===== src/Application/Node/Tests.antt =====
-- Two nodes on one network, of which the first announces itself.
use discnet.Common.{
  ◌+◌, ◌≡◌, refl, ap, sym, ◌∙◌, inl, inr, true, false, Bool-cases, some-injective, equal_list,
  equal_bool, equal_pair, text_less-IsOrder, equivalent→≡, List, [], ◌∷◌, some, find, equivalent,
  text_less,
}
use mathlib.Core.Option
use discnet.Host.Swapping.{swapping}
use discnet.Network.Messages.DiscoveryMessage
use discnet.Network.Messages.DiscoveryMessage.{DiscoveryMessage}
use discnet.Network.Messages.Packet.{Message, of_discovery}
use discnet.Network.DataHandler.{new_handler, handle_datagram, process_all, process_streams}
use discnet.Network.NetworkHandler
use discnet.Network.NetworkHandler.{
  Client, multicast, NetworkHandler, packet_bytes, update_clients, add_client_result, new_clients,
  take_results, running, ready, taken, adapter_added, start_client, add_client, client_of,
}
use discnet.Adapters
use discnet.Adapters.{
  Adapter, AdapterManager, update_entries, update_entry, equal_adapter, remove_entries, removed,
  is_gone,
}
use discnet.Adapters.Keyed.{IsKeyed}
use discnet.Routes.Manager
use discnet.Routes.Manager.Selection
use discnet.Transmission.{is_due}
use discnet.Application.Node
use discnet.Application.Node.{initialize, slot, slots, update_adapters, update_routes, update}
use discnet.Application.Node.Announcing.{announcement, datagrams}
use discnet.Application.Node.Running.{update-total, update-datagrams}

abbrev pub ethernet : Adapter
ethernet = record {
  guid = 1 ∷ [];
  mac_address = 60 ∷ [];
  index = 4;
  name = [];
  description = [];
  loopback = false;
  enabled = true;
  address_list = (3232238090, 4294967040) ∷ [];
  gateway = 3232238081;
  mtu = 1500;
}

abbrev neighbour : Adapter
neighbour = record ethernet { address_list = (3232238091, 4294967040) ∷ [] }

abbrev pub client : Client
client = record {
  adapter_identifier = 60 ∷ [];
  info = record { adapter = 3232238090; multicast = 4026531841; port = 1337 };
  handler = new_handler 4095;
}

-- A node with a client on its adapter.
abbrev node_on : Adapter → Client → Node.Node
node_on a c = record {
  adapters = record { adapters = (60 ∷ [], a) ∷ []; signals = [] };
  network = record {
    multicast_address = 4026531841;
    multicast_port = 1337;
    clients = c ∷ [];
    adapter_init_list = [];
    effects = [];
  };
  routes = record { adapter_routes = []; signals = [] };
  transmission = record { node_id = 1010; last_discovery = 0; interval = 20000; queue = [] };
}

abbrev first : Node.Node
first = node_on ethernet client

one-IsKeyed : (a : Adapter) → IsKeyed (record { adapters = (a.mac_address, a) ∷ []; signals = [] })
unfolding find
one-IsKeyed a k b e = elim (Bool-cases (equivalent text_less a.mac_address k)) [
  | inl same ↦
      ap (λ (x : Adapter). x.mac_address) (sym (some-injective (rw same at e)))
      ∙ equivalent→≡ text_less text_less-IsOrder a.mac_address k same
  | inr other ↦ absurd (cc (rw other at e))
]

handled :
    NetworkHandler.update swapping 30000 (update_adapters (ethernet ∷ []) first).network
    ≡ some first.network
unfolding NetworkHandler.update update_clients add_client_result new_clients take_results
    process_all process_streams new_handler update_adapters slots Adapters.update update_entries
    update_entry equal_adapter remove_entries removed is_gone find equivalent text_less equal_list
    equal_bool equal_pair NetworkHandler.stream_effects
handled = refl

-- The first node after its update at 30 seconds.
abbrev announced : Node.Node
announced = update_routes swapping 1000 30000 (update_adapters (ethernet ∷ []) first) first.network

updated : update swapping 1000 (ethernet ∷ []) 30000 first ≡ some announced
unfolding update
updated =
    ap (Option.map (update_routes swapping 1000 30000 (update_adapters (ethernet ∷ []) first)))
      handled

abbrev message : List Message
message = announcement 1010 announced.routes ethernet

due : is_due first.transmission 30000 ≡ true
unfolding is_due
due = refl

abbrev plain : List Message
plain = of_discovery (record { identifier = 1010; nodes = [] }) ∷ []

abbrev heard : Client
heard = record {
  adapter_identifier = 60 ∷ [];
  info = record { adapter = 3232238091; multicast = 4026531841; port = 1337 };
  handler =
      handle_datagram (λ capacity n. n + n) 7 (packet_bytes swapping message) 3232238090 4026531841
        (new_handler 4095);
}

abbrev second : Node.Node
second = node_on neighbour heard

update-total_example : (t : Node.Node) × (update swapping 1000 (ethernet ∷ []) 30000 first ≡ some t)
update-total_example = update-total swapping 1000 (ethernet ∷ []) 30000 first

update-datagrams_example :
    (t : Node.Node) × (update swapping 1000 (ethernet ∷ []) 30000 first ≡ some t)
    × (t.network.effects ≡ datagrams swapping 1010 t.adapters t.routes (client ∷ []))
    × (t.transmission.last_discovery ≡ 30000)
update-datagrams_example =
    update-datagrams swapping 1000 (ethernet ∷ []) 30000 first first.network (one-IsKeyed ethernet)
      handled (tt, tt) due
