-- ===== src/Simulator/Nodes.antt =====
-- discnet_sim/src/simulator: simulator.cpp with the nodes of a simulation, node.cpp, the adapters of
-- a node in network_adapter_fetcher.h, and the clients of udp_client.cpp.
pub mod Bookkeeping
mod Tests
use discnet.Common.{
  ℕ, ◌-◌, ◌^◌, ◌==◌, ltb, Bool, true, false, not, if◌then◌else◌, List, [], ◌∷◌, ◌++◌, Option, none,
  some, map, find, insert, insert_or_assign, erase_if, equivalent,
}
use mathlib.Core.Option
use discnet.Host.{Host}
use discnet.Adapters.{Adapter}
use discnet.Network.NetworkHandler.{UdpInfo}
use discnet.Application.Configuration.{Configuration}
use discnet.Application.Node
use discnet.Application.Node.{Node, initialize}
use discnet.Simulator
use discnet.Simulator.{SimulatorClient, TrafficManager, Delivery, data_sent}

-- `simulator_adapter_entry`.
pub record FetcherEntry : Type 0 where
  pub identifier : ℕ
  pub adapter : Adapter

-- `simulator_adapter_fetcher`.
abbrev pub Fetcher : Type 0
Fetcher = List FetcherEntry

unfoldable pub fetcher_add : ℕ → Adapter → Fetcher → Fetcher
fetcher_add identifier adapter entries =
    entries ++ (record { identifier = identifier; adapter = adapter } ∷ [])

unfoldable pub fetcher_remove : ℕ → Fetcher → Fetcher
fetcher_remove identifier [] = []
fetcher_remove identifier (entry ∷ entries) =
    let rest = fetcher_remove identifier entries in
    if entry.identifier == identifier then rest else entry ∷ rest

unfoldable pub get_adapters : Fetcher → List Adapter
get_adapters entries = map (λ e. e.adapter) entries

-- Whether the first address of a list is `address`; `none` where `front` is called on no address,
-- which is not defined.
unfoldable pub front_is : ℕ → List (ℕ × ℕ) → Option Bool
front_is address [] = none
front_is address ((first, mask) ∷ rest) = some (first == address)

unfoldable pub identifier_if : Option Bool → ℕ → Option ℕ → Option ℕ
identifier_if none identifier rest = none
identifier_if (some true) identifier rest = some identifier
identifier_if (some false) identifier rest = rest

-- The greatest `uint32_t` where no adapter has the address first.
unfoldable pub get_identifier : ℕ → Fetcher → Option ℕ
get_identifier address [] = some (2 ^ 32 - 1)
get_identifier address (entry ∷ entries) =
    identifier_if (front_is address entry.adapter.address_list) entry.identifier
      (get_identifier address entries)

-- `simulator_udp_client`, for the node it belongs to: `open` and `write`.
unfoldable pub open_client : SimulatorClient → Bool
open_client c = true

unfoldable pub write_client : ℕ → SimulatorClient → List ℕ → TrafficManager → Bool × List Delivery
write_client node c bytes m = (true, data_sent node c.info bytes m)

-- `simulator_client_creator::create`, for a client of the given number.
unfoldable pub create_client :
    ℕ → Fetcher → ℕ → UdpInfo → TrafficManager → Option (SimulatorClient × TrafficManager)
create_client node fetcher number info m =
    let client : SimulatorClient = record { number = number; info = info } in
    Option.map (λ adapter. (client, Simulator.add_node node adapter client m))
      (get_identifier info.adapter fetcher)

-- `discnet_node`: its adapter fetcher and the rest.
pub record SimulatedNode : Type 0 where
  pub fetcher : Fetcher
  pub node : Node.Node

-- `initialize` of node.cpp.
unfoldable pub initialize_node : ℕ → Configuration → SimulatedNode
initialize_node second configuration = record {
  fetcher = [];
  node = initialize second configuration;
}

unfoldable pub node_add_adapter : ℕ → Adapter → SimulatedNode → SimulatedNode
node_add_adapter identifier adapter n = record n {
  fetcher = fetcher_add identifier adapter n.fetcher;
}

unfoldable pub node_remove_adapter : ℕ → SimulatedNode → SimulatedNode
node_remove_adapter identifier n = record n { fetcher = fetcher_remove identifier n.fetcher }

-- `update` of node.cpp, up to what the traffic manager does with the datagrams that it sends.
unfoldable pub node_update : Host → ℕ → ℕ → SimulatedNode → Option SimulatedNode
node_update h second current_time n =
    Option.map (λ m. record n { node = m })
      (Node.update h second (get_adapters n.fetcher) current_time n.node)

-- `simulator`.
pub record Simulation : Type 0 where
  pub nodes : List (ℕ × SimulatedNode)
  pub traffic : TrafficManager

unfoldable pub find_node : ℕ → Simulation → Option SimulatedNode
find_node identifier s = find ltb identifier s.nodes

-- A node that is there stays.
unfoldable pub add_node : ℕ → ℕ → Configuration → Simulation → Simulation
add_node second identifier configuration s = record s {
  nodes = insert ltb identifier (initialize_node second configuration) s.nodes;
}

unfoldable pub remove_found : Option SimulatedNode → ℕ → Simulation → Bool × Simulation
remove_found none identifier s = (false, s)
remove_found (some n) identifier s = (
  true,
  record {
    nodes = erase_if ltb (equivalent ltb identifier) s.nodes;
    traffic = Simulator.remove_node identifier s.traffic;
  },
)

unfoldable pub remove_node : ℕ → Simulation → Bool × Simulation
remove_node identifier s = remove_found (find ltb identifier s.nodes) identifier s

unfoldable pub add_router : ℕ → Simulation → Bool × Simulation
add_router router s =
    let (added, traffic) = Simulator.add_router router s.traffic in
    (added, record s { traffic = traffic })

unfoldable pub remove_router : ℕ → Simulation → Simulation
remove_router router s = record s { traffic = Simulator.remove_router router s.traffic }

unfoldable pub add_adapter_to : Option SimulatedNode → ℕ → ℕ → Adapter → Simulation → Simulation
add_adapter_to none node identifier adapter s = s
add_adapter_to (some n) node identifier adapter s = record s {
  nodes = insert_or_assign ltb node (node_add_adapter identifier adapter n) s.nodes;
}

unfoldable pub add_adapter : ℕ → ℕ → Adapter → Simulation → Simulation
add_adapter node identifier adapter s =
    add_adapter_to (find ltb node s.nodes) node identifier adapter s

unfoldable pub remove_adapter_of : Option SimulatedNode → ℕ → ℕ → Simulation → Simulation
remove_adapter_of none node identifier s = s
remove_adapter_of (some n) node identifier s = record {
  nodes = insert_or_assign ltb node (node_remove_adapter identifier n) s.nodes;
  traffic = Simulator.remove_link node identifier s.traffic;
}

unfoldable pub remove_adapter : ℕ → ℕ → Simulation → Simulation
remove_adapter node identifier s = remove_adapter_of (find ltb node s.nodes) node identifier s

unfoldable pub add_link : ℕ → ℕ → ℕ → Simulation → Simulation
add_link node adapter router s = record s {
  traffic = (Simulator.add_link node adapter router s.traffic).1;
}

unfoldable pub remove_link : ℕ → ℕ → Simulation → Simulation
remove_link node adapter s = record s { traffic = Simulator.remove_link node adapter s.traffic }
