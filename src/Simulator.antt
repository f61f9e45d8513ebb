-- ===== src/Simulator.antt =====
-- discnet_sim/src/simulator/network_router.cpp and network_traffic_manager.cpp: routers that pass
-- the datagrams of simulated nodes on to the other nodes linked to them.
pub mod Routing
pub mod Reaching
pub mod Nodes
pub mod RouteModel
mod Tests
use discnet.Common.{
  ℕ, ◌==◌, ltb, Bool, true, false, not, ◌&&◌, if◌then◌else◌, List, [], ◌∷◌, ◌++◌, Option, none,
  some, find, insert, insert_or_assign, erase_if, equivalent,
}
use mathlib.Core.Option
use discnet.Network.NetworkHandler.{UdpInfo}

-- A `simulator_udp_client`, which one it is and its info.
pub record SimulatorClient : Type 0 where
  pub number : ℕ
  pub info : UdpInfo

-- `m_participants` of a `network_router`, under the node.
abbrev pub Participants : Type 0
Participants = List (ℕ × SimulatorClient)

-- `adapter_entry`.
pub record AdapterEntry : Type 0 where
  pub adapter_identifier : ℕ
  pub router : Option ℕ
  pub client : SimulatorClient

-- `network_traffic_manager`: the nodes and the routers.
pub record TrafficManager : Type 0 where
  pub nodes : List (ℕ × List AdapterEntry)
  pub routers : List (ℕ × Participants)

-- `receive_bytes` of a participant's client.
pub record Delivery : Type 0 where
  pub node : ℕ
  pub client : SimulatorClient
  pub bytes : List ℕ
  pub sender : ℕ

unfoldable pub add_participant : ℕ → SimulatorClient → Participants → Participants
add_participant node client ps = insert ltb node client ps

unfoldable pub remove_participant : ℕ → Participants → Participants
remove_participant node ps = erase_if ltb (equivalent ltb node) ps

-- `network_router::data_sent`.
unfoldable pub router_data_sent : ℕ → UdpInfo → List ℕ → Participants → List Delivery
router_data_sent node info bytes [] = []
router_data_sent node info bytes ((other, client) ∷ ps) =
    let rest = router_data_sent node info bytes ps in
    if not (other == node)
    then record { node = other; client = client; bytes = bytes; sender = info.adapter } ∷ rest
    else rest

unfoldable pub on_router : Option Participants → ℕ → UdpInfo → List ℕ → List Delivery
on_router none node info bytes = []
on_router (some ps) node info bytes = router_data_sent node info bytes ps

unfoldable pub on_link : Option ℕ → List (ℕ × Participants) → ℕ → UdpInfo → List ℕ → List Delivery
on_link none routers node info bytes = []
on_link (some router) routers node info bytes = on_router (find ltb router routers) node info bytes

-- The loop over the adapters of the node.
unfoldable pub entries_data_sent :
    List AdapterEntry → List (ℕ × Participants) → ℕ → UdpInfo → List ℕ → List Delivery
entries_data_sent [] routers node info bytes = []
entries_data_sent (e ∷ es) routers node info bytes =
    let rest = entries_data_sent es routers node info bytes in
    if e.client.info.adapter == info.adapter
    then on_link e.router routers node info bytes ++ rest
    else rest

unfoldable pub on_node :
    Option (List AdapterEntry) → List (ℕ × Participants) → ℕ → UdpInfo → List ℕ → List Delivery
on_node none routers node info bytes = []
on_node (some es) routers node info bytes = entries_data_sent es routers node info bytes

unfoldable pub data_sent : ℕ → UdpInfo → List ℕ → TrafficManager → List Delivery
data_sent node info bytes m = on_node (find ltb node m.nodes) m.routers node info bytes

unfoldable pub entries_of : Option (List AdapterEntry) → List AdapterEntry
entries_of none = []
entries_of (some es) = es

-- The two branches insert a first entry or push one.
unfoldable pub add_node : ℕ → ℕ → SimulatorClient → TrafficManager → TrafficManager
add_node node adapter client m = record m {
  nodes =
      insert_or_assign ltb node
        (entries_of (find ltb node m.nodes)
          ++ (record { adapter_identifier = adapter; router = none; client = client } ∷ []))
        m.nodes;
}

unfoldable pub leave :
    Option Participants → ℕ → ℕ → List (ℕ × Participants) → List (ℕ × Participants)
leave none router node routers = routers
leave (some ps) router node routers =
    insert_or_assign ltb router (remove_participant node ps) routers

unfoldable pub leave_link : Option ℕ → ℕ → List (ℕ × Participants) → List (ℕ × Participants)
leave_link none node routers = routers
leave_link (some router) node routers = leave (find ltb router routers) router node routers

-- The loop of `remove_node` over the adapters of the node.
unfoldable pub leave_all : List AdapterEntry → ℕ → List (ℕ × Participants) → List (ℕ × Participants)
leave_all [] node routers = routers
leave_all (e ∷ es) node routers = leave_all es node (leave_link e.router node routers)

unfoldable pub remove_node : ℕ → TrafficManager → TrafficManager
remove_node node m = record {
  nodes = erase_if ltb (equivalent ltb node) m.nodes;
  routers = leave_all (entries_of (find ltb node m.nodes)) node m.routers;
}

-- The answer is false even where the router is new.
unfoldable pub add_router : ℕ → TrafficManager → Bool × TrafficManager
add_router router m = (false, record m { routers = insert ltb router [] m.routers })

unfoldable pub is_linked_to : ℕ → Option ℕ → Bool
is_linked_to router none = false
is_linked_to router (some r) = r == router

unfoldable pub reset_link : ℕ → AdapterEntry → AdapterEntry
reset_link router e = record e {
  router = (if is_linked_to router e.router then none else e.router);
}

unfoldable pub reset_links : ℕ → List AdapterEntry → List AdapterEntry
reset_links router [] = []
reset_links router (e ∷ es) = reset_link router e ∷ reset_links router es

unfoldable pub reset_nodes : ℕ → List (ℕ × List AdapterEntry) → List (ℕ × List AdapterEntry)
reset_nodes router [] = []
reset_nodes router ((node, es) ∷ ns) = (node, reset_links router es) ∷ reset_nodes router ns

unfoldable pub remove_router : ℕ → TrafficManager → TrafficManager
remove_router router m = record {
  nodes = reset_nodes router m.nodes;
  routers = erase_if ltb (equivalent ltb router) m.routers;
}

-- The client of the adapter's first entry, and the entries with that one linked to `router`.
unfoldable pub link_entry :
    ℕ → Option ℕ → List AdapterEntry → Option (AdapterEntry × List AdapterEntry)
link_entry adapter router [] = none
link_entry adapter router (e ∷ es) =
    let rest = Option.map (λ r. (r.0, e ∷ r.1)) (link_entry adapter router es) in
    if e.adapter_identifier == adapter then some (e, record e { router = router } ∷ es) else rest

unfoldable pub link_found :
    Option (AdapterEntry × List AdapterEntry)
    → ℕ
    → ℕ
    → Participants
    → TrafficManager
    → Bool × TrafficManager
link_found none node router ps m = (false, m)
link_found (some (e, es)) node router ps m = (
  true,
  record {
    nodes = insert_or_assign ltb node es m.nodes;
    routers = insert_or_assign ltb router (add_participant node e.client ps) m.routers;
  },
)

unfoldable pub link :
    Option (List AdapterEntry)
    → Option Participants
    → ℕ
    → ℕ
    → ℕ
    → TrafficManager
    → Bool × TrafficManager
link (some es) (some ps) node adapter router m =
    link_found (link_entry adapter (some router) es) node router ps m
link none ps node adapter router m = (false, m)
link (some es) none node adapter router m = (false, m)

unfoldable pub add_link : ℕ → ℕ → ℕ → TrafficManager → Bool × TrafficManager
add_link node adapter router m =
    link (find ltb node m.nodes) (find ltb router m.routers) node adapter router m

unfoldable pub unlink :
    Option (AdapterEntry × List AdapterEntry) → ℕ → TrafficManager → TrafficManager
unlink none node m = m
unlink (some (e, es)) node m = record {
  nodes = insert_or_assign ltb node es m.nodes;
  routers = leave_link e.router node m.routers;
}

unfoldable pub unlink_node : Option (List AdapterEntry) → ℕ → ℕ → TrafficManager → TrafficManager
unlink_node none node adapter m = m
unlink_node (some es) node adapter m = unlink (link_entry adapter none es) node m

unfoldable pub remove_link : ℕ → ℕ → TrafficManager → TrafficManager
remove_link node adapter m = unlink_node (find ltb node m.nodes) node adapter m
