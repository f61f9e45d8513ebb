-- ===== src/Application/Node.antt =====
-- application.cpp of discnet_app, and node.cpp of discnet_sim, that is wired in the same way: the
-- adapter manager, the network handler, the route manager and the transmission handler of a node,
-- and their updates one after the other.
pub mod Announcing
pub mod Running
pub mod Discovering
pub mod Reachable
mod Tests
mod LifeTests
use discnet.Common.{ℕ, List, [], ◌∷◌, Option}
use mathlib.Core.Option
use discnet.Host.{Host}
use discnet.Adapters
use discnet.Adapters.{Adapter, AdapterManager, new_adapter, changed_adapter, removed_adapter}
use discnet.Network.NetworkHandler
use discnet.Network.NetworkHandler.{NetworkHandler, adapter_added, adapter_changed, adapter_removed}
use discnet.Routes.Manager
use discnet.Routes.Manager.{RouteManager}
use discnet.Transmission
use discnet.Transmission.{TransmissionHandler, new_transmission}
use discnet.Discovery.{connected}
use discnet.Application.Configuration.{Configuration}

-- The signals of the adapter manager and the effects of the network handler are those of the last
-- update.
pub record Node : Type 0 where
  pub adapters : AdapterManager
  pub network : NetworkHandler
  pub routes : RouteManager
  pub transmission : TransmissionHandler

-- `initialize`.
unfoldable pub initialize : ℕ → Configuration → Node
initialize second configuration = record {
  adapters = record { adapters = []; signals = [] };
  network = record {
    multicast_address = configuration.multicast_address;
    multicast_port = configuration.multicast_port;
    clients = [];
    adapter_init_list = [];
    effects = [];
  };
  routes = record { adapter_routes = []; signals = [] };
  transmission = new_transmission second configuration.node_id;
}

-- The slots that the constructor of network_handler.cpp connects to the adapter manager.
unfoldable pub slot : Adapters.Signal → NetworkHandler → NetworkHandler
slot (new_adapter a) s = adapter_added a s
slot (changed_adapter previous current) s = adapter_changed previous current s
slot (removed_adapter a) s = adapter_removed a s

unfoldable pub slots : List Adapters.Signal → NetworkHandler → NetworkHandler
slots [] s = s
slots (e ∷ es) s = slots es (slot e s)

-- `m_adapter_manager->update()`, with what the fetcher gives; the slots run at each signal, and
-- touch nothing of the adapter manager.
unfoldable pub update_adapters : List Adapter → Node → Node
update_adapters fetched n =
    let m = Adapters.update fetched (record (n.adapters) { signals = [] }) in
    record n { adapters = m; network = slots m.signals (record (n.network) { effects = [] }) }

-- `m_route_manager->update` and `m_transmission_handler->update`, behind the signals of the network
-- handler's update.
unfoldable pub update_routes : Host → ℕ → ℕ → Node → NetworkHandler → Node
update_routes h second current_time n network =
    let routes =
      Manager.update second current_time (connected n.adapters network.effects n.routes) in
    let (transmission, sending) =
      Transmission.update h n.adapters routes current_time (n.transmission, network) in
    record n { network = sending; routes = routes; transmission = transmission }

-- `none` when a stream ran out of fuel.
unfoldable pub update : Host → ℕ → List Adapter → ℕ → Node → Option Node
update h second fetched current_time n =
    let n' = update_adapters fetched n in
    Option.map (update_routes h second current_time n')
      (NetworkHandler.update h current_time n'.network)
