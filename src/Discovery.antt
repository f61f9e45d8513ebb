-- ===== src/Discovery.antt =====
-- How a node learns of another: what the network handler signals goes to the route manager, that
-- connects itself to it in the constructor of route_manager.cpp.
pub mod Announcement
mod Tests
use discnet.Common.{List, [], ◌∷◌}
use discnet.Network.NetworkHandler.{
  Effect, multicast, unicast, closed, discovery_message_received, data_message_received,
}
use discnet.Adapters.{AdapterManager}
use discnet.Routes.Manager.{RouteManager, process_discovery_message}

-- The slot of `e_discovery_message_received`, for the signals in their order.
unfoldable pub connected : AdapterManager → List Effect → RouteManager → RouteManager
connected adapters [] m = m
connected adapters (discovery_message_received message info ∷ es) m =
    connected adapters es (process_discovery_message adapters message info m).1
connected adapters (data_message_received message info ∷ es) m = connected adapters es m
connected adapters (multicast info bytes ∷ es) m = connected adapters es m
connected adapters (unicast info recipient bytes ∷ es) m = connected adapters es m
connected adapters (closed info ∷ es) m = connected adapters es m
