-- ===== src/Simulator/RouteModel/Connection.antt =====
-- discnet_sim/src/simulator/node.cpp: the signals of a node's route manager, connected to the table of
-- its routes.
use discnet.Common.{ℕ, Bool, true, List, [], ◌∷◌}
use discnet.Network.Messages.DiscoveryMessage.{DiscoveryMessage}
use discnet.Adapters.{AdapterManager}
use discnet.Routes.{Route}
use discnet.Routes.Manager
use discnet.Routes.Manager.{
  Signal, new_route, online_state_changed, RouteManager, NetworkInfo, process_discovery_message,
}
use discnet.Simulator.RouteModel.{RouteModel}
use discnet.Simulator.RouteModel

unfoldable pub route_changed : Route → Bool → RouteModel → RouteModel
route_changed route prev m = RouteModel.update route m

-- The two slots that `initialize` connects.
unfoldable pub slot : Signal → RouteModel → RouteModel
slot (new_route route) m = route_changed route true m
slot (online_state_changed route prev) m = route_changed route prev m

unfoldable pub slots : List Signal → RouteModel → RouteModel
slots [] m = m
slots (e ∷ es) m = slots es (slot e m)

-- The table behind the signals of a manager, from an empty one on.
abbrev pub new_table : RouteModel
new_table = record { rows = []; signals = [] }

unfoldable pub table : RouteManager → RouteModel
table m = slots m.signals new_table

abbrev pub new_manager : RouteManager
new_manager = record { adapter_routes = []; signals = [] }

-- The calls on the manager of a node: a message and how it came in, with the adapters then, and an
-- update at a time.
pub data Call : Type 0 where
  received : AdapterManager → DiscoveryMessage → NetworkInfo → Call
  updated_at : ℕ → Call

unfoldable pub call : ℕ → Call → RouteManager → RouteManager
call second (received adapters message info) m =
    (process_discovery_message adapters message info m).1
call second (updated_at current_time) m = Manager.update second current_time m

unfoldable pub run : ℕ → List Call → RouteManager → RouteManager
run second [] m = m
run second (c ∷ cs) m = run second cs (call second c m)
