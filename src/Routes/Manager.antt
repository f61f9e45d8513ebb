-- ===== src/Routes/Manager.antt =====
-- route_manager.cpp: the routes that discovery messages tell of, adapter by adapter.
pub mod Selection
pub mod Shortest
pub mod Online
pub mod Unique
pub mod Kept
pub mod Lasting
pub mod Processing
pub mod Messages
pub mod Announced
pub mod Distinct
pub mod Tests
use discnet.Common.{
  ℕ, ◌≡◌, ◌==◌, Bool, true, false, not, ◌&&◌, if◌then◌else◌, List, [], ◌∷◌, ◌++◌, Option, none,
  some, Text, text_less, find, insert, insert_or_assign,
}
use discnet.Network.Messages.DiscoveryMessage.{DiscoveryMessage, Node}
use discnet.Adapters.{Adapter, AdapterManager, find_adapter, equal_text}
use discnet.Routes.{
  NodeIdentifier, RouteIdentifier, RouteStatus, Route, PersistentRoute, same_route, is_route_online,
  is_shorter_route,
}

-- The signals `e_new_route` and `e_online_state_changed`, this with the state before.
pub data Signal : Type 0 where
  new_route : Route → Signal
  online_state_changed : Route → Bool → Signal

abbrev pub AdapterRoutes : Type 0
AdapterRoutes = List (Text × List Route)

-- `m_adapter_routes`, and the signals sent so far.
pub record RouteManager : Type 0 where
  pub adapter_routes : AdapterRoutes
  pub signals : List Signal

-- `network_info_t`.
pub record NetworkInfo : Type 0 where
  pub adapter : ℕ
  pub sender : ℕ
  pub receiver : ℕ
  pub reception_time : ℕ

unfoldable pub set_online : Bool → Route → Route
set_online online route = record route { status = record (route.status) { online = online } }

-- The four cases of the loop's body: whether the route is online now, and whether it was.
unfoldable pub change_state : Bool → Bool → Route → Route × List Signal
change_state true true route = (route, [])
change_state true false route =
    (set_online true route, online_state_changed (set_online true route) false ∷ [])
change_state false true route =
    (set_online false route, online_state_changed (set_online false route) true ∷ [])
change_state false false route = (route, [])

unfoldable pub update_route : ℕ → ℕ → Route → Route × List Signal
update_route second current_time route =
    change_state (is_route_online second route current_time) route.status.online route

unfoldable pub update_routes : ℕ → ℕ → List Route → List Route × List Signal
update_routes second current_time [] = ([], [])
update_routes second current_time (route ∷ routes) =
    let (route', sent) = update_route second current_time route in
    let (routes', sent') = update_routes second current_time routes in
    (route' ∷ routes', sent ++ sent')

unfoldable pub update_adapters : ℕ → ℕ → AdapterRoutes → AdapterRoutes × List Signal
update_adapters second current_time [] = ([], [])
update_adapters second current_time ((guid, routes) ∷ m) =
    let (routes', sent) = update_routes second current_time routes in
    let (m', sent') = update_adapters second current_time m in ((guid, routes') ∷ m', sent ++ sent')

unfoldable pub update : ℕ → ℕ → RouteManager → RouteManager
update second current_time m =
    let (adapter_routes, sent) = update_adapters second current_time m.adapter_routes in
    record { adapter_routes = adapter_routes; signals = m.signals ++ sent }

unfoldable pub new_route_of : Adapter → ℕ → RouteIdentifier → List ℕ → Route
new_route_of adapter time id jumps = record {
  identifier = id;
  last_discovery = time;
  last_data_message = 0;
  status = record {
    online = true;
    persistent = false;
    silent = false;
    jumps = jumps;
    mtu = adapter.mtu;
  };
}

-- `std::find_if` by the identifier.
unfoldable pub find_route : RouteIdentifier → List Route → Option Route
find_route id [] = none
find_route id (route ∷ routes) =
    let rest = find_route id routes in if same_route route.identifier id then some route else rest

-- A change of the route that `std::find_if` finds.
unfoldable pub change_route : RouteIdentifier → (Route → Route) → List Route → List Route
change_route id f [] = []
change_route id f (route ∷ routes) =
    let rest = change_route id f routes in
    if same_route route.identifier id then f route ∷ routes else route ∷ rest

unfoldable pub signal : Signal → RouteManager → RouteManager
signal e m = record m { signals = m.signals ++ (e ∷ []) }

-- The routes of the adapter are there: the route is new, or it is known.
unfoldable pub process_known_adapter :
    Option Route → Adapter → ℕ → RouteIdentifier → List ℕ → List Route → RouteManager → RouteManager
process_known_adapter none adapter time id jumps routes m =
    let route = new_route_of adapter time id jumps in
    signal (new_route route) (record m {
      adapter_routes =
          insert_or_assign text_less adapter.guid (routes ++ (route ∷ [])) m.adapter_routes;
    })
process_known_adapter (some known) adapter time id jumps routes m = record m {
  adapter_routes =
      insert_or_assign text_less adapter.guid
        (change_route id (λ r. record r { last_discovery = time }) routes) m.adapter_routes;
}

unfoldable pub process_adapter :
    Option (List Route) → Adapter → ℕ → RouteIdentifier → List ℕ → RouteManager → RouteManager
process_adapter none adapter time id jumps m =
    let route = new_route_of adapter time id jumps in
    signal (new_route route)
      (record m { adapter_routes = insert text_less adapter.guid (route ∷ []) m.adapter_routes })
process_adapter (some routes) adapter time id jumps m =
    process_known_adapter (find_route id routes) adapter time id jumps routes m

-- The answer is always true.
unfoldable pub process_route :
    Adapter → ℕ → RouteIdentifier → List ℕ → RouteManager → Bool × RouteManager
process_route adapter time id jumps m =
    (true, process_adapter (find text_less adapter.guid m.adapter_routes) adapter time id jumps m)

-- The loop over the nodes of a message.
unfoldable pub process_nodes :
    Adapter → NetworkInfo → List Node → Bool → RouteManager → Bool × RouteManager
process_nodes adapter info [] result m = (result, m)
process_nodes adapter info (n ∷ ns) result m =
    let id : RouteIdentifier = record {
      node = record { id = n.identifier; address = n.address };
      adapter = info.adapter;
      reporter = info.sender;
    } in
    let (added, m') = process_route adapter info.reception_time id (256 ∷ n.jumps) m in
    process_nodes adapter info ns (result && added) m'

unfoldable pub process_from :
    Option Adapter → DiscoveryMessage → NetworkInfo → RouteManager → Bool × RouteManager
process_from none message info m = (false, m)
process_from (some adapter) message info m =
    let id : RouteIdentifier = record {
      node = record { id = message.identifier; address = info.sender };
      adapter = info.adapter;
      reporter = info.sender;
    } in
    let (result, m') = process_route adapter info.reception_time id (256 ∷ []) m in
    process_nodes adapter info message.nodes result m'

unfoldable pub process_discovery_message :
    AdapterManager → DiscoveryMessage → NetworkInfo → RouteManager → Bool × RouteManager
process_discovery_message adapters message info m =
    process_from (find_adapter info.adapter adapters) message info m

unfoldable pub set_persistent : Bool → Route → Route
set_persistent persistent route = record route {
  status = record (route.status) { persistent = persistent };
}

-- `itr_route` is dereferenced even at the end of the routes: `none` is that undefined behaviour.
unfoldable pub make_persistent :
    Option Route
    → Bool
    → Text
    → RouteIdentifier
    → List Route
    → RouteManager
    → Option (Bool × RouteManager)
make_persistent none enabled guid id routes m = none
make_persistent (some known) enabled guid id routes m = some (
  true,
  record m {
    adapter_routes =
        insert_or_assign text_less guid (change_route id (set_persistent enabled) routes)
          m.adapter_routes;
  },
)

unfoldable pub persist_on :
    Option (List Route)
    → Bool
    → Text
    → RouteIdentifier
    → RouteManager
    → Option (Bool × RouteManager)
persist_on none enabled guid id m = some (false, m)
persist_on (some routes) enabled guid id m =
    make_persistent (find_route id routes) enabled guid id routes m

unfoldable pub persist :
    Option Adapter → PersistentRoute → ℕ → RouteManager → Option (Bool × RouteManager)
persist none route time m = some (false, m)
persist (some adapter) route time m =
    let id = route.identifier in
    let (result, m') = process_route adapter time id (route.metric ∷ []) m in
    if result
    then persist_on (find text_less adapter.guid m'.adapter_routes) route.enabled adapter.guid id m'
    else some (result, m')

unfoldable pub process_persistent_route :
    AdapterManager → PersistentRoute → ℕ → RouteManager → Option (Bool × RouteManager)
process_persistent_route adapters route time m =
    persist (find_adapter route.identifier.adapter adapters) route time m
