-- ===== src/Routes/Manager/Tests.antt =====
-- Runs of the route manager, and its theorems at concrete inputs.
use discnet.Common.{ℕ, ◌≡◌, ◌≢◌, ◌⊎◌, refl, true, false, [], ◌∷◌, All, none, some, Text}
use mathlib.Core.List.{Memᴰ}
use discnet.Network.Messages.DiscoveryMessage.{DiscoveryMessage, Node}
use discnet.Adapters.{Adapter, AdapterManager, find_adapter}
use discnet.Routes.{Route, PersistentRoute}
use discnet.Routes.Manager.{
  RouteManager, NetworkInfo, update, process_discovery_message, process_persistent_route,
}
use discnet.Routes.Manager.Online.{AllMarked, update-AllMarked}
use discnet.Routes.Manager.Unique.{Unique}
use discnet.Routes.Manager.Processing.{Seen}
use discnet.Routes.Manager.Messages.{
  route_to, process_discovery_message_cases, Persisted, process_persistent_route_cases,
}
use discnet.Routes.Manager.Selection.{
  find_routes_for_adapter, collect_adapters, collect_routes, collect_route, collect_online,
  erase_route,
}
use discnet.Routes.Manager.{find_route}
use discnet.Routes.{same_route, same_node, is_shorter_route, accumulate}
use discnet.Common.{equal_list}
use discnet.Routes.Manager.Shortest.{Covers, find_routes_for_adapter-Covers}
use discnet.Routes.Manager.Distinct.{find_routes_for_adapter-Unique}
use discnet.Routes.Manager.Announced.{IsCandidate, find_routes_for_adapter-IsCandidate}

abbrev ethernet : Adapter
ethernet = record {
  guid = 1 ∷ [];
  mac_address = 60 ∷ [];
  index = 4;
  name = [];
  description = [];
  loopback = false;
  enabled = true;
  address_list = (3232238090, 4294967040) ∷ [];
  gateway = 3232238081;
  mtu = 1500;
}

abbrev adapters : AdapterManager
adapters = record { adapters = (60 ∷ [], ethernet) ∷ []; signals = [] }

abbrev empty : RouteManager
empty = record { adapter_routes = []; signals = [] }

abbrev info : NetworkInfo
info = record {
  adapter = 3232238090;
  sender = 3232238091;
  receiver = 3232238090;
  reception_time = 1000;
}

abbrev neighbour : Node
neighbour = record { identifier = 1011; address = 3232238092; jumps = 512 ∷ [] }

abbrev message : DiscoveryMessage
message = record { identifier = 1010; nodes = neighbour ∷ [] }

abbrev informed : RouteManager
informed = (process_discovery_message adapters message info empty).1

process_discovery_message_cases_example :
    (find_adapter 3232238090 adapters ≡ none)
      × (process_discovery_message adapters message info empty ≡ (false, empty))
    ⊎ ((a : Adapter) × (find_adapter 3232238090 adapters ≡ some a)
        × ((process_discovery_message adapters message info empty).0 ≡ true)
        × Seen informed a.guid (route_to info 1010 3232238091) 1000
        × All
            (λ (n : Node). Seen informed a.guid (route_to info n.identifier n.address) 1000)
            (neighbour ∷ []))
process_discovery_message_cases_example =
    process_discovery_message_cases adapters message info empty

abbrev gateway_route : PersistentRoute
gateway_route = record {
  identifier = route_to info 1010 3232238091;
  gateway = 3232238081;
  metric = 256;
  enabled = true;
}

process_persistent_route_cases_example :
    (find_adapter 3232238090 adapters ≡ none)
      × (process_persistent_route adapters gateway_route 2000 informed ≡ some (false, informed))
    ⊎ ((a : Adapter) × (m : RouteManager) × (find_adapter 3232238090 adapters ≡ some a)
        × (process_persistent_route adapters gateway_route 2000 informed ≡ some (true, m))
        × Persisted m a.guid gateway_route 2000)
process_persistent_route_cases_example =
    process_persistent_route_cases adapters gateway_route 2000 informed

update-AllMarked_example : AllMarked 10 1900 (update 10 1900 informed).adapter_routes
update-AllMarked_example = update-AllMarked 10 1900 informed

-- Routes to one node on two adapters, and the way to it over the second is shorter.
abbrev route_of : ℕ → Route
route_of jump = record {
  identifier = route_to info 1011 3232238092;
  last_discovery = 1000;
  last_data_message = 0;
  status = record {
    online = true;
    persistent = false;
    silent = false;
    jumps = jump ∷ 256 ∷ [];
    mtu = 1500;
  };
}

abbrev two_ways : RouteManager
two_ways = record {
  adapter_routes = (1 ∷ [], route_of 512 ∷ []) ∷ (2 ∷ [], route_of 256 ∷ []) ∷ [];
  signals = [];
}

abbrev outbound : Text
outbound = 3 ∷ []

other_adapter : ◌≢◌ {A = Text} (1 ∷ []) (3 ∷ [])
other_adapter e = cc e

find_routes_for_adapter-Covers_example :
    Covers (find_routes_for_adapter outbound two_ways) (route_of 512)
find_routes_for_adapter-Covers_example =
    find_routes_for_adapter-Covers outbound (1 ∷ []) (route_of 512 ∷ []) two_ways (route_of 512)
      other_adapter (Memᴰ.head refl) (Memᴰ.head refl) refl

announced : Memᴰ (route_of 256) (find_routes_for_adapter outbound two_ways)
unfolding find_routes_for_adapter collect_adapters collect_routes collect_route collect_online
    find_route same_route same_node is_shorter_route accumulate erase_route equal_list
announced = Memᴰ.head refl

find_routes_for_adapter-IsCandidate_example :
    IsCandidate outbound two_ways.adapter_routes (route_of 256)
find_routes_for_adapter-IsCandidate_example =
    find_routes_for_adapter-IsCandidate outbound two_ways (route_of 256) announced

find_routes_for_adapter-Unique_example : Unique (find_routes_for_adapter outbound two_ways)
find_routes_for_adapter-Unique_example = find_routes_for_adapter-Unique outbound two_ways
