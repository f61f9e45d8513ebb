-- ===== src/Routes/Manager/Selection.antt =====
-- route_manager.cpp: the routes that are announced on an adapter.
use discnet.Common.{
  ◌≡◌, ap, true, false, not, if◌then◌else◌, List, [], ◌∷◌, ◌++◌, Option, none, some, Text,
}
use discnet.Adapters.{equal_text}
use discnet.Routes.{RouteIdentifier, Route, same_route, is_shorter_route}
use discnet.Routes.Manager.{AdapterRoutes, RouteManager, find_route}

-- `result.erase(existing_route)`.
unfoldable pub erase_route : RouteIdentifier → List Route → List Route
erase_route id [] = []
erase_route id (route ∷ routes) =
    let rest = erase_route id routes in
    if same_route route.identifier id then routes else route ∷ rest

unfoldable pub collect_online : Option Route → Route → List Route → List Route
collect_online none route result = result ++ (route ∷ [])
collect_online (some existing) route result =
    if is_shorter_route route existing
    then erase_route route.identifier result ++ (route ∷ [])
    else result

unfoldable pub collect_route : Route → List Route → List Route
collect_route route result =
    if route.status.online
    then collect_online (find_route route.identifier result) route result
    else result

unfoldable pub collect_routes : List Route → List Route → List Route
collect_routes [] result = result
collect_routes (route ∷ routes) result = collect_routes routes (collect_route route result)

unfoldable pub collect_adapters : Text → AdapterRoutes → List Route → List Route
collect_adapters outbound [] result = result
collect_adapters outbound ((guid, routes) ∷ m) result =
    collect_adapters outbound m
      (if not (equal_text guid outbound) then collect_routes routes result else result)

unfoldable pub find_routes_for_adapter : Text → RouteManager → List Route
find_routes_for_adapter outbound m = collect_adapters outbound m.adapter_routes []

unfoldable pub find_routes_on_adapter : Text → AdapterRoutes → List Route
find_routes_on_adapter outbound [] = []
find_routes_on_adapter outbound ((guid, routes) ∷ m) =
    let rest = find_routes_on_adapter outbound m in
    if equal_text guid outbound then routes else rest

pub collect_route-online :
    (r : Route) (rs : List Route)
    → r.status.online ≡ true
    → collect_route r rs ≡ collect_online (find_route r.identifier rs) r rs
unfolding collect_route
collect_route-online r rs e =
    ap (λ b. if b then collect_online (find_route r.identifier rs) r rs else rs) e

pub collect_route-offline :
    (r : Route) (rs : List Route) → r.status.online ≡ false → collect_route r rs ≡ rs
unfolding collect_route
collect_route-offline r rs e =
    ap (λ b. if b then collect_online (find_route r.identifier rs) r rs else rs) e
