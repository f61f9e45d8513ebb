-- ===== src/Routes/Manager/Lasting.antt =====
-- route_manager.cpp: the update keeps the routes that are known, with the time of their discovery.
use discnet.Common.{
  ℕ, ◌≡◌, refl, ap, ◌∙◌, inl, inr, Bool, true, false, Bool-cases, List, [], ◌∷◌, some,
  some-injective, Text, text_less, find, equivalent,
}
use discnet.Routes.{RouteIdentifier, Route, same_route}
use discnet.Routes.Manager.{
  AdapterRoutes, RouteManager, set_online, change_state, find_route, update_route, update_routes,
  update_adapters, update,
}
use discnet.Routes.Manager.Kept.{update_route-identifier}
use discnet.Routes.Manager.Processing.{Seen}

change_state-discovered :
    (on was : Bool) (r : Route) → (change_state on was r).0.last_discovery ≡ r.last_discovery
unfolding change_state set_online
change_state-discovered true true r = refl
change_state-discovered true false r = refl
change_state-discovered false true r = refl
change_state-discovered false false r = refl

find_route-update_routes :
    (second now : ℕ) (id : RouteIdentifier) (rs : List Route) (r : Route)
    → find_route id rs ≡ some r
    → find_route id (update_routes second now rs).0 ≡ some (update_route second now r).0
unfolding find_route update_routes
find_route-update_routes second now id [] r e = absurd (cc e)
find_route-update_routes second now id (s ∷ rs) r e =
    rw (update_route-identifier second now s) (elim (Bool-cases (same_route s.identifier id)) [
      | inl same ↦
          rw same
            (ap (λ (x : Route). some (update_route second now x).0) (some-injective (rw same at e)))
      | inr other ↦ rw other (find_route-update_routes second now id rs r (rw other at e))
    ])

find-update_adapters :
    (second now : ℕ) (guid : Text) (m : AdapterRoutes) (rs : List Route)
    → find text_less guid m ≡ some rs
    → find text_less guid (update_adapters second now m).0 ≡ some (update_routes second now rs).0
unfolding find update_adapters
find-update_adapters second now guid [] rs e = absurd (cc e)
find-update_adapters second now guid ((k, qs) ∷ m) rs e =
    elim (Bool-cases (equivalent text_less k guid)) [
      | inl same ↦
          rw same (ap (λ x. some (update_routes second now x).0) (some-injective (rw same at e)))
      | inr other ↦ rw other (find-update_adapters second now guid m rs (rw other at e))
    ]

-- A route that was discovered at some time is there after an update, with that time.
pub update-Seen :
    (second now : ℕ) (m : RouteManager) (guid : Text) (id : RouteIdentifier) (time : ℕ)
    → Seen m guid id time
    → Seen (update second now m) guid id time
unfolding update update_route
update-Seen second now m guid id time seen = record {
  routes = (update_routes second now seen.routes).0;
  route = (update_route second now seen.route).0;
  routes-found =
      find-update_adapters second now guid m.adapter_routes seen.routes seen.routes-found;
  route-found = find_route-update_routes second now id seen.routes seen.route seen.route-found;
  discovered = change_state-discovered _ _ seen.route ∙ seen.discovered;
}
