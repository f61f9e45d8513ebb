-- ===== src/Routes/Manager/Distinct.antt =====
-- route_manager.cpp: the identifiers of the routes that are announced on an adapter.
use discnet.Common.{
  ◌≢◌, sym, ap, subst, ◌∙◌, inl, inr, Bool-cases, List, [], ◌∷◌, All, Option-cases, Text,
}
use discnet.Adapters.{equal_text}
use discnet.Routes.{RouteIdentifier, Route, same_route, same_route-IsEquality, is_shorter_route}
use discnet.Routes.Manager.{AdapterRoutes, RouteManager, find_route}
use discnet.Routes.Manager.Unique.{Unique, Unique-snoc, find_route-none}
use discnet.Routes.Manager.Selection.{
  erase_route, collect_online, collect_route, collect_route-online, collect_route-offline,
  collect_routes, collect_adapters, find_routes_for_adapter,
}

All-erase_route :
    (P : Route → Type 0) (id : RouteIdentifier) (rs : List Route)
    → All P rs
    → All P (erase_route id rs)
unfolding erase_route
All-erase_route P id [] all = tt
All-erase_route P id (r ∷ rs) (this, others) = elim (Bool-cases (same_route r.identifier id)) [
  | inl same ↦ rw same others
  | inr e ↦ rw e (this, All-erase_route P id rs others)
]

-- Where the identifiers differ, none is left of the one that was erased.
erase_route-Unique :
    (id : RouteIdentifier) (rs : List Route)
    → Unique rs
    → Unique (erase_route id rs) × All (λ s. s.identifier ≢ id) (erase_route id rs)
unfolding erase_route
erase_route-Unique id [] unique = (tt, tt)
erase_route-Unique id (r ∷ rs) (this, others) = elim (Bool-cases (same_route r.identifier id)) [
  | inl same ↦ rw same (
    others,
    subst (λ i. All (λ s. s.identifier ≢ i) rs) (same_route-IsEquality.sound r.identifier id same)
        this,
  )
  | inr e ↦
      let (rest, gone) = erase_route-Unique id rs others in
      rw e (
        (All-erase_route _ id rs this, rest),
        (
          (λ same.
              absurd
                (cc (sym e ∙ ap (λ i. same_route i id) same ∙ same_route-IsEquality.reflexive id))),
          gone,
        ),
      )
]

collect_route-Unique : (r : Route) (rs : List Route) → Unique rs → Unique (collect_route r rs)
unfolding collect_online
collect_route-Unique r rs unique = elim (Bool-cases r.status.online) [
  | inr offline ↦ rw (collect_route-offline r rs offline) unique
  | inl online ↦
      rw (collect_route-online r rs online) (elim (Option-cases (find_route r.identifier rs)) [
        | inl new ↦ rw new (Unique-snoc r rs unique (find_route-none r.identifier rs new))
        | inr (existing, found) ↦
            let (rest, gone) = erase_route-Unique r.identifier rs unique in
            rw found (elim (Bool-cases (is_shorter_route r existing)) [
              | inl shorter ↦ rw shorter (Unique-snoc r (erase_route r.identifier rs) rest gone)
              | inr longer ↦ rw longer unique
            ])
      ])
]

collect_routes-Unique :
    (rs : List Route) (result : List Route) → Unique result → Unique (collect_routes rs result)
unfolding collect_routes
collect_routes-Unique [] result unique = unique
collect_routes-Unique (r ∷ rs) result unique =
    collect_routes-Unique rs (collect_route r result) (collect_route-Unique r result unique)

collect_adapters-Unique :
    (outbound : Text) (m : AdapterRoutes) (result : List Route)
    → Unique result
    → Unique (collect_adapters outbound m result)
unfolding collect_adapters
collect_adapters-Unique outbound [] result unique = unique
collect_adapters-Unique outbound ((guid, rs) ∷ m) result unique =
    elim (Bool-cases (equal_text guid outbound)) [
      | inl same ↦ rw same (collect_adapters-Unique outbound m result unique)
      | inr other ↦
          rw other (collect_adapters-Unique outbound m _ (collect_routes-Unique rs result unique))
    ]

-- The routes that are announced have different identifiers.
pub find_routes_for_adapter-Unique :
    (outbound : Text) (m : RouteManager) → Unique (find_routes_for_adapter outbound m)
unfolding find_routes_for_adapter
find_routes_for_adapter-Unique outbound m = collect_adapters-Unique outbound m.adapter_routes [] tt
