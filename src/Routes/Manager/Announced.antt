-- ===== src/Routes/Manager/Announced.antt =====
-- route_manager.cpp: which routes are announced on an adapter.
use discnet.Common.{
  ◌≡◌, ◌≢◌, ◌⊎◌, refl, sym, ap, ◌∙◌, inl, inr, true, Bool-cases, List, [], ◌∷◌, ◌++◌, Option-cases,
  Text,
}
use mathlib.Core.List.{Memᴰ}
use mathlib.Core.List.Memᴰ
use discnet.Adapters.{equal_text}
use discnet.Adapters.Update.{equal_text-IsEquality}
use discnet.Routes.{RouteIdentifier, Route, same_route, is_shorter_route}
use discnet.Routes.Manager.{AdapterRoutes, RouteManager, find_route}
use discnet.Routes.Manager.Selection.{
  erase_route, collect_online, collect_route, collect_route-online, collect_route-offline,
  collect_routes, collect_adapters, find_routes_for_adapter,
}

-- An online route of another adapter.
pub record IsCandidate (outbound : Text) (m : AdapterRoutes) (s : Route) : Type 0 where
  pub guid : Text
  pub routes : List Route
  pub other : guid ≢ outbound
  pub entry : Memᴰ (guid, routes) m
  pub listed : Memᴰ s routes
  pub online : s.status.online ≡ true

erase_route-of :
    (id : RouteIdentifier) (s : Route) (rs : List Route) → Memᴰ s (erase_route id rs) → Memᴰ s rs
unfolding erase_route
erase_route-of id s [] listed = listed
erase_route-of id s (r ∷ rs) listed = elim (Bool-cases (same_route r.identifier id)) [
  | inl same ↦ Memᴰ.tail (rw same at listed)
  | inr other ↦ elim (Memᴰ.cases_cons (rw other at listed)) [
    | inl here ↦ Memᴰ.head here
    | inr there ↦ Memᴰ.tail (erase_route-of id s rs there)
  ]
]

snoc-cases : (s r : Route) (rs : List Route) → Memᴰ s (rs ++ (r ∷ [])) → Memᴰ s rs ⊎ (s ≡ r)
snoc-cases s r rs listed = elim (Memᴰ.append_cases rs listed) [
  | inl old ↦ inl old
  | inr new ↦ inr (Memᴰ.eq_of_singleton new)
]

-- A step adds at most its own route, when that is online.
collect_route-of :
    (r s : Route) (rs : List Route)
    → Memᴰ s (collect_route r rs)
    → Memᴰ s rs ⊎ ((s ≡ r) × (r.status.online ≡ true))
unfolding collect_online
collect_route-of r s rs listed = elim (Bool-cases r.status.online) [
  | inr offline ↦ inl (rw (collect_route-offline r rs offline) at listed)
  | inl online ↦
      let here = rw (collect_route-online r rs online) at listed in
      elim (Option-cases (find_route r.identifier rs)) [
        | inl new ↦ elim (snoc-cases s r rs (rw new at here)) [
          | inl old ↦ inl old
          | inr same ↦ inr (same, online)
        ]
        | inr (existing, found) ↦
            let here' = rw found at here in
            elim (Bool-cases (is_shorter_route r existing)) [
              | inr longer ↦ inl (rw longer at here')
              | inl shorter ↦
                  elim (snoc-cases s r (erase_route r.identifier rs) (rw shorter at here')) [
                    | inl old ↦ inl (erase_route-of r.identifier s rs old)
                    | inr same ↦ inr (same, online)
                  ]
            ]
      ]
]

collect_routes-of :
    (rs : List Route) (s : Route) (result : List Route)
    → Memᴰ s (collect_routes rs result)
    → Memᴰ s result ⊎ (Memᴰ s rs × (s.status.online ≡ true))
unfolding collect_routes
collect_routes-of [] s result listed = inl listed
collect_routes-of (r ∷ rs) s result listed =
    elim (collect_routes-of rs s (collect_route r result) listed) [
      | inr (within, online) ↦ inr (Memᴰ.tail within, online)
      | inl before ↦ elim (collect_route-of r s result before) [
        | inl old ↦ inl old
        | inr (same, online) ↦
            inr (Memᴰ.head same, ap (λ (x : Route). x.status.online) same ∙ online)
      ]
    ]

later :
    (outbound : Text) (e : Text × List Route) (m : AdapterRoutes) (s : Route)
    → IsCandidate outbound m s
    → IsCandidate outbound (e ∷ m) s
later outbound e m s c = record {
  guid = c.guid;
  routes = c.routes;
  other = c.other;
  entry = Memᴰ.tail c.entry;
  listed = c.listed;
  online = c.online;
}

collect_adapters-of :
    (outbound : Text) (m : AdapterRoutes) (s : Route) (result : List Route)
    → Memᴰ s (collect_adapters outbound m result)
    → Memᴰ s result ⊎ IsCandidate outbound m s
unfolding collect_adapters
collect_adapters-of outbound [] s result listed = inl listed
collect_adapters-of outbound ((guid, rs) ∷ m) s result listed =
    elim (collect_adapters-of outbound m s _ listed) [
      | inr c ↦ inr (later outbound (guid, rs) m s c)
      | inl before ↦ elim (Bool-cases (equal_text guid outbound)) [
        | inl same ↦ inl (rw same at before)
        | inr other ↦ elim (collect_routes-of rs s result (rw other at before)) [
          | inl old ↦ inl old
          | inr (within, online) ↦ inr (record {
            guid = guid;
            routes = rs;
            other = λ e. absurd (
                cc (
                  sym other
                  ∙ ap (λ g. equal_text g outbound) e
                  ∙ equal_text-IsEquality.reflexive outbound));
            entry = Memᴰ.head refl;
            listed = within;
            online = online;
          })
        ]
      ]
    ]

-- Every route that is announced is an online route of another adapter.
pub find_routes_for_adapter-IsCandidate :
    (outbound : Text) (m : RouteManager) (s : Route)
    → Memᴰ s (find_routes_for_adapter outbound m)
    → IsCandidate outbound m.adapter_routes s
unfolding find_routes_for_adapter
find_routes_for_adapter-IsCandidate outbound m s listed =
    elim (collect_adapters-of outbound m.adapter_routes s [] listed) [
      | inl impossible ↦ absurd (Memᴰ.not-nil impossible)
      | inr c ↦ c
    ]
