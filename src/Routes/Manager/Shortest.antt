-- ===== src/Routes/Manager/Shortest.antt =====
-- route_manager.cpp: the length of the routes that are announced on an adapter.
use discnet.Common.{
  ℕ, ◌≤◌, ◌≡◌, ◌≢◌, ◌⊎◌, refl, sym, ap, subst, ◌∙◌, inl, inr, arith, true, false, Bool-cases, ltb,
  ltb→lt, ltb→le, List, [], ◌∷◌, ◌++◌, some, Option-cases, Text,
}
use mathlib.Core.Option
use mathlib.Core.List.{Memᴰ}
use mathlib.Core.List.Memᴰ
use discnet.Adapters.{equal_text}
use discnet.Adapters.Update.{equal_text-IsEquality}
use discnet.Routes.{
  RouteIdentifier, Route, same_route, same_route-IsEquality, accumulate, is_shorter_route,
}
use discnet.Routes.Manager.{AdapterRoutes, RouteManager, find_route}
use discnet.Routes.Manager.Selection.{
  erase_route, collect_online, collect_route, collect_route-online, collect_route-offline,
  collect_routes, collect_adapters, find_routes_for_adapter,
}

abbrev pub metric_of : Route → ℕ
metric_of r = accumulate r.status.jumps 0

-- A route of the list that goes where `r` goes and is no longer.
pub record Covers (rs : List Route) (r : Route) : Type 0 where
  pub best : Route
  pub listed : Memᴰ best rs
  pub same_identifier : best.identifier ≡ r.identifier
  pub no_longer : metric_of best ≤ metric_of r

find_route-Memᴰ :
    (id : RouteIdentifier) (s : Route) (rs : List Route)
    → find_route id rs ≡ some s
    → Memᴰ s rs × (s.identifier ≡ id)
unfolding find_route
find_route-Memᴰ id s [] e = absurd (cc e)
find_route-Memᴰ id s (r ∷ rs) e = elim (Bool-cases (same_route r.identifier id)) [
  | inl same ↦
      let here = Option.some-injective r s (rw same at e) in
      (
        Memᴰ.head (sym here),
        ap (λ (x : Route). x.identifier) (sym here)
            ∙ same_route-IsEquality.sound r.identifier id same,
      )
  | inr other ↦
      let (listed, same) = find_route-Memᴰ id s rs (rw other at e) in (Memᴰ.tail listed, same)
]

-- Erasing takes away the route that is found, and no other.
erase_route-Memᴰ :
    (id : RouteIdentifier) (s existing : Route) (rs : List Route)
    → find_route id rs ≡ some existing
    → Memᴰ s rs
    → (s ≡ existing) ⊎ Memᴰ s (erase_route id rs)
unfolding find_route erase_route
erase_route-Memᴰ id s existing [] e listed = absurd (cc e)
erase_route-Memᴰ id s existing (r ∷ rs) e listed = elim (Bool-cases (same_route r.identifier id)) [
  | inl same ↦ elim (Memᴰ.cases_cons listed) [
    | inl here ↦ inl (here ∙ Option.some-injective r existing (rw same at e))
    | inr there ↦ rw same (inr there)
  ]
  | inr other ↦ elim (Memᴰ.cases_cons listed) [
    | inl here ↦ rw other (inr (Memᴰ.head here))
    | inr there ↦ elim (erase_route-Memᴰ id s existing rs (rw other at e) there) [
      | inl erased ↦ inl erased
      | inr kept ↦ rw other (inr (Memᴰ.tail kept))
    ]
  ]
]

collect_route-here :
    (r : Route) (rs : List Route) → r.status.online ≡ true → Covers (collect_route r rs) r
unfolding collect_online is_shorter_route
collect_route-here r rs online =
    let appended : (xs : List Route) → Covers (xs ++ (r ∷ [])) r = λ xs. record {
      best = r;
      listed = Memᴰ.append_right xs (Memᴰ.head refl);
      same_identifier = refl;
      no_longer = omega arith;
    } in
    rw (collect_route-online r rs online) (elim (Option-cases (find_route r.identifier rs)) [
      | inl new ↦ rw new (appended rs)
      | inr (existing, found) ↦
          let (listed, same) = find_route-Memᴰ r.identifier existing rs found in
          rw found (elim (Bool-cases (ltb (metric_of r) (metric_of existing))) [
            | inl shorter ↦ rw shorter (appended (erase_route r.identifier rs))
            | inr longer ↦ rw longer (record {
              best = existing;
              listed = listed;
              same_identifier = same;
              no_longer = ltb→le (metric_of r) (metric_of existing) longer;
            })
          ])
    ])

collect_route-keeps : (r q : Route) (rs : List Route) → Covers rs q → Covers (collect_route r rs) q
unfolding collect_online is_shorter_route
collect_route-keeps r q rs c =
    let kept : (xs : List Route) → Memᴰ c.best xs → Covers xs q = λ xs listed. record {
      best = c.best;
      listed = listed;
      same_identifier = c.same_identifier;
      no_longer = c.no_longer;
    } in
    elim (Bool-cases r.status.online) [
      | inr offline ↦ rw (collect_route-offline r rs offline) c
      | inl online ↦
          rw (collect_route-online r rs online) (elim (Option-cases (find_route r.identifier rs)) [
            | inl new ↦ rw new (kept (rs ++ (r ∷ [])) (Memᴰ.append_left (r ∷ []) c.listed))
            | inr (existing, found) ↦
                rw found (elim (Bool-cases (ltb (metric_of r) (metric_of existing))) [
                  | inr longer ↦ rw longer c
                  | inl shorter ↦
                      rw shorter
                        (elim (erase_route-Memᴰ r.identifier c.best existing rs found c.listed) [
                          | inr stays ↦ kept _ (Memᴰ.append_left (r ∷ []) stays)
                          | inl erased ↦ record {
                            best = r;
                            listed =
                                Memᴰ.append_right (erase_route r.identifier rs) (Memᴰ.head refl);
                            same_identifier =
                                sym (find_route-Memᴰ r.identifier existing rs found).1
                                ∙ ap (λ (x : Route). x.identifier) (sym erased)
                                ∙ c.same_identifier;
                            no_longer = omega (
                              arith,
                              ltb→lt (metric_of r) (metric_of existing) shorter,
                              ap metric_of erased,
                              c.no_longer,
                            );
                          }
                        ])
                ])
          ])
    ]

collect_routes-keeps :
    (rs : List Route) (q : Route) (result : List Route)
    → Covers result q
    → Covers (collect_routes rs result) q
unfolding collect_routes
collect_routes-keeps [] q result c = c
collect_routes-keeps (r ∷ rs) q result c =
    collect_routes-keeps rs q (collect_route r result) (collect_route-keeps r q result c)

collect_routes-Covers :
    (rs : List Route) (q : Route) (result : List Route)
    → Memᴰ q rs
    → q.status.online ≡ true
    → Covers (collect_routes rs result) q
unfolding collect_routes
collect_routes-Covers [] q result listed online = absurd (Memᴰ.not-nil listed)
collect_routes-Covers (r ∷ rs) q result listed online = elim (Memᴰ.cases_cons listed) [
  | inl here ↦
      collect_routes-keeps rs q (collect_route r result)
        (rw (sym here) (collect_route-here q result online))
  | inr there ↦ collect_routes-Covers rs q (collect_route r result) there online
]

collect_adapters-keeps :
    (outbound : Text) (m : AdapterRoutes) (q : Route) (result : List Route)
    → Covers result q
    → Covers (collect_adapters outbound m result) q
unfolding collect_adapters
collect_adapters-keeps outbound [] q result c = c
collect_adapters-keeps outbound ((guid, rs) ∷ m) q result c =
    elim (Bool-cases (equal_text guid outbound)) [
      | inl same ↦ rw same (collect_adapters-keeps outbound m q result c)
      | inr other ↦
          rw other (collect_adapters-keeps outbound m q _ (collect_routes-keeps rs q result c))
    ]

collect_adapters-Covers :
    (outbound guid : Text) (rs : List Route) (m : AdapterRoutes) (q : Route) (result : List Route)
    → Memᴰ (guid, rs) m
    → equal_text guid outbound ≡ false
    → Memᴰ q rs
    → q.status.online ≡ true
    → Covers (collect_adapters outbound m result) q
unfolding collect_adapters
collect_adapters-Covers outbound guid rs [] q result entry other listed online =
    absurd (Memᴰ.not-nil entry)
collect_adapters-Covers outbound guid rs ((j, js) ∷ m) q result entry other listed online =
    elim (Memᴰ.cases_cons entry) [
      | inl here ↦
          let differs : equal_text j outbound ≡ false =
            ap (λ (e : Text × List Route). equal_text e.0 outbound) (sym here) ∙ other in
          let within : Memᴰ q js = subst (λ (e : Text × List Route). Memᴰ q e.1) here listed in
          rw differs (
            collect_adapters-keeps outbound m q _ (collect_routes-Covers js q result within online))
      | inr there ↦ collect_adapters-Covers outbound guid rs m q _ there other listed online
    ]

-- For every route of another adapter that is online, a route to the same node by the same adapter
-- and reporter is announced that is no longer.
pub find_routes_for_adapter-Covers :
    (outbound guid : Text) (rs : List Route) (m : RouteManager) (q : Route)
    → guid ≢ outbound
    → Memᴰ (guid, rs) m.adapter_routes
    → Memᴰ q rs
    → q.status.online ≡ true
    → Covers (find_routes_for_adapter outbound m) q
unfolding find_routes_for_adapter
find_routes_for_adapter-Covers outbound guid rs m q other entry listed online =
    collect_adapters-Covers outbound guid rs m.adapter_routes q [] entry
      (elim (Bool-cases (equal_text guid outbound)) [
        | inl same ↦ absurd (other (equal_text-IsEquality.sound guid outbound same))
        | inr different ↦ different
      ])
      listed online
