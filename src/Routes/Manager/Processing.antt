-- ===== src/Routes/Manager/Processing.antt =====
-- What a discovery message and a persistent route leave among the routes.
use discnet.Common.{
  ℕ, ◌≡◌, ◌⊎◌, refl, ap, ◌∙◌, inl, inr, Bool-cases, List, [], ◌∷◌, ◌++◌, none, some, Option-cases,
  Text, text_less, text_less-IsOrder, find, insert-absent, find-insert_or_assign,
}
use mathlib.Core.Option.{map}
use discnet.Adapters.{Adapter}
use discnet.Routes.{RouteIdentifier, Route, same_route, same_route-IsEquality}
use discnet.Routes.Manager.{
  RouteManager, find_route, change_route, signal, new_route_of, process_known_adapter,
  process_adapter, process_route,
}

-- A route of the adapter `guid` that was discovered at `time`.
pub record Seen (m : RouteManager) (guid : Text) (id : RouteIdentifier) (time : ℕ) : Type 0 where
  pub routes : List Route
  pub route : Route
  pub routes-found : find text_less guid m.adapter_routes ≡ some routes
  pub route-found : find_route id routes ≡ some route
  pub discovered : route.last_discovery ≡ time

pub find_route-new :
    (id : RouteIdentifier) (r : Route) (rs : List Route)
    → find_route id rs ≡ none
    → r.identifier ≡ id
    → find_route id (rs ++ (r ∷ [])) ≡ some r
unfolding find_route
find_route-new id r [] absent e = rw (e, same_route-IsEquality.reflexive id) refl
find_route-new id r (s ∷ rs) absent e = elim (Bool-cases (same_route s.identifier id)) [
  | inl same ↦ absurd (cc (rw same at absent))
  | inr other ↦ rw other (find_route-new id r rs (rw other at absent) e)
]

pub find_route-old :
    (id : RouteIdentifier) (r known : Route) (rs : List Route)
    → find_route id rs ≡ some known
    → find_route id (rs ++ (r ∷ [])) ≡ some known
unfolding find_route
find_route-old id r known [] e = absurd (cc e)
find_route-old id r known (s ∷ rs) e = elim (Bool-cases (same_route s.identifier id)) [
  | inl same ↦ rw same (rw same at e)
  | inr other ↦ rw other (find_route-old id r known rs (rw other at e))
]

-- The route that is changed is found, and every other one is found as it was or changed.
pub find_route-change_route :
    (id : RouteIdentifier) (f : Route → Route) (known : Route) (rs : List Route)
    → ((r : Route) → (f r).identifier ≡ r.identifier)
    → find_route id rs ≡ some known
    → find_route id (change_route id f rs) ≡ some (f known)
unfolding find_route change_route
find_route-change_route id f known [] keeps e = absurd (cc e)
find_route-change_route id f known (s ∷ rs) keeps e =
    elim (Bool-cases (same_route s.identifier id)) [
      | inl same ↦
          rw (same, ap (λ i. same_route i id) (keeps s) ∙ same) (ap (λ o. map f o) (rw same at e))
      | inr other ↦
          rw other (rw other (find_route-change_route id f known rs keeps (rw other at e)))
    ]

find_route-change_other :
    (id other : RouteIdentifier) (f : Route → Route) (known : Route) (rs : List Route)
    → ((r : Route) → (f r).identifier ≡ r.identifier)
    → find_route id rs ≡ some known
    → (find_route id (change_route other f rs) ≡ some known)
      ⊎ (find_route id (change_route other f rs) ≡ some (f known))
unfolding find_route change_route
find_route-change_other id other f known [] keeps e = absurd (cc e)
find_route-change_other id other f known (s ∷ rs) keeps e =
    elim (Bool-cases (same_route s.identifier other)) [
      | inl changed ↦ elim (Bool-cases (same_route s.identifier id)) [
        | inl same ↦
            rw (changed, ap (λ i. same_route i id) (keeps s) ∙ same)
              ((inr (ap (λ o. map f o) (rw same at e))))
        | inr different ↦
            rw (changed, ap (λ i. same_route i id) (keeps s) ∙ different)
              ((inl (rw different at e)))
      ]
      | inr kept ↦ elim (Bool-cases (same_route s.identifier id)) [
        | inl same ↦ rw kept (rw same (inl (rw same at e)))
        | inr different ↦
            rw kept
              (rw different (find_route-change_other id other f known rs keeps (rw different at e)))
      ]
    ]

abbrev touch : ℕ → Route → Route
touch time r = record r { last_discovery = time }

pub process_route-Seen :
    (a : Adapter) (time : ℕ) (id : RouteIdentifier) (jumps : List ℕ) (m : RouteManager)
    → Seen (process_route a time id jumps m).1 a.guid id time
unfolding process_route process_adapter process_known_adapter signal
process_route-Seen a time id jumps m =
    elim (Option-cases (find text_less a.guid m.adapter_routes)) [
      | inl absent ↦ rw absent (record {
        routes = new_route_of a time id jumps ∷ [];
        route = new_route_of a time id jumps;
        routes-found =
            ap (λ x. find text_less a.guid x)
              (insert-absent text_less text_less-IsOrder a.guid _ m.adapter_routes absent)
            ∙ find-insert_or_assign text_less text_less-IsOrder a.guid _ m.adapter_routes;
        route-found =
            find_route-new id (new_route_of a time id jumps) [] (unfold find_route in refl)
              (unfold new_route_of in refl);
        discovered = unfold new_route_of in refl;
      })
      | inr (rs, found) ↦ rw found (elim (Option-cases (find_route id rs)) [
        | inl new ↦ rw new (record {
          routes = rs ++ (new_route_of a time id jumps ∷ []);
          route = new_route_of a time id jumps;
          routes-found =
              find-insert_or_assign text_less text_less-IsOrder a.guid _ m.adapter_routes;
          route-found =
              find_route-new id (new_route_of a time id jumps) rs new (unfold new_route_of in refl);
          discovered = unfold new_route_of in refl;
        })
        | inr (known, e) ↦ rw e (record {
          routes = change_route id (touch time) rs;
          route = touch time known;
          routes-found =
              find-insert_or_assign text_less text_less-IsOrder a.guid _ m.adapter_routes;
          route-found = find_route-change_route id (touch time) known rs (λ r. refl) e;
          discovered = refl;
        })
      ])
    ]

-- A route that was discovered at this time still is.
pub process_route-keeps :
    (a : Adapter) (time : ℕ) (id other : RouteIdentifier) (jumps : List ℕ) (m : RouteManager)
    → Seen m a.guid other time
    → Seen (process_route a time id jumps m).1 a.guid other time
unfolding process_route process_adapter process_known_adapter signal
process_route-keeps a time id other jumps m seen =
    rw (seen.routes-found) (elim (Option-cases (find_route id seen.routes)) [
      | inl new ↦ rw new (record {
        routes = seen.routes ++ (new_route_of a time id jumps ∷ []);
        route = seen.route;
        routes-found = find-insert_or_assign text_less text_less-IsOrder a.guid _ m.adapter_routes;
        route-found = find_route-old other _ seen.route seen.routes seen.route-found;
        discovered = seen.discovered;
      })
      | inr (known, e) ↦
          rw e
            (elim (find_route-change_other other id (touch time) seen.route seen.routes (λ r. refl)
              seen.route-found) [
                | inl kept ↦ record {
                  routes = change_route id (touch time) seen.routes;
                  route = seen.route;
                  routes-found =
                      find-insert_or_assign text_less text_less-IsOrder a.guid _ m.adapter_routes;
                  route-found = kept;
                  discovered = seen.discovered;
                }
                | inr changed ↦ record {
                  routes = change_route id (touch time) seen.routes;
                  route = touch time seen.route;
                  routes-found =
                      find-insert_or_assign text_less text_less-IsOrder a.guid _ m.adapter_routes;
                  route-found = changed;
                  discovered = refl;
                }
              ])
    ])
