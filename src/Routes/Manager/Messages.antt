-- ===== src/Routes/Manager/Messages.antt =====
-- What a discovery message and a persistent route do, on every branch.
use discnet.Common.{
  ℕ, ◌≡◌, ◌⊎◌, refl, ◌∙◌, inl, inr, Bool, true, false, List, [], ◌∷◌, All, none, some, Option-cases,
  Text, text_less, text_less-IsOrder, find, insert_or_assign, find-insert_or_assign,
}
use discnet.Network.Messages.DiscoveryMessage.{DiscoveryMessage, Node}
use discnet.Adapters.{Adapter, AdapterManager, find_adapter}
use discnet.Routes.{RouteIdentifier, Route, PersistentRoute}
use discnet.Routes.Manager.{
  RouteManager, NetworkInfo, find_route, change_route, process_route, process_nodes, process_from,
  process_discovery_message, set_persistent, make_persistent, persist_on, persist,
  process_persistent_route,
}
use discnet.Routes.Manager.Processing.{
  Seen, process_route-Seen, process_route-keeps, find_route-change_route,
}

-- The identifier of the route to a node, as the sender of a message reports it.
abbrev pub route_to : NetworkInfo → ℕ → ℕ → RouteIdentifier
route_to info id address = record {
  node = record { id = id; address = address };
  adapter = info.adapter;
  reporter = info.sender;
}

process_nodes-keeps :
    (a : Adapter) (info : NetworkInfo) (ns : List Node) (result : Bool) (m : RouteManager)
    (id : RouteIdentifier)
    → Seen m a.guid id info.reception_time
    → Seen (process_nodes a info ns result m).1 a.guid id info.reception_time
unfolding process_nodes
process_nodes-keeps a info [] result m id seen = seen
process_nodes-keeps a info (n ∷ ns) result m id seen =
    process_nodes-keeps a info ns _ _ id (process_route-keeps a _ _ id _ m seen)

process_nodes-Seen :
    (a : Adapter) (info : NetworkInfo) (ns : List Node) (result : Bool) (m : RouteManager)
    → All
        (λ n.
          Seen
            (process_nodes a info ns result m).1
            a.guid
            (route_to info n.identifier n.address)
            info.reception_time)
        ns
unfolding process_nodes
process_nodes-Seen a info [] result m = tt
process_nodes-Seen a info (n ∷ ns) result m = (
  process_nodes-keeps a info ns _ _ _ (process_route-Seen a _ _ _ m),
  process_nodes-Seen a info ns _ _,
)

process_nodes-answer :
    (a : Adapter) (info : NetworkInfo) (ns : List Node) (result : Bool) (m : RouteManager)
    → (process_nodes a info ns result m).0 ≡ result
unfolding process_nodes process_route
process_nodes-answer a info [] result m = refl
process_nodes-answer a info (n ∷ ns) true m = process_nodes-answer a info ns _ _
process_nodes-answer a info (n ∷ ns) false m = process_nodes-answer a info ns _ _

-- A discovery message on every branch. From an adapter that is not known it is refused and changes
-- nothing; otherwise the answer is true, and the sender and each node of the message have a route on
-- that adapter, reported by the sender and discovered when the message came.
pub process_discovery_message_cases :
    (adapters : AdapterManager) (message : DiscoveryMessage) (info : NetworkInfo) (m : RouteManager)
    → (find_adapter info.adapter adapters ≡ none)
        × (process_discovery_message adapters message info m ≡ (false, m))
      ⊎ ((a : Adapter) × (find_adapter info.adapter adapters ≡ some a)
          × ((process_discovery_message adapters message info m).0 ≡ true)
          × Seen
              (process_discovery_message adapters message info m).1
              a.guid
              (route_to info message.identifier info.sender)
              info.reception_time
          × All
              (λ n.
                Seen
                  (process_discovery_message adapters message info m).1
                  a.guid
                  (route_to info n.identifier n.address)
                  info.reception_time)
              message.nodes)
unfolding process_discovery_message process_from
process_discovery_message_cases adapters message info m =
    elim (Option-cases (find_adapter info.adapter adapters)) [
      | inl unknown ↦ inl (unknown, rw unknown refl)
      | inr (a, known) ↦ inr (
        a,
        known,
        rw known (process_nodes-answer a info message.nodes _ _ ∙ unfold process_route in refl),
        rw known (process_nodes-keeps a info message.nodes _ _ _ (process_route-Seen a _ _ _ m)),
        rw known (process_nodes-Seen a info message.nodes _ _),
      )
    ]

-- The route that a persistent route leaves.
pub record Persisted (m : RouteManager) (guid : Text) (route : PersistentRoute) (time : ℕ)
    : Type 0 where
  pub routes : List Route
  pub kept : Route
  pub routes-found : find text_less guid m.adapter_routes ≡ some routes
  pub route-found : find_route route.identifier routes ≡ some kept
  pub discovered : kept.last_discovery ≡ time
  pub marked : kept.status.persistent ≡ route.enabled

-- A persistent route never comes to the end of the routes that is dereferenced. On an adapter that
-- is not known it is refused and changes nothing; otherwise the answer is true, and the route is
-- there, discovered at this time and persistent exactly when the caller enables it.
pub process_persistent_route_cases :
    (adapters : AdapterManager) (route : PersistentRoute) (time : ℕ) (m : RouteManager)
    → (find_adapter route.identifier.adapter adapters ≡ none)
        × (process_persistent_route adapters route time m ≡ some (false, m))
      ⊎ ((a : Adapter) × (m' : RouteManager) × (find_adapter route.identifier.adapter adapters
            ≡ some a)
          × (process_persistent_route adapters route time m ≡ some (true, m'))
          × Persisted m' a.guid route time)
unfolding process_persistent_route persist persist_on make_persistent
process_persistent_route_cases adapters route time m =
    elim (Option-cases (find_adapter route.identifier.adapter adapters)) [
      | inl unknown ↦ inl (unknown, rw unknown refl)
      | inr (a, known) ↦
          let seen = process_route-Seen a time route.identifier (route.metric ∷ []) m in
          let after = (process_route a time route.identifier (route.metric ∷ []) m).1 in
          let mark = change_route route.identifier (set_persistent route.enabled) seen.routes in
          inr (
            a,
            record after {
              adapter_routes = insert_or_assign text_less a.guid mark after.adapter_routes;
            },
            known,
            rw (known, seen.routes-found, seen.route-found) (unfold process_route in refl),
            record {
              routes = mark;
              kept = set_persistent route.enabled seen.route;
              routes-found =
                  find-insert_or_assign text_less text_less-IsOrder a.guid _ after.adapter_routes;
              route-found =
                  find_route-change_route route.identifier (set_persistent route.enabled) seen.route
                    seen.routes (λ r. unfold set_persistent in refl) seen.route-found;
              discovered = unfold set_persistent in seen.discovered;
              marked = unfold set_persistent in refl;
            },
          )
    ]
