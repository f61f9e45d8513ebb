-- ===== src/Routes/Manager/Unique.antt =====
-- route_manager.cpp: the identifiers of the routes of an adapter.
use discnet.Common.{
  ℕ, ◌≡◌, ◌≢◌, refl, sym, ap, ◌∙◌, inl, inr, Bool, Bool-cases, List, [], ◌∷◌, ◌++◌, All, none,
  Option-cases, text_less, text_less-IsOrder, find, insert-absent, All-insert_or_assign, All-find,
}
use discnet.Network.Messages.DiscoveryMessage.{DiscoveryMessage, Node}
use discnet.Adapters.{Adapter, AdapterManager, find_adapter}
use discnet.Routes.{RouteIdentifier, Route, same_route, same_route-IsEquality}
use discnet.Routes.Manager.{
  AdapterRoutes, RouteManager, NetworkInfo, find_route, change_route, signal, new_route_of,
  process_known_adapter, process_adapter, process_route, process_nodes, process_from,
  process_discovery_message,
}

abbrev pub Unique : List Route → Type 0
Unique [] = Unit
Unique (r ∷ rs) = All (λ s. s.identifier ≢ r.identifier) rs × Unique rs

abbrev pub AllUnique : AdapterRoutes → Type 0
AllUnique = All (λ e. Unique e.1)

pub find_route-none :
    (id : RouteIdentifier) (rs : List Route)
    → find_route id rs ≡ none
    → All (λ s. s.identifier ≢ id) rs
unfolding find_route
find_route-none id [] e = tt
find_route-none id (r ∷ rs) e = elim (Bool-cases (same_route r.identifier id)) [
  | inl same ↦ absurd (cc (rw same at e))
  | inr other ↦ (
    λ same.
        let reflexive = same_route-IsEquality.reflexive id in
        absurd (cc (sym other ∙ ap (λ i. same_route i id) same ∙ reflexive)),
    find_route-none id rs (rw other at e),
  )
]

pub All-snoc :
    (P : Route → Type 0) (r : Route) (rs : List Route) → All P rs → P r → All P (rs ++ (r ∷ []))
All-snoc P r [] all h = (h, tt)
All-snoc P r (s ∷ rs) (this, others) h = (this, All-snoc P r rs others h)

pub Unique-snoc :
    (r : Route) (rs : List Route)
    → Unique rs
    → All (λ s. s.identifier ≢ r.identifier) rs
    → Unique (rs ++ (r ∷ []))
Unique-snoc r [] unique new = (tt, tt)
Unique-snoc r (s ∷ rs) (this, others) (different, new) =
    (All-snoc _ r rs this (λ e. different (sym e)), Unique-snoc r rs others new)

-- A change that keeps the identifier keeps the identifiers of the list.
All-change_route :
    (id other : RouteIdentifier) (f : Route → Route) (rs : List Route)
    → ((r : Route) → (f r).identifier ≡ r.identifier)
    → All (λ s. s.identifier ≢ other) rs
    → All (λ s. s.identifier ≢ other) (change_route id f rs)
unfolding change_route
All-change_route id other f [] keeps all = tt
All-change_route id other f (r ∷ rs) keeps (this, others) =
    elim (Bool-cases (same_route r.identifier id)) [
      | inl same ↦ rw same (λ e. this (sym (keeps r) ∙ e), others)
      | inr e ↦ rw e (this, All-change_route id other f rs keeps others)
    ]

Unique-change_route :
    (id : RouteIdentifier) (f : Route → Route) (rs : List Route)
    → ((r : Route) → (f r).identifier ≡ r.identifier)
    → Unique rs
    → Unique (change_route id f rs)
unfolding change_route
Unique-change_route id f [] keeps unique = tt
Unique-change_route id f (r ∷ rs) keeps (this, others) =
    elim (Bool-cases (same_route r.identifier id)) [
      | inl same ↦ rw same (rw (keeps r) this, others)
      | inr e ↦ rw e (
        All-change_route id r.identifier f rs keeps this,
        Unique-change_route id f rs keeps others,
      )
    ]

process_route-AllUnique :
    (a : Adapter) (time : ℕ) (id : RouteIdentifier) (jumps : List ℕ) (m : RouteManager)
    → AllUnique m.adapter_routes
    → AllUnique (process_route a time id jumps m).1.adapter_routes
unfolding process_route process_adapter process_known_adapter signal
process_route-AllUnique a time id jumps m unique =
    elim (Option-cases (find text_less a.guid m.adapter_routes)) [
      | inl absent ↦ rw absent (
          rw (insert-absent text_less text_less-IsOrder a.guid _ m.adapter_routes absent)
            (All-insert_or_assign text_less Unique a.guid _ m.adapter_routes (tt, tt) unique))
      | inr (rs, found) ↦
          let unique_rs = All-find text_less Unique a.guid rs m.adapter_routes unique found in
          rw found (elim (Option-cases (find_route id rs)) [
            | inl new ↦ rw new (
                All-insert_or_assign text_less Unique a.guid _ m.adapter_routes
                  (Unique-snoc (new_route_of a time id jumps) rs unique_rs
                    (unfold new_route_of in find_route-none id rs new))
                  unique)
            | inr (known, e) ↦ rw e (
                All-insert_or_assign text_less Unique a.guid _ m.adapter_routes
                  (Unique-change_route id _ rs (λ r. refl) unique_rs) unique)
          ])
    ]

process_nodes-AllUnique :
    (a : Adapter) (info : NetworkInfo) (ns : List Node) (result : Bool) (m : RouteManager)
    → AllUnique m.adapter_routes
    → AllUnique (process_nodes a info ns result m).1.adapter_routes
unfolding process_nodes
process_nodes-AllUnique a info [] result m unique = unique
process_nodes-AllUnique a info (n ∷ ns) result m unique =
    process_nodes-AllUnique a info ns _ _ (process_route-AllUnique a _ _ _ m unique)

-- Processing a discovery message keeps the identifiers of the routes of every adapter different.
pub process_discovery_message-AllUnique :
    (adapters : AdapterManager) (message : DiscoveryMessage) (info : NetworkInfo) (m : RouteManager)
    → AllUnique m.adapter_routes
    → AllUnique (process_discovery_message adapters message info m).1.adapter_routes
unfolding process_discovery_message process_from
process_discovery_message-AllUnique adapters message info m unique =
    elim (Option-cases (find_adapter info.adapter adapters)) [
      | inl unknown ↦ rw unknown unique
      | inr (a, known) ↦ rw known (
          process_nodes-AllUnique a info message.nodes _ _
            (process_route-AllUnique a _ _ _ m unique))
    ]
