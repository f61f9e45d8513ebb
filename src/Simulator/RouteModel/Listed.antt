-- ===== src/Simulator/RouteModel/Listed.antt =====
-- node.cpp and models/RouteModel.cpp: the rows of the table and the routes of the manager.
use discnet.Common.{
  ℕ, ◌≡◌, refl, sym, ap, subst, ◌∙◌, inl, inr, Bool, Bool-cases, List, [], ◌∷◌, ◌++◌, Option-cases,
  text_less, text_less-IsOrder, find, insert-absent, All-insert_or_assign, All-find,
}
use discnet.Network.Messages.DiscoveryMessage.{DiscoveryMessage, Node}
use discnet.Adapters.{Adapter, AdapterManager, find_adapter}
use discnet.Routes.{RouteIdentifier, Route, same_route}
use discnet.Routes.Manager
use discnet.Routes.Manager.{
  Signal, new_route, online_state_changed, AdapterRoutes, RouteManager, NetworkInfo, find_route,
  change_route, signal, new_route_of, update_routes, update_adapters, process_known_adapter,
  process_adapter, process_route, process_nodes, process_from, process_discovery_message,
}
use discnet.Routes.Manager.Unique.{Unique, All-snoc}
use discnet.Routes.Manager.Kept.{update_route-identifier}
use discnet.Simulator.RouteModel.{RouteModel}
use discnet.Simulator.RouteModel.Connection.{
  slots, new_table, new_manager, table, Call, received, updated_at, call, run,
}
use discnet.Simulator.RouteModel.Slots.{
  Has, AreShown, Shown, slots-Unique, slots-append, slots-Shown, new_route-Has,
}

-- No two rows have the same identifier, and every route has a row.
pub record IsListed (m : RouteManager) : Type 0 where
  pub unique : Unique (table m).rows
  pub shown : Shown (table m).rows m.adapter_routes

-- The manager sent more signals, and its routes have rows behind them.
sent-IsListed :
    (m after : RouteManager) (sent : List Signal)
    → after.signals ≡ m.signals ++ sent
    → IsListed m
    → Shown (slots sent (table m)).rows after.adapter_routes
    → IsListed after
unfolding table
sent-IsListed m after sent more listed shown =
    let now = ap (λ es. slots es new_table) more ∙ slots-append m.signals sent new_table in
    record {
      unique =
          subst (λ (t : RouteModel). Unique t.rows) (sym now)
            (slots-Unique sent (table m) listed.unique);
      shown = subst (λ (t : RouteModel). Shown t.rows after.adapter_routes) (sym now) shown;
    }

change_route-AreShown :
    (rows : List Route) (id : RouteIdentifier) (f : Route → Route) (rs : List Route)
    → ((r : Route) → (f r).identifier ≡ r.identifier)
    → AreShown rows rs
    → AreShown rows (change_route id f rs)
unfolding change_route
change_route-AreShown rows id f [] keeps shown = tt
change_route-AreShown rows id f (r ∷ rs) keeps (this, others) =
    elim (Bool-cases (same_route r.identifier id)) [
      | inl same ↦ rw same (subst (λ i. Has i rows) (sym (keeps r)) this, others)
      | inr other ↦ rw other (this, change_route-AreShown rows id f rs keeps others)
    ]

process_route-IsListed :
    (a : Adapter) (time : ℕ) (id : RouteIdentifier) (jumps : List ℕ) (m : RouteManager)
    → IsListed m
    → IsListed (process_route a time id jumps m).1
unfolding process_route process_adapter process_known_adapter signal
process_route-IsListed a time id jumps m listed =
    let route = new_route_of a time id jumps in
    let sent = new_route route ∷ [] in
    let before = slots-Shown sent (table m) m.adapter_routes listed.shown in
    let this = new_route-Has route (table m) in
    elim (Option-cases (find text_less a.guid m.adapter_routes)) [
      | inl absent ↦ rw absent (
          sent-IsListed m _ sent refl listed (
            rw (insert-absent text_less text_less-IsOrder a.guid _ m.adapter_routes absent) (
              All-insert_or_assign text_less (AreShown _) a.guid _ m.adapter_routes (this, tt)
                before)))
      | inr (rs, found) ↦ rw found (elim (Option-cases (find_route id rs)) [
        | inl new ↦ rw new (
            sent-IsListed m _ sent refl listed (
              All-insert_or_assign text_less (AreShown _) a.guid _ m.adapter_routes
                (All-snoc _ route rs
                  (All-find text_less (AreShown _) a.guid rs m.adapter_routes before found) this)
                before))
        | inr (known, e) ↦ rw e (record {
          unique = unfold table in listed.unique;
          shown =
              unfold table in
              All-insert_or_assign text_less (AreShown (table m).rows) a.guid _ m.adapter_routes
                (change_route-AreShown (table m).rows id _ rs (λ r. refl)
                  (All-find text_less (AreShown (table m).rows) a.guid rs m.adapter_routes
                    listed.shown found))
                listed.shown;
        })
      ])
    ]

process_nodes-IsListed :
    (a : Adapter) (info : NetworkInfo) (ns : List Node) (result : Bool) (m : RouteManager)
    → IsListed m
    → IsListed (process_nodes a info ns result m).1
unfolding process_nodes
process_nodes-IsListed a info [] result m listed = listed
process_nodes-IsListed a info (n ∷ ns) result m listed =
    process_nodes-IsListed a info ns _ _ (process_route-IsListed a _ _ _ m listed)

process_discovery_message-IsListed :
    (adapters : AdapterManager) (message : DiscoveryMessage) (info : NetworkInfo) (m : RouteManager)
    → IsListed m
    → IsListed (process_discovery_message adapters message info m).1
unfolding process_discovery_message process_from
process_discovery_message-IsListed adapters message info m listed =
    elim (Option-cases (find_adapter info.adapter adapters)) [
      | inl unknown ↦ rw unknown listed
      | inr (a, known) ↦ rw known (
          process_nodes-IsListed a info message.nodes _ _ (process_route-IsListed a _ _ _ m listed))
    ]

update_routes-AreShown :
    (rows : List Route) (second now : ℕ) (rs : List Route)
    → AreShown rows rs
    → AreShown rows (update_routes second now rs).0
unfolding update_routes
update_routes-AreShown rows second now [] shown = tt
update_routes-AreShown rows second now (r ∷ rs) (this, others) = (
  subst (λ i. Has i rows) (sym (update_route-identifier second now r)) this,
  update_routes-AreShown rows second now rs others,
)

update_adapters-Shown :
    (rows : List Route) (second now : ℕ) (a : AdapterRoutes)
    → Shown rows a
    → Shown rows (update_adapters second now a).0
unfolding update_adapters
update_adapters-Shown rows second now [] shown = tt
update_adapters-Shown rows second now ((guid, rs) ∷ a) (this, others) =
    (update_routes-AreShown rows second now rs this, update_adapters-Shown rows second now a others)

update-IsListed :
    (second now : ℕ) (m : RouteManager) → IsListed m → IsListed (Manager.update second now m)
unfolding Manager.update
update-IsListed second now m listed =
    let sent = (update_adapters second now m.adapter_routes).1 in
    sent-IsListed m _ sent refl listed (
      update_adapters-Shown _ second now m.adapter_routes
        (slots-Shown sent (table m) m.adapter_routes listed.shown))

call-IsListed : (second : ℕ) (c : Call) (m : RouteManager) → IsListed m → IsListed (call second c m)
unfolding call
call-IsListed second (received adapters message info) m listed =
    process_discovery_message-IsListed adapters message info m listed
call-IsListed second (updated_at current_time) m listed =
    update-IsListed second current_time m listed

run_from-IsListed :
    (second : ℕ) (cs : List Call) (m : RouteManager) → IsListed m → IsListed (run second cs m)
unfolding run
run_from-IsListed second [] m listed = listed
run_from-IsListed second (c ∷ cs) m listed =
    run_from-IsListed second cs (call second c m) (call-IsListed second c m listed)

-- After any sequence of discovery messages and updates of a new route manager, the table that is
-- connected to its signals has rows of different identifiers, and a row for every route of the
-- manager.
pub run-IsListed : (second : ℕ) (cs : List Call) → IsListed (run second cs new_manager)
run-IsListed second cs =
    run_from-IsListed second cs new_manager
      (record { unique = unfold table slots in tt; shown = tt })
