-- ===== src/Application/Node/Running.antt =====
-- The update of a node, application.cpp: that it ends, and that it announces the node when it is due.
use discnet.Common.{ℕ, ◌≡◌, refl, ap, ap₂, ◌∙◌, true, false, List, [], ◌∷◌, ◌++◌, some}
use mathlib.Core.Option
use discnet.Host.{Host}
use discnet.Adapters.{Adapter, AdapterManager}
use discnet.Adapters.Keyed.{IsKeyed, update-IsKeyed}
use discnet.Network.DataHandler.Streams.{process_all-total}
use discnet.Network.NetworkHandler
use discnet.Network.NetworkHandler.{
  Client, Effect, NetworkHandler, add_client_result, update_clients,
}
use discnet.Network.NetworkHandler.Clients.{Distinct}
use discnet.Routes.Manager.{RouteManager}
use discnet.Transmission
use discnet.Transmission.{TransmissionHandler, is_due, transmit_discovery_message}
use discnet.Application.Node.{Node, update_adapters, update_routes, update}
use discnet.Application.Node.Announcing.{datagrams, transmit_discovery_message-datagrams}

update_clients-total :
    (h : Host) (current : ℕ) (cs : List Client)
    → (r : List Client × List Effect) × (update_clients h current cs ≡ some r)
unfolding update_clients add_client_result
update_clients-total h current [] = (([], []), refl)
update_clients-total h current (c ∷ cs) =
    let (r, e) = process_all-total h c.handler in
    let (rest, e') = update_clients-total h current cs in
    (_, ap₂ (add_client_result current c) e e')

network_update-total :
    (h : Host) (current : ℕ) (s : NetworkHandler)
    → (t : NetworkHandler) × (NetworkHandler.update h current s ≡ some t)
unfolding NetworkHandler.update
network_update-total h current s =
    let (r, e) = update_clients-total h current _ in (_, ap (Option.map _) e)

-- An update of a node comes to an end, whatever its streams hold and whichever adapters are fetched.
pub update-total :
    (h : Host) (second : ℕ) (fetched : List Adapter) (current : ℕ) (n : Node)
    → (t : Node) × (update h second fetched current n ≡ some t)
unfolding update
update-total h second fetched current n =
    let (network, e) = network_update-total h current (update_adapters fetched n).network in
    (_, ap (Option.map _) e)

due_update :
    (h : Host) (adapters : AdapterManager) (routes : RouteManager) (now : ℕ)
    (t : TransmissionHandler) (network : NetworkHandler)
    → is_due t now ≡ true
    → Transmission.update h adapters routes now (t, network) ≡ (
      record t { last_discovery = now },
      transmit_discovery_message h t.node_id adapters routes network,
    )
unfolding Transmission.update
due_update h adapters routes now t network due = rw due refl

-- A node whose announcement is due sends it at its next update, behind what the network handler does:
-- in the order of the clients, those that were started just before among them, one datagram for each
-- client whose adapter is known and whose multicast address is set, and none for another. Its bytes are
-- what the buffer holds when the node's number and the routes that are chosen for the client's adapter
-- have been encoded, or did not fit. The time is kept as that of the last announcement. No two clients
-- are for one adapter, and the adapters of the node stand under their MAC addresses.
pub update-datagrams :
    (h : Host) (second : ℕ) (fetched : List Adapter) (current : ℕ) (n : Node)
    (network : NetworkHandler)
    → IsKeyed n.adapters
    → NetworkHandler.update h current (update_adapters fetched n).network ≡ some network
    → Distinct network.clients
    → is_due n.transmission current ≡ true
    → (t : Node) × (update h second fetched current n ≡ some t)
      × (t.network.effects
          ≡ network.effects
            ++ datagrams h n.transmission.node_id t.adapters t.routes network.clients)
      × (t.transmission.last_discovery ≡ current)
unfolding update update_routes update_adapters
update-datagrams h second fetched current n network keyed handled distinct due = (
  update_routes h second current (update_adapters fetched n) network,
  ap (Option.map (update_routes h second current (update_adapters fetched n))) handled,
  ap (λ (r : TransmissionHandler × NetworkHandler). r.1.effects) announced
      ∙ ap (λ (s : NetworkHandler). s.effects)
          (transmit_discovery_message-datagrams h n.transmission.node_id adapters routes network
            (update-IsKeyed fetched _ keyed) distinct),
  ap (λ (r : TransmissionHandler × NetworkHandler). r.0.last_discovery) announced,
)
  where
    adapters : AdapterManager
    adapters = (update_adapters fetched n).adapters

    routes : RouteManager
    routes = (update_routes h second current (update_adapters fetched n) network).routes

    announced : Transmission.update h adapters routes current (n.transmission, network) ≡ (
      record (n.transmission) { last_discovery = current },
      transmit_discovery_message h n.transmission.node_id adapters routes network,
    )
    announced = due_update h adapters routes current n.transmission network due

early_update :
    (h : Host) (adapters : AdapterManager) (routes : RouteManager) (now : ℕ)
    (t : TransmissionHandler) (network : NetworkHandler)
    → is_due t now ≡ false
    → Transmission.update h adapters routes now (t, network) ≡ (t, network)
unfolding Transmission.update
early_update h adapters routes now t network early = rw early refl

-- A node whose announcement is not due sends only what the network handler does.
pub update-early :
    (h : Host) (second : ℕ) (fetched : List Adapter) (current : ℕ) (n : Node)
    (network : NetworkHandler)
    → NetworkHandler.update h current (update_adapters fetched n).network ≡ some network
    → is_due n.transmission current ≡ false
    → (t : Node) × (update h second fetched current n ≡ some t)
      × (t.network.effects ≡ network.effects)
      × (t.transmission.last_discovery ≡ n.transmission.last_discovery)
unfolding update update_routes update_adapters
update-early h second fetched current n network handled early =
    let before = update_adapters fetched n in
    let routes = (update_routes h second current before network).routes in
    let quiet = early_update h before.adapters routes current n.transmission network early in
    (
      update_routes h second current before network,
      ap (Option.map (update_routes h second current before)) handled,
      ap (λ (r : TransmissionHandler × NetworkHandler). r.1.effects) quiet,
      ap (λ (r : TransmissionHandler × NetworkHandler). r.0.last_discovery) quiet,
    )
