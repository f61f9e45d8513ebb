-- ===== src/Application/Node/Reachable/Invariant.antt =====
-- application.cpp: what holds of a node whatever has happened since it was initialised.
use discnet.Common.{
  ℕ, ◌*◌, ◌≡◌, refl, subst, ◌==◌, inl, inr, Bool-cases, List, [], ◌∷◌, ◌++◌, All, All-replace,
  Option, none, some, find, map-some,
}
use discnet.Host.{Host}
use discnet.Adapters.{Adapter, AdapterManager}
use discnet.Adapters.Keyed.{IsKeyed, update-IsKeyed}
use discnet.Network.NetworkHandler
use discnet.Network.NetworkHandler.{
  Client, Effect, multicast, unicast, closed, discovery_message_received, data_message_received,
  Pending, running, ready, NetworkHandler, emit, find_client, packet_bytes, multicast_on,
  transmit_multicast,
}
use discnet.Routes.Manager.{RouteManager}
use discnet.Routes.Manager.Unique.{AllUnique, process_discovery_message-AllUnique}
use discnet.Routes.Manager.Kept.{update-AllUnique}
use discnet.Transmission
use discnet.Transmission.{
  TransmissionHandler, new_transmission, is_due, discovery_of, transmit_on, transmit_clients,
  transmit_discovery_message,
}
use discnet.Discovery.{connected}
use discnet.Application.Configuration.{Configuration}
use discnet.Application.Node.{Node, initialize, update_adapters, update_routes, update}
use discnet.Application.Node.Reachable.{
  receive_datagram, Step, updates, receives, starts, fails, Reach, here, next,
}
use discnet.Application.Node.Reachable.Clients.{
  HasGroup, IsStarting, IsGrouped, slots-IsGrouped, update-IsGrouped,
}

-- The adapters stand under their MAC addresses, the routes of an adapter have different
-- identifiers, the clients have the configured group, and the transmission handler has the configured
-- number and an interval of twenty seconds.
pub record IsNode (second : ℕ) (configuration : Configuration) (n : Node) : Type 0 where
  pub keyed : IsKeyed n.adapters
  pub unique : AllUnique n.routes.adapter_routes
  pub grouped : IsGrouped configuration.multicast_address configuration.multicast_port n.network
  pub own_id : n.transmission.node_id ≡ configuration.node_id
  pub own_interval : n.transmission.interval ≡ 20 * second

connected-AllUnique :
    (adapters : AdapterManager) (es : List Effect) (m : RouteManager)
    → AllUnique m.adapter_routes
    → AllUnique (connected adapters es m).adapter_routes
unfolding connected
connected-AllUnique adapters [] m unique = unique
connected-AllUnique adapters (discovery_message_received message info ∷ es) m unique =
    connected-AllUnique adapters es _
      (process_discovery_message-AllUnique adapters message info m unique)
connected-AllUnique adapters (data_message_received message info ∷ es) m unique =
    connected-AllUnique adapters es m unique
connected-AllUnique adapters (multicast info bytes ∷ es) m unique =
    connected-AllUnique adapters es m unique
connected-AllUnique adapters (unicast info recipient bytes ∷ es) m unique =
    connected-AllUnique adapters es m unique
connected-AllUnique adapters (closed info ∷ es) m unique = connected-AllUnique adapters es m unique

module _ (group port : ℕ) where
  emit-IsGrouped :
      (e : Effect) (s : NetworkHandler) → IsGrouped group port s → IsGrouped group port (emit e s)
  unfolding emit
  emit-IsGrouped e s g = record {
    own_group = g.own_group;
    own_port = g.own_port;
    running_clients = g.running_clients;
    starting_clients = g.starting_clients;
  }

  multicast_on-IsGrouped :
      (o : Option Client) (bytes : List ℕ) (s : NetworkHandler)
      → IsGrouped group port s
      → IsGrouped group port (multicast_on o bytes s)
  unfolding multicast_on
  multicast_on-IsGrouped none bytes s g = g
  multicast_on-IsGrouped (some c) bytes s g = elim (Bool-cases (c.info.multicast == 0)) [
    | inl any ↦ rw any g
    | inr other ↦ rw other (emit-IsGrouped (multicast c.info bytes) s g)
  ]

  transmit_on-IsGrouped :
      (h : Host) (o : Option Adapter) (node_id : ℕ) (routes : RouteManager) (s : NetworkHandler)
      → IsGrouped group port s
      → IsGrouped group port (transmit_on h o node_id routes s)
  unfolding transmit_on transmit_multicast
  transmit_on-IsGrouped h none node_id routes s g = g
  transmit_on-IsGrouped h (some a) node_id routes s g =
      multicast_on-IsGrouped (find_client a.mac_address s.clients) _ s g

  transmit_clients-IsGrouped :
      (h : Host) (cs : List Client) (node_id : ℕ) (adapters : AdapterManager)
      (routes : RouteManager) (s : NetworkHandler)
      → IsGrouped group port s
      → IsGrouped group port (transmit_clients h cs node_id adapters routes s)
  unfolding transmit_clients
  transmit_clients-IsGrouped h [] node_id adapters routes s g = g
  transmit_clients-IsGrouped h (c ∷ cs) node_id adapters routes s g =
      transmit_clients-IsGrouped h cs node_id adapters routes _
        (transmit_on-IsGrouped h _ node_id routes s g)

-- What the transmission handler's update keeps.
record IsKept (second : ℕ) (configuration : Configuration)
    (r : TransmissionHandler × NetworkHandler) : Type 0 where
  pub group_kept : IsGrouped configuration.multicast_address configuration.multicast_port r.1
  pub id_kept : r.0.node_id ≡ configuration.node_id
  pub interval_kept : r.0.interval ≡ 20 * second

transmission-IsKept :
    (h : Host) (second : ℕ) (configuration : Configuration) (adapters : AdapterManager)
    (routes : RouteManager) (now : ℕ) (t : TransmissionHandler) (s : NetworkHandler)
    → IsKept second configuration (t, s)
    → IsKept second configuration (Transmission.update h adapters routes now (t, s))
unfolding Transmission.update transmit_discovery_message
transmission-IsKept h second configuration adapters routes now t s k =
    elim (Bool-cases (is_due t now)) [
      | inl due ↦ rw due (record {
        group_kept =
            transmit_clients-IsGrouped _ _ h s.clients t.node_id adapters routes s k.group_kept;
        id_kept = k.id_kept;
        interval_kept = k.interval_kept;
      })
      | inr early ↦ rw early k
    ]

initialize-IsNode :
    (second : ℕ) (configuration : Configuration)
    → IsNode second configuration (initialize second configuration)
unfolding initialize new_transmission find
initialize-IsNode second configuration = record {
  keyed = λ k a e. absurd (cc e);
  unique = tt;
  grouped = record {
    own_group = refl;
    own_port = refl;
    running_clients = tt;
    starting_clients = tt;
  };
  own_id = refl;
  own_interval = refl;
}

update-IsNode :
    (h : Host) (second : ℕ) (configuration : Configuration) (fetched : List Adapter) (current : ℕ)
    (n t : Node)
    → IsNode second configuration n
    → update h second fetched current n ≡ some t
    → IsNode second configuration t
unfolding update update_adapters update_routes
update-IsNode h second configuration fetched current n t i e =
    let (network, found, same) =
      map-some (update_routes h second current (update_adapters fetched n))
        (NetworkHandler.update h current (update_adapters fetched n).network) t e in
    let slotted =
      slots-IsGrouped _ _ (update_adapters fetched n).adapters.signals
        (record (n.network) { effects = [] })
        (record {
          own_group = i.grouped.own_group;
          own_port = i.grouped.own_port;
          running_clients = i.grouped.running_clients;
          starting_clients = i.grouped.starting_clients;
        }) in
    let kept =
      transmission-IsKept h second configuration (update_adapters fetched n).adapters
        (update_routes h second current (update_adapters fetched n) network).routes current
        n.transmission network
        (record {
          group_kept = update-IsGrouped _ _ h current _ network slotted found;
          id_kept = i.own_id;
          interval_kept = i.own_interval;
        }) in
    subst (IsNode second configuration) same (record {
      keyed = update-IsKeyed fetched _ i.keyed;
      unique = update-AllUnique second current _ (
          connected-AllUnique (update_adapters fetched n).adapters network.effects n.routes
            i.unique);
      grouped = kept.group_kept;
      own_id = kept.id_kept;
      own_interval = kept.interval_kept;
    })

network-IsNode :
    (second : ℕ) (configuration : Configuration) (n : Node) (s : NetworkHandler)
    → IsNode second configuration n
    → IsGrouped configuration.multicast_address configuration.multicast_port s
    → IsNode second configuration (record n { network = s })
network-IsNode second configuration n s i g = record {
  keyed = i.keyed;
  unique = i.unique;
  grouped = g;
  own_id = i.own_id;
  own_interval = i.own_interval;
}

module _ (group port : ℕ) where
  clients-IsGrouped :
      (s : NetworkHandler) (cs : List Client)
      → IsGrouped group port s
      → All (HasGroup group port) cs
      → IsGrouped group port (record s { clients = cs })
  clients-IsGrouped s cs g all = record {
    own_group = g.own_group;
    own_port = g.own_port;
    running_clients = all;
    starting_clients = g.starting_clients;
  }

  pending-IsGrouped :
      (s : NetworkHandler) (pre : List Pending) (p q : Pending) (post : List Pending)
      → IsGrouped group port s
      → s.adapter_init_list ≡ pre ++ (p ∷ post)
      → (IsStarting group port p → IsStarting group port q)
      → IsGrouped group port (record s { adapter_init_list = pre ++ (q ∷ post) })
  pending-IsGrouped s pre p q post g e f = record {
    own_group = g.own_group;
    own_port = g.own_port;
    running_clients = g.running_clients;
    starting_clients =
        All-replace (IsStarting group port) pre p q post f
          (subst (All (IsStarting group port)) e g.starting_clients);
  }

Step-IsNode :
    (h : Host) (second : ℕ) (configuration : Configuration) {n t : Node}
    → Step h second n t
    → IsNode second configuration n
    → IsNode second configuration t
Step-IsNode h second configuration (updates fetched current n t e) i =
    update-IsNode h second configuration fetched current n t i e
Step-IsNode h second configuration (receives grow now bytes sender recipient pre c post n e) i =
    network-IsNode second configuration n _ i (
      clients-IsGrouped _ _ n.network _ i.grouped (
        All-replace (HasGroup _ _) pre c (receive_datagram grow now bytes sender recipient c) post
          (λ g. g) (subst (All (HasGroup _ _)) e i.grouped.running_clients)))
Step-IsNode h second configuration (starts pre c post n e) i =
    network-IsNode second configuration n _ i
      (pending-IsGrouped _ _ n.network pre (running c) (ready (some c)) post i.grouped e (λ g. g))
Step-IsNode h second configuration (fails pre c post n e) i =
    network-IsNode second configuration n _ i
      (pending-IsGrouped _ _ n.network pre (running c) (ready none) post i.grouped e (λ g. tt))

-- After any sequence of updates, datagrams and starts of clients, a node that was initialised has
-- its adapters under their MAC addresses and routes of different identifiers on each of them, every
-- client that runs or is being started has the multicast group and the port of the configuration, and
-- its transmission handler has the configured number and an interval of twenty seconds.
pub Reach-IsNode :
    (h : Host) (second : ℕ) (configuration : Configuration) {n : Node}
    → Reach h second (initialize second configuration) n
    → IsNode second configuration n
Reach-IsNode h second configuration here = initialize-IsNode second configuration
Reach-IsNode h second configuration (next r s) =
    Step-IsNode h second configuration s (Reach-IsNode h second configuration r)
