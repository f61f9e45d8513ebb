-- ===== src/Application/Node/Announcing.antt =====
-- What a node's announcement sends: transmission_handler.cpp, on the clients of network_handler.cpp.
use discnet.Common.{
  ℕ, ◌≡◌, ◌≢◌, refl, sym, ap, ◌∙◌, inl, inr, ◌==◌, Bool-cases, not, if◌then◌else◌, List, [], ◌∷◌,
  ◌++◌, append_assoc, append-nil, All, Option, none, some,
}
use mathlib.Core.List.{map}
use discnet.Host.{Host}
use discnet.Adapters.{Adapter, AdapterManager, find_adapter_id, equal_text}
use discnet.Adapters.Keyed.{IsKeyed}
use discnet.Adapters.Update.{equal_text-IsEquality}
use discnet.Network.Messages.DiscoveryMessage.{DiscoveryMessage}
use discnet.Network.Messages.Packet.{Message, of_discovery}
use discnet.Network.NetworkHandler.{
  Client, NetworkHandler, Effect, multicast, emit, find_client, packet_bytes, multicast_on,
  transmit_multicast,
}
use discnet.Network.NetworkHandler.Clients.{Distinct}
use discnet.Routes.{Route}
use discnet.Routes.Manager.{RouteManager}
use discnet.Routes.Manager.Selection.{find_routes_for_adapter}
use discnet.Transmission.{
  indirect_node, discovery_of, transmit_on, transmit_clients, transmit_discovery_message,
}

-- What a node says: its number, and of every route the node with the jumps to it.
abbrev pub said : ℕ → List Route → DiscoveryMessage
said node_id routes = record {
  identifier = node_id;
  nodes =
      map
        (λ r. record {
          identifier = r.identifier.node.id;
          address = r.identifier.node.address;
          jumps = r.status.jumps;
        })
        routes;
}

-- What a node says of itself on an adapter.
abbrev pub announcement : ℕ → RouteManager → Adapter → List Message
announcement node_id routes a =
    of_discovery (said node_id (find_routes_for_adapter a.guid routes)) ∷ []

-- The datagrams of an announcement, client by client: none where the adapter is not known, or where
-- the multicast address is not set.
abbrev datagram_on : Host → ℕ → RouteManager → Client → Option Adapter → List Effect
datagram_on h node_id routes c none = []
datagram_on h node_id routes c (some a) =
    if not (c.info.multicast == 0)
    then multicast c.info (packet_bytes h (announcement node_id routes a)) ∷ []
    else []

abbrev pub datagrams : Host → ℕ → AdapterManager → RouteManager → List Client → List Effect
datagrams h node_id adapters routes [] = []
datagrams h node_id adapters routes (c ∷ cs) =
    datagram_on h node_id routes c (find_adapter_id c.adapter_identifier adapters)
    ++ datagrams h node_id adapters routes cs

-- A client is found under its own adapter where no other is for that one.
data Has (c : Client) : List Client → Type 0 where
  first : {cs : List Client} → Has c (c ∷ cs)
  later :
      {d : Client} {cs : List Client}
      → d.adapter_identifier ≢ c.adapter_identifier
      → Has c cs
      → Has c (d ∷ cs)

find_client-Has :
    (c : Client) {cs : List Client} → Has c cs → find_client c.adapter_identifier cs ≡ some c
unfolding find_client
find_client-Has c first = rw (equal_text-IsEquality.reflexive c.adapter_identifier) refl
find_client-Has c (later {d = d} other r) =
    elim (Bool-cases (equal_text d.adapter_identifier c.adapter_identifier)) [
      | inl same ↦
          absurd
            (other (equal_text-IsEquality.sound d.adapter_identifier c.adapter_identifier same))
      | inr e ↦ rw e (find_client-Has c r)
    ]

Has-behind :
    (d : Client) (cs ds : List Client)
    → All (λ c. c.adapter_identifier ≢ d.adapter_identifier) ds
    → All (λ c. Has c cs) ds
    → All (λ c. Has c (d ∷ cs)) ds
Has-behind d cs [] others has = tt
Has-behind d cs (c ∷ ds) (other, others) (this, rest) =
    (later (λ e. other (sym e)) this, Has-behind d cs ds others rest)

Distinct-Has : (cs : List Client) → Distinct cs → All (λ c. Has c cs) cs
Distinct-Has [] distinct = tt
Distinct-Has (c ∷ cs) (others, rest) = (first, Has-behind c cs cs others (Distinct-Has cs rest))

abbrev with_effects : NetworkHandler → List Effect → NetworkHandler
with_effects s es = record s { effects = s.effects ++ es }

multicast_on-datagrams :
    (c : Client) (bytes : List ℕ) (s : NetworkHandler)
    → multicast_on (some c) bytes s
      ≡ with_effects s (if not (c.info.multicast == 0) then multicast c.info bytes ∷ [] else [])
unfolding multicast_on emit
multicast_on-datagrams c bytes s = elim (Bool-cases (c.info.multicast == 0)) [
  | inl any ↦ rw any (ap (λ es. record s { effects = es }) (sym (append-nil s.effects)))
  | inr group ↦ rw group refl
]

transmit_on-datagrams :
    (h : Host) (o : Option Adapter) (c : Client) (node_id : ℕ) (routes : RouteManager)
    (s : NetworkHandler)
    → Has c s.clients
    → ((a : Adapter) → o ≡ some a → a.mac_address ≡ c.adapter_identifier)
    → transmit_on h o node_id routes s ≡ with_effects s (datagram_on h node_id routes c o)
unfolding transmit_on transmit_multicast discovery_of indirect_node
transmit_on-datagrams h none c node_id routes s has keyed =
    ap (λ es. record s { effects = es }) (sym (append-nil s.effects))
transmit_on-datagrams h (some a) c node_id routes s has keyed =
    ap (λ o. multicast_on o (packet_bytes h (announcement node_id routes a)) s)
      (ap (λ id. find_client id s.clients) (keyed a refl) ∙ find_client-Has c has)
    ∙ multicast_on-datagrams c (packet_bytes h (announcement node_id routes a)) s

transmit_clients-datagrams :
    (h : Host) (cs : List Client) (node_id : ℕ) (adapters : AdapterManager) (routes : RouteManager)
    (s : NetworkHandler)
    → IsKeyed adapters
    → All (λ c. Has c s.clients) cs
    → transmit_clients h cs node_id adapters routes s
      ≡ with_effects s (datagrams h node_id adapters routes cs)
unfolding transmit_clients
transmit_clients-datagrams h [] node_id adapters routes s keyed has =
    ap (λ es. record s { effects = es }) (sym (append-nil s.effects))
transmit_clients-datagrams h (c ∷ cs) node_id adapters routes s keyed (this, rest) =
    let o = find_adapter_id c.adapter_identifier adapters in
    ap (transmit_clients h cs node_id adapters routes) (
      transmit_on-datagrams h o c node_id routes s this
        (λ a e. keyed c.adapter_identifier a (unfold find_adapter_id in e)))
    ∙ transmit_clients-datagrams h cs node_id adapters routes
        (with_effects s (datagram_on h node_id routes c o)) keyed rest
    ∙ ap (λ es. record s { effects = es }) (append_assoc s.effects _ _)

-- An announcement sends one datagram on each client, in their order, with the routes that are chosen
-- for the client's adapter; it leaves out a client whose adapter is not known or that has no
-- multicast address, and changes nothing else. The adapters stand under their MAC addresses, and no
-- two clients are for one adapter.
pub transmit_discovery_message-datagrams :
    (h : Host) (node_id : ℕ) (adapters : AdapterManager) (routes : RouteManager)
    (s : NetworkHandler)
    → IsKeyed adapters
    → Distinct s.clients
    → transmit_discovery_message h node_id adapters routes s
      ≡ record s { effects = s.effects ++ datagrams h node_id adapters routes s.clients }
unfolding transmit_discovery_message
transmit_discovery_message-datagrams h node_id adapters routes s keyed distinct =
    transmit_clients-datagrams h s.clients node_id adapters routes s keyed
      (Distinct-Has s.clients distinct)
