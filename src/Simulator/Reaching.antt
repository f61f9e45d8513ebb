-- ===== src/Simulator/Reaching.antt =====
-- Which nodes a datagram of the simulator reaches: network_router.cpp and network_traffic_manager.cpp.
use mathlib.Core.List.{Memᴰ}
use mathlib.Core.List.Memᴰ
use discnet.Common.{
  ℕ, ◌≡◌, ◌≢◌, sym, ap, subst, ◌∙◌, inl, inr, ◌==◌, ==-IsEquality, ltb, Bool, true, false, not,
  Bool-cases, if◌then◌else◌, List, [], ◌∷◌, ◌++◌, Option, none, some, some-injective, find,
  insert_or_assign, find-insert, equivalent, equivalent→≡, find-insert_or_assign,
  find-insert_or_assign_other,
}
use discnet.Network.NetworkHandler.{UdpInfo}
use discnet.Simulator.{
  SimulatorClient, Participants, AdapterEntry, TrafficManager, Delivery, add_participant,
  router_data_sent, on_router, on_link, entries_data_sent, on_node, data_sent, link_entry,
  link_found, link, add_link,
}
use discnet.Simulator.Routing.{ltb-IsOrder}

Mem-if :
    (b : Bool) (d : Delivery) (xs ys : List Delivery)
    → Memᴰ d ys
    → Memᴰ d (if b then xs ++ ys else ys)
Mem-if true d xs ys has = Memᴰ.append_right xs has
Mem-if false d xs ys has = has

router_data_sent-Mem :
    (node other : ℕ) (client : SimulatorClient) (info : UdpInfo) (bytes : List ℕ)
    (ps : Participants)
    → other ≢ node
    → find ltb other ps ≡ some client
    → Memᴰ
        (record { node = other; client = client; bytes = bytes; sender = info.adapter })
        (router_data_sent node info bytes ps)
unfolding router_data_sent find
router_data_sent-Mem node other client info bytes [] differs found = absurd (cc found)
router_data_sent-Mem node other client info bytes ((k, c) ∷ ps) differs found =
    elim (Bool-cases (equivalent ltb k other)) [
      | inl same ↦
          let own = equivalent→≡ ltb ltb-IsOrder k other same in
          let kept = some-injective (rw same at found) in
          subst
            (λ (b : Bool). Memᴰ (delivery other client) (
              if not b
              then delivery k c ∷ router_data_sent node info bytes ps
              else router_data_sent node info bytes ps))
            (sym (not_node own)) (Memᴰ.head (λ t. delivery (sym own t) (sym kept t)))
      | inr later ↦
          Mem-if (not (k == node)) (delivery other client) (delivery k c ∷ []) _
            (router_data_sent-Mem node other client info bytes ps differs (rw later at found))
    ]
  where
    delivery : ℕ → SimulatorClient → Delivery
    delivery n cl = record { node = n; client = cl; bytes = bytes; sender = info.adapter }

    not_node : k ≡ other → (k == node) ≡ false
    not_node own = elim (Bool-cases (k == node)) [
      | inl same ↦ absurd (differs (sym own ∙ ==-IsEquality.sound k node same))
      | inr e ↦ e
    ]

entries_data_sent-Mem :
    (es : List AdapterEntry) (e : AdapterEntry) (routers : List (ℕ × Participants)) (node : ℕ)
    (info : UdpInfo) (bytes : List ℕ) (d : Delivery)
    → Memᴰ e es
    → e.client.info.adapter ≡ info.adapter
    → Memᴰ d (on_link e.router routers node info bytes)
    → Memᴰ d (entries_data_sent es routers node info bytes)
unfolding entries_data_sent
entries_data_sent-Mem [] e routers node info bytes d has same reached = absurd (Memᴰ.not-nil has)
entries_data_sent-Mem (f ∷ es) e routers node info bytes d has same reached =
    elim (Memᴰ.cases_cons has) [
      | inl first ↦
          subst
            (λ (b : Bool).
              Memᴰ d (if b then on_link f.router routers node info bytes ++ rest else rest))
            (sym (matches (ap (λ (g : AdapterEntry). g.client.info.adapter) (sym first) ∙ same)))
            (Memᴰ.append_left rest (
              subst (λ (g : AdapterEntry). Memᴰ d (on_link g.router routers node info bytes)) first
                reached))
      | inr later ↦
          Mem-if (f.client.info.adapter == info.adapter) d _ rest
            (entries_data_sent-Mem es e routers node info bytes d later same reached)
    ]
  where
    rest : List Delivery
    rest = entries_data_sent es routers node info bytes

    matches : f.client.info.adapter ≡ info.adapter → (f.client.info.adapter == info.adapter) ≡ true
    matches e' = ap (λ a. a == info.adapter) e' ∙ ==-IsEquality.reflexive info.adapter

-- A datagram that a node sends with the address of one of its adapters reaches every other node that
-- takes part in the router that the adapter is linked to.
pub data_sent-reaches :
    (node other router : ℕ) (info : UdpInfo) (bytes : List ℕ) (m : TrafficManager)
    (es : List AdapterEntry) (e : AdapterEntry) (ps : Participants) (client : SimulatorClient)
    → find ltb node m.nodes ≡ some es
    → Memᴰ e es
    → e.client.info.adapter ≡ info.adapter
    → e.router ≡ some router
    → find ltb router m.routers ≡ some ps
    → other ≢ node
    → find ltb other ps ≡ some client
    → Memᴰ
        (record { node = other; client = client; bytes = bytes; sender = info.adapter })
        (data_sent node info bytes m)
unfolding data_sent on_node
data_sent-reaches node other router info bytes m es e ps client known has same linked routed differs
      found =
    rw known (
      entries_data_sent-Mem es e m.routers node info bytes _ has same (
        unfold on_link on_router in
        rw (linked, routed) (router_data_sent-Mem node other client info bytes ps differs found)))

-- What a link that is made leaves.
record IsLinked (other router : ℕ) (m n : TrafficManager) : Type 0 where
  pub entries : List AdapterEntry
  pub participants : Participants
  pub client : SimulatorClient
  pub nodes_after : n.nodes ≡ insert_or_assign ltb other entries m.nodes
  pub routers_after :
      n.routers ≡ insert_or_assign ltb router (add_participant other client participants) m.routers

link_found-IsLinked :
    (r : Option (AdapterEntry × List AdapterEntry)) (other router : ℕ) (ps : Participants)
    (m n : TrafficManager)
    → link_found r other router ps m ≡ (true, n)
    → IsLinked other router m n
unfolding link_found
link_found-IsLinked none other router ps m n h =
    absurd (cc (ap (λ (p : Bool × TrafficManager). p.0) h))
link_found-IsLinked (some (e, es)) other router ps m n h = record {
  entries = es;
  participants = ps;
  client = e.client;
  nodes_after = ap (λ (p : Bool × TrafficManager). p.1.nodes) (sym h);
  routers_after = ap (λ (p : Bool × TrafficManager). p.1.routers) (sym h);
}

link-IsLinked :
    (os : Option (List AdapterEntry)) (ops : Option Participants) (other adapter router : ℕ)
    (m n : TrafficManager)
    → link os ops other adapter router m ≡ (true, n)
    → IsLinked other router m n
unfolding link
link-IsLinked (some es) (some ps) other adapter router m n h =
    link_found-IsLinked (link_entry adapter (some router) es) other router ps m n h
link-IsLinked none ops other adapter router m n h =
    absurd (cc (ap (λ (p : Bool × TrafficManager). p.0) h))
link-IsLinked (some es) none other adapter router m n h =
    absurd (cc (ap (λ (p : Bool × TrafficManager). p.0) h))

-- Once a node is linked to a router, what another node sends with the address of one of its adapters
-- that is linked there reaches it.
pub add_link-reaches :
    (node other router adapter : ℕ) (info : UdpInfo) (bytes : List ℕ) (m n : TrafficManager)
    (es : List AdapterEntry) (e : AdapterEntry)
    → find ltb node m.nodes ≡ some es
    → Memᴰ e es
    → e.client.info.adapter ≡ info.adapter
    → e.router ≡ some router
    → other ≢ node
    → add_link other adapter router m ≡ (true, n)
    → (client : SimulatorClient) × Memᴰ
        (record { node = other; client = client; bytes = bytes; sender = info.adapter })
        (data_sent node info bytes n)
unfolding add_link
add_link-reaches node other router adapter info bytes m n es e known has same linked differs made =
    let l = link-IsLinked _ _ other adapter router m n made in
    let (client, found) = find-insert ltb ltb-IsOrder other l.client l.participants in
    (
      client,
      data_sent-reaches node other router info bytes n es e _ client
          (ap (find ltb node) l.nodes_after
            ∙ find-insert_or_assign_other ltb ltb-IsOrder node other l.entries m.nodes distinct
            ∙ known)
          has same linked
          (ap (find ltb router) l.routers_after
            ∙ find-insert_or_assign ltb ltb-IsOrder router _ m.routers)
          differs (unfold add_participant in found),
    )
  where
    distinct : equivalent ltb other node ≡ false
    distinct = elim (Bool-cases (equivalent ltb other node)) [
      | inl alike ↦ absurd (differs (equivalent→≡ ltb ltb-IsOrder other node alike))
      | inr e' ↦ e'
    ]
