-- ===== src/Simulator/Routing.antt =====
-- Where the datagrams of the simulator go.
use discnet.Common.{
  ℕ, ◌≡◌, ◌≢◌, refl, sym, ap, ◌∙◌, inl, inr, arith, ◌==◌, ==-IsEquality, ltb, le→ltb, Bool, true,
  false, Bool-cases, if◌then◌else◌, List, [], ◌∷◌, ◌++◌, All, Option, none, some, Option-cases,
  find, IsOrder, equivalent_refl, equivalent, find-erase_if_gone,
}
use discnet.Network.NetworkHandler.{UdpInfo}
use discnet.Simulator.{
  Participants, AdapterEntry, TrafficManager, Delivery, router_data_sent, on_router, on_link,
  entries_data_sent, on_node, data_sent, remove_node, is_linked_to, reset_link, reset_links,
  reset_nodes, remove_router,
}

pub ltb-IsOrder : IsOrder ltb
ltb-IsOrder = record {
  irreflexive = λ k. le→ltb k k (omega arith);
  antisymmetric = λ j k p q. ground (arith, p, q);
}

-- The deliveries that do not come back to the node.
abbrev pub NotBack : ℕ → List Delivery → Type 0
NotBack node = All (λ d. d.node ≢ node)

All-append :
    (node : ℕ) (xs ys : List Delivery) → NotBack node xs → NotBack node ys → NotBack node (xs ++ ys)
All-append node [] ys h k = k
All-append node (x ∷ xs) ys (this, others) k = (this, All-append node xs ys others k)

router_data_sent-NotBack :
    (node : ℕ) (info : UdpInfo) (bytes : List ℕ) (ps : Participants)
    → NotBack node (router_data_sent node info bytes ps)
unfolding router_data_sent
router_data_sent-NotBack node info bytes [] = tt
router_data_sent-NotBack node info bytes ((other, client) ∷ ps) =
    elim (Bool-cases (other == node)) [
      | inl same ↦ rw same (router_data_sent-NotBack node info bytes ps)
      | inr differs ↦ rw differs (
        λ e. absurd (cc (sym differs ∙ ap (λ n. n == node) e ∙ ==-IsEquality.reflexive node)),
        router_data_sent-NotBack node info bytes ps,
      )
    ]

on_link-NotBack :
    (link : Option ℕ) (routers : List (ℕ × Participants)) (node : ℕ) (info : UdpInfo)
    (bytes : List ℕ)
    → NotBack node (on_link link routers node info bytes)
unfolding on_link on_router
on_link-NotBack none routers node info bytes = tt
on_link-NotBack (some router) routers node info bytes =
    elim (Option-cases (find ltb router routers)) [
      | inl absent ↦ rw absent tt
      | inr (ps, found) ↦ rw found (router_data_sent-NotBack node info bytes ps)
    ]

entries_data_sent-NotBack :
    (es : List AdapterEntry) (routers : List (ℕ × Participants)) (node : ℕ) (info : UdpInfo)
    (bytes : List ℕ)
    → NotBack node (entries_data_sent es routers node info bytes)
unfolding entries_data_sent
entries_data_sent-NotBack [] routers node info bytes = tt
entries_data_sent-NotBack (e ∷ es) routers node info bytes =
    elim (Bool-cases (e.client.info.adapter == info.adapter)) [
      | inl same ↦ rw same (
          All-append node _ _ (on_link-NotBack e.router routers node info bytes)
            (entries_data_sent-NotBack es routers node info bytes))
      | inr other ↦ rw other (entries_data_sent-NotBack es routers node info bytes)
    ]

-- A datagram never comes back to the node that sent it, whatever the links are.
pub data_sent-NotBack :
    (node : ℕ) (info : UdpInfo) (bytes : List ℕ) (m : TrafficManager)
    → NotBack node (data_sent node info bytes m)
unfolding data_sent on_node
data_sent-NotBack node info bytes m = elim (Option-cases (find ltb node m.nodes)) [
  | inl absent ↦ rw absent tt
  | inr (es, found) ↦ rw found (entries_data_sent-NotBack es m.routers node info bytes)
]

-- A node that was removed sends nothing.
pub data_sent-remove_node :
    (node : ℕ) (info : UdpInfo) (bytes : List ℕ) (m : TrafficManager)
    → data_sent node info bytes (remove_node node m) ≡ []
unfolding data_sent on_node remove_node
data_sent-remove_node node info bytes m =
    rw
      (find-erase_if_gone ltb ltb-IsOrder (equivalent ltb node) node m.nodes
        (equivalent_refl ltb ltb-IsOrder node))
      refl

-- The link of an entry, after the reset.
reset_link-differs :
    (router : ℕ) (e : AdapterEntry) → is_linked_to router (reset_link router e).router ≡ false
unfolding reset_link
reset_link-differs router e = kept (is_linked_to router e.router) refl
  where
    kept :
        (b : Bool)
        → is_linked_to router e.router ≡ b
        → is_linked_to router (if b then none else e.router) ≡ false
    kept true h = unfold is_linked_to in refl
    kept false h = h

-- No adapter that is linked to the router.
abbrev pub Unlinked : ℕ → List (ℕ × List AdapterEntry) → Type 0
Unlinked router = All (λ n. All (λ e. is_linked_to router e.router ≡ false) n.1)

reset_links-Unlinked :
    (router : ℕ) (es : List AdapterEntry)
    → All (λ e. is_linked_to router e.router ≡ false) (reset_links router es)
unfolding reset_links
reset_links-Unlinked router [] = tt
reset_links-Unlinked router (e ∷ es) = (reset_link-differs router e, reset_links-Unlinked router es)

reset_nodes-Unlinked :
    (router : ℕ) (ns : List (ℕ × List AdapterEntry)) → Unlinked router (reset_nodes router ns)
unfolding reset_nodes
reset_nodes-Unlinked router [] = tt
reset_nodes-Unlinked router ((node, es) ∷ ns) =
    (reset_links-Unlinked router es, reset_nodes-Unlinked router ns)

-- A router that was removed is not found, and no adapter is linked to it.
pub remove_router-Unlinked :
    (router : ℕ) (m : TrafficManager)
    → (find ltb router (remove_router router m).routers ≡ none)
      × Unlinked router (remove_router router m).nodes
unfolding remove_router
remove_router-Unlinked router m = (
  find-erase_if_gone ltb ltb-IsOrder (equivalent ltb router) router m.routers
      (equivalent_refl ltb ltb-IsOrder router),
  reset_nodes-Unlinked router m.nodes,
)
