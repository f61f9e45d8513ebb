-- ===== src/Simulator/Nodes/Bookkeeping.antt =====
-- discnet_sim/src/simulator/simulator.cpp and network_adapter_fetcher.h: the nodes of a simulation and the adapters of a node.
use mathlib.Core.List.{Memᴰ}
use discnet.Common.{
  ℕ, ◌-◌, ◌^◌, ◌≡◌, ◌⊎◌, refl, ap, ◌∙◌, inl, inr, ◌==◌, ltb, Bool, true, false, Bool-cases, List,
  [], ◌∷◌, All, Option, none, some, Option-cases, equivalent, equivalent_refl, find,
  find-erase_if_gone,
}
use discnet.Network.NetworkHandler.{UdpInfo}
use discnet.Simulator.{data_sent}
use discnet.Simulator.Routing.{ltb-IsOrder, data_sent-remove_node}
use discnet.Simulator.Nodes.{
  FetcherEntry, Fetcher, front_is, identifier_if, get_identifier, Simulation, find_node,
  remove_found, remove_node,
}

-- Removing a node on both branches. A node that is there is gone, what it sends reaches nobody, and
-- the answer is true; for a node that is not there the answer is false, and nothing changes.
pub remove_node_cases :
    (identifier : ℕ) (s : Simulation)
    → (((remove_node identifier s).0 ≡ true)
        × (find_node identifier (remove_node identifier s).1 ≡ none)
        × ((info : UdpInfo) (bytes : List ℕ)
            → data_sent identifier info bytes (remove_node identifier s).1.traffic ≡ []))
      ⊎ ((find_node identifier s ≡ none) × (remove_node identifier s ≡ (false, s)))
unfolding remove_node remove_found find_node
remove_node_cases identifier s = elim (Option-cases (find ltb identifier s.nodes)) [
  | inl absent ↦ inr (absent, rw absent refl)
  | inr (n, found) ↦ inl (
      rw found (
        refl,
        find-erase_if_gone ltb ltb-IsOrder (equivalent ltb identifier) identifier s.nodes
            (equivalent_refl ltb ltb-IsOrder identifier),
        λ info bytes. data_sent-remove_node identifier info bytes s.traffic,
      ))
]

-- An entry whose first address is `address`.
abbrev pub IsFirst : ℕ → FetcherEntry → Type 0
IsFirst address e = front_is address e.adapter.address_list ≡ some true

front_is_cases :
    (address : ℕ) (addresses : List (ℕ × ℕ))
    → ((addresses ≡ []) × (front_is address addresses ≡ none))
      ⊎ ((front_is address addresses ≡ some true) ⊎ (front_is address addresses ≡ some false))
unfolding front_is
front_is_cases address [] = inl (refl, refl)
front_is_cases address ((first, mask) ∷ rest) = elim (Bool-cases (first == address)) [
  | inl same ↦ inr (inl (ap some same))
  | inr other ↦ inr (inr (ap some other))
]

-- The identifier for an address: the one of an adapter that has the address first, or the greatest
-- number of 32 bits, or, where the search comes to an adapter without an address, no defined result.
pub get_identifier_cases :
    (address : ℕ) (f : Fetcher)
    → ((e : FetcherEntry) × Memᴰ e f
        × IsFirst address e
        × (get_identifier address f ≡ some e.identifier))
      ⊎ ((All (λ (e : FetcherEntry). front_is address e.adapter.address_list ≡ some false) f
            × (get_identifier address f ≡ some (2 ^ 32 - 1)))
          ⊎ ((e : FetcherEntry) × Memᴰ e f
              × (e.adapter.address_list ≡ [])
              × (get_identifier address f ≡ none)))
unfolding get_identifier identifier_if
get_identifier_cases address [] = inr (inl (tt, refl))
get_identifier_cases address (e ∷ f) = elim (front_is_cases address e.adapter.address_list) [
  | inl (bare, undefined) ↦ inr (inr (e, Memᴰ.head refl, bare, ap chosen undefined))
  | inr (inl own) ↦ inl (e, Memᴰ.head refl, own, ap chosen own)
  | inr (inr other) ↦ elim (get_identifier_cases address f) [
    | inl (e', has, own, found) ↦ inl (e', Memᴰ.tail has, own, ap chosen other ∙ found)
    | inr (inl (all, greatest)) ↦ inr (inl ((other, all), ap chosen other ∙ greatest))
    | inr (inr (e', has, bare, undefined)) ↦
        inr (inr (e', Memᴰ.tail has, bare, ap chosen other ∙ undefined))
  ]
]
  where
    chosen : Option Bool → Option ℕ
    chosen o = identifier_if o e.identifier (get_identifier address f)
