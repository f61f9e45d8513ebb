-- ===== src/Network/NetworkHandler/Clients.antt =====
-- Which adapters have a client, started or running.
use discnet.Common.{
  ℕ, ◌≡◌, ◌≢◌, ◌⊎◌, refl, ap, subst, ◌∙◌, inl, inr, Bool, true, false, Bool-cases, not,
  if◌then◌else◌, List, [], ◌∷◌, ◌++◌, All, none, Option-cases, Text,
}
use discnet.Adapters.{Adapter, equal_text}
use discnet.Adapters.Update.{equal_text-IsEquality}
use discnet.Network.NetworkHandler.{
  Client, running, NetworkHandler, emit, find_client, erase_client, remove_found, remove_client,
  client_of, start_client, add_client, adapter_added, adapter_removed,
}

-- No two clients for one adapter.
abbrev pub Distinct : List Client → Type 0
Distinct [] = Unit
Distinct (c ∷ cs) = All (λ d. d.adapter_identifier ≢ c.adapter_identifier) cs × Distinct cs

find_client-absent :
    (id : Text) (cs : List Client)
    → All (λ d. d.adapter_identifier ≢ id) cs
    → find_client id cs ≡ none
unfolding find_client
find_client-absent id [] all = refl
find_client-absent id (c ∷ cs) (other, others) =
    elim (Bool-cases (equal_text c.adapter_identifier id)) [
      | inl same ↦ absurd (other (equal_text-IsEquality.sound c.adapter_identifier id same))
      | inr e ↦ rw e (find_client-absent id cs others)
    ]

find_client-erase_client :
    (id : Text) (cs : List Client) → Distinct cs → find_client id (erase_client id cs) ≡ none
unfolding find_client erase_client
find_client-erase_client id [] distinct = refl
find_client-erase_client id (c ∷ cs) (first, rest) =
    elim (Bool-cases (equal_text c.adapter_identifier id)) [
      | inl same ↦ rw same (
          find_client-absent id cs (
            subst (λ i. All (λ d. d.adapter_identifier ≢ i) cs)
              (equal_text-IsEquality.sound c.adapter_identifier id same) first))
      | inr e ↦ rw e (rw e (find_client-erase_client id cs rest))
    ]

-- Where no two clients are for one adapter, an adapter that is removed has none left.
pub adapter_removed-find_client :
    (a : Adapter) (s : NetworkHandler)
    → Distinct s.clients
    → find_client a.mac_address (adapter_removed a s).clients ≡ none
unfolding adapter_removed remove_client remove_found emit
adapter_removed-find_client a s distinct =
    elim (Option-cases (find_client a.mac_address s.clients)) [
      | inl absent ↦ rw absent absent
      | inr (c, found) ↦ rw found (find_client-erase_client a.mac_address s.clients distinct)
    ]

-- A new adapter on every branch: a client of its first address is started exactly when it is
-- enabled, is no loopback adapter and has an address.
pub adapter_added_cases :
    (a : Adapter) (s : NetworkHandler)
    → ((address : ℕ) × (mask : ℕ) × (rest : List (ℕ × ℕ)) × (a.enabled ≡ true)
        × (a.loopback ≡ false)
        × (a.address_list ≡ (address, mask) ∷ rest)
        × (adapter_added a s ≡ record s {
          adapter_init_list = s.adapter_init_list ++ (running (client_of a address s) ∷ []);
        }))
      ⊎ (((a.enabled ≡ false) ⊎ ((a.loopback ≡ true) ⊎ (a.address_list ≡ [])))
          × (adapter_added a s ≡ s))
unfolding adapter_added add_client
adapter_added_cases a s = elim (Bool-cases a.enabled) [
  | inr disabled ↦ inr (inl disabled, ap enable disabled)
  | inl enabled ↦ elim (addresses a.address_list) [
    | inl without ↦ inr (
      inr (inr without),
      ap enable enabled ∙ ap (λ as'. start_client a as' s) without ∙ unfold start_client in refl,
    )
    | inr (address, mask, rest, has) ↦
        let begun = ap enable enabled ∙ ap (λ as'. start_client a as' s) has in
        elim (Bool-cases a.loopback) [
          | inl loopback ↦ inr (inr (inl loopback), begun ∙ choose address mask rest true loopback)
          | inr real ↦
              inl (
                address,
                mask,
                rest,
                enabled,
                real,
                has,
                begun ∙ choose address mask rest false real,
              )
        ]
  ]
]
  where
    enable : Bool → NetworkHandler
    enable b = if not b then s else start_client a a.address_list s

    started : ℕ → NetworkHandler
    started address = record s {
      adapter_init_list = s.adapter_init_list ++ (running (client_of a address s) ∷ []);
    }

    choose :
        (address mask : ℕ) (rest : List (ℕ × ℕ)) (b : Bool)
        → a.loopback ≡ b
        → start_client a ((address, mask) ∷ rest) s ≡ (if b then s else started address)
    choose address mask rest b e =
        unfold start_client in ap (λ b'. if b' then s else started address) e

    addresses :
        (l : List (ℕ × ℕ))
        → (l ≡ [])
          ⊎ ((address : ℕ) × (mask : ℕ) × (rest : List (ℕ × ℕ)) × (l ≡ (address, mask) ∷ rest))
    addresses [] = inl refl
    addresses ((address, mask) ∷ rest) = inr (address, mask, rest, refl)
