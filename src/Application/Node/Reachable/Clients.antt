-- ===== src/Application/Node/Reachable/Clients.antt =====
-- network/network_handler.cpp: the clients, started and running, are all of the configured group.
use discnet.Common.{
  ℕ, ◌≡◌, refl, subst, inl, inr, Bool, true, false, Bool-cases, not, if◌then◌else◌, List, [], ◌∷◌,
  All, All-append, Option, none, some, Option-cases, some-injective, map-some, Text,
}
use discnet.Host.{Host}
use discnet.Adapters
use discnet.Adapters.{
  Adapter, equal_text, equal_address_list, new_adapter, changed_adapter, removed_adapter,
}
use discnet.Network.DataHandler.{DataHandler, StreamPackets, process_all}
use discnet.Network.NetworkHandler.{
  Client, Effect, Pending, running, ready, taken, NetworkHandler, emit, find_client, erase_client,
  remove_found, remove_client, client_of, start_client, add_client, adapter_added, change_found,
  adapter_changed, adapter_removed, new_clients, take_results, add_client_result, update_clients,
  update,
}
use discnet.Application.Node.{slot, slots}

module _ (group port : ℕ) where
  abbrev pub HasGroup : Client → Type 0
  HasGroup c = (c.info.multicast ≡ group) × (c.info.port ≡ port)

  abbrev pub IsStarting : Pending → Type 0
  IsStarting (running c) = HasGroup c
  IsStarting (ready (some c)) = HasGroup c
  IsStarting (ready none) = Unit
  IsStarting taken = Unit

  -- The network handler has the group of the configuration, and so have its clients.
  pub record IsGrouped (s : NetworkHandler) : Type 0 where
    pub own_group : s.multicast_address ≡ group
    pub own_port : s.multicast_port ≡ port
    pub running_clients : All HasGroup s.clients
    pub starting_clients : All IsStarting s.adapter_init_list

  erase_client-All :
      (id : Text) (cs : List Client) → All HasGroup cs → All HasGroup (erase_client id cs)
  unfolding erase_client
  erase_client-All id [] all = tt
  erase_client-All id (c ∷ cs) (this, others) =
      elim (Bool-cases (equal_text c.adapter_identifier id)) [
        | inl same ↦ rw same others
        | inr e ↦ rw e (this, erase_client-All id cs others)
      ]

  remove_client-IsGrouped :
      (a : Adapter) (s : NetworkHandler) → IsGrouped s → IsGrouped (remove_client a s)
  unfolding remove_client remove_found emit
  remove_client-IsGrouped a s g = elim (Option-cases (find_client a.mac_address s.clients)) [
    | inl absent ↦ rw absent g
    | inr (c, found) ↦ rw found (record {
      own_group = g.own_group;
      own_port = g.own_port;
      running_clients = erase_client-All a.mac_address s.clients g.running_clients;
      starting_clients = g.starting_clients;
    })
  ]

  start_client-IsGrouped :
      (a : Adapter) (addresses : List (ℕ × ℕ)) (s : NetworkHandler)
      → IsGrouped s
      → IsGrouped (start_client a addresses s)
  unfolding start_client client_of
  start_client-IsGrouped a [] s g = g
  start_client-IsGrouped a ((address, mask) ∷ rest) s g = elim (Bool-cases a.loopback) [
    | inl loopback ↦ rw loopback g
    | inr real ↦ rw real (record {
      own_group = g.own_group;
      own_port = g.own_port;
      running_clients = g.running_clients;
      starting_clients =
          All-append IsStarting s.adapter_init_list _ g.starting_clients
            ((g.own_group, g.own_port), tt);
    })
  ]

  choose-IsGrouped :
      (b : Bool) (s t : NetworkHandler) → IsGrouped s → IsGrouped t → IsGrouped (if b then s else t)
  choose-IsGrouped true s t g g' = g
  choose-IsGrouped false s t g g' = g'

  add_client-IsGrouped :
      (a : Adapter) (s : NetworkHandler) → IsGrouped s → IsGrouped (add_client a s)
  unfolding add_client
  add_client-IsGrouped a s g =
      choose-IsGrouped (not a.enabled) s _ g (start_client-IsGrouped a a.address_list s g)

  slot-IsGrouped : (e : Adapters.Signal) (s : NetworkHandler) → IsGrouped s → IsGrouped (slot e s)
  unfolding slot adapter_added adapter_changed adapter_removed change_found
  slot-IsGrouped (new_adapter a) s g = add_client-IsGrouped a s g
  slot-IsGrouped (removed_adapter a) s g = remove_client-IsGrouped a s g
  slot-IsGrouped (changed_adapter previous current) s g =
      elim (Option-cases (find_client current.mac_address s.clients)) [
        | inl absent ↦ rw absent g
        | inr (c, found) ↦
            rw found
              (elim (Bool-cases (equal_address_list previous.address_list current.address_list)) [
                | inl same ↦ rw same g
                | inr other ↦
                    rw other (add_client-IsGrouped current _ (remove_client-IsGrouped previous s g))
              ])
      ]

  pub slots-IsGrouped :
      (es : List Adapters.Signal) (s : NetworkHandler) → IsGrouped s → IsGrouped (slots es s)
  unfolding slots
  slots-IsGrouped [] s g = g
  slots-IsGrouped (e ∷ es) s g = slots-IsGrouped es (slot e s) (slot-IsGrouped e s g)

  new_clients-All : (ps : List Pending) → All IsStarting ps → All HasGroup (new_clients ps)
  unfolding new_clients
  new_clients-All [] all = tt
  new_clients-All (running c ∷ ps) (this, others) = new_clients-All ps others
  new_clients-All (ready (some c) ∷ ps) (this, others) = (this, new_clients-All ps others)
  new_clients-All (ready none ∷ ps) (this, others) = new_clients-All ps others
  new_clients-All (taken ∷ ps) (this, others) = new_clients-All ps others

  take_results-All : (ps : List Pending) → All IsStarting ps → All IsStarting (take_results ps)
  unfolding take_results
  take_results-All [] all = tt
  take_results-All (running c ∷ ps) (this, others) = (this, take_results-All ps others)
  take_results-All (ready r ∷ ps) (this, others) = (tt, take_results-All ps others)
  take_results-All (taken ∷ ps) (this, others) = (tt, take_results-All ps others)

  add_client_result-All :
      (current : ℕ) (c : Client) (o : Option (DataHandler × List StreamPackets))
      (rest : Option (List Client × List Effect)) (r : List Client × List Effect)
      → HasGroup c
      → ((q : List Client × List Effect) → rest ≡ some q → All HasGroup q.0)
      → add_client_result current c o rest ≡ some r
      → All HasGroup r.0
  unfolding add_client_result
  add_client_result-All current c none rest r this others e = absurd (cc e)
  add_client_result-All current c (some p) none r this others e = absurd (cc e)
  add_client_result-All current c (some p) (some q) r this others e =
      subst (λ (x : List Client × List Effect). All HasGroup x.0) (some-injective e)
        (this, others q refl)

  update_clients-All :
      (h : Host) (current : ℕ) (cs : List Client) (r : List Client × List Effect)
      → All HasGroup cs
      → update_clients h current cs ≡ some r
      → All HasGroup r.0
  unfolding update_clients
  update_clients-All h current [] r all e =
      subst (λ (x : List Client × List Effect). All HasGroup x.0) (some-injective e) tt
  update_clients-All h current (c ∷ cs) r (this, others) e =
      add_client_result-All current c (process_all h c.handler) (update_clients h current cs) r this
        (λ q f. update_clients-All h current cs q others f) e

  -- The update of the network handler keeps the group.
  pub update-IsGrouped :
      (h : Host) (current : ℕ) (s t : NetworkHandler)
      → IsGrouped s
      → update h current s ≡ some t
      → IsGrouped t
  unfolding update
  update-IsGrouped h current s t g e =
      let (r, found, same) = map-some _ (update_clients h current _) t e in
      subst IsGrouped same (record {
        own_group = g.own_group;
        own_port = g.own_port;
        running_clients =
            update_clients-All h current _ r
              (All-append HasGroup s.clients _ g.running_clients
                (new_clients-All s.adapter_init_list g.starting_clients))
              found;
        starting_clients = take_results-All s.adapter_init_list g.starting_clients;
      })
