-- ===== src/Simulator/Tests.antt =====
-- Runs of the simulator's traffic, and its theorems at concrete inputs.
use mathlib.Core.List.{Memᴰ}
use discnet.Common.{
  refl, arith, true, some, insert, insert_or_assign, equivalent, ℕ, ◌≡◌, [], ◌∷◌, ltb, find,
}
use discnet.Simulator.{
  AdapterEntry, link, link_found, link_entry, entries_of, add_participant, SimulatorClient,
  TrafficManager, add_node, add_router, add_link, data_sent,
}
use discnet.Simulator.Reaching.{add_link-reaches}
use discnet.Simulator.Routing.{NotBack, data_sent-NotBack}

abbrev client : ℕ → SimulatorClient
client n = record { number = n; info = record { adapter = n; multicast = 4026531841; port = 1337 } }

-- Two nodes on a router.
abbrev linked : TrafficManager
linked =
    (add_link 11 2 5
      (add_link 10 1 5
        (add_router 5 (
          add_node 11 2 (client 2)
            (add_node 10 1 (client 1) (record { nodes = []; routers = [] })))).1).1).1

data_sent-NotBack_example : NotBack 10 (data_sent 10 (client 1).info (7 ∷ []) linked)
data_sent-NotBack_example = data_sent-NotBack 10 (client 1).info (7 ∷ []) linked

-- Only the first of the nodes is linked.
abbrev half_linked : TrafficManager
half_linked =
    (add_link 10 1 5
      (add_router 5 (
        add_node 11 2 (client 2)
          (add_node 10 1 (client 1) (record { nodes = []; routers = [] })))).1).1

abbrev entry : AdapterEntry
entry = record { adapter_identifier = 1; router = some 5; client = client 1 }

entry-known : find ltb 10 half_linked.nodes ≡ some (entry ∷ [])
unfolding add_link link link_found link_entry add_router add_node entries_of add_participant find
    insert insert_or_assign equivalent
entry-known = refl

linked_then : add_link 11 2 5 half_linked ≡ (true, (add_link 11 2 5 half_linked).1)
unfolding add_link link link_found link_entry add_router add_node entries_of add_participant find
    insert insert_or_assign equivalent
linked_then = refl

add_link-reaches_example :
    (c : SimulatorClient) × Memᴰ
      (record { node = 11; client = c; bytes = 7 ∷ []; sender = 1 })
      (data_sent 10 (client 1).info (7 ∷ []) (add_link 11 2 5 half_linked).1)
add_link-reaches_example =
    add_link-reaches 10 11 5 2 (client 1).info (7 ∷ []) half_linked (add_link 11 2 5 half_linked).1
      (entry ∷ []) entry entry-known (Memᴰ.head refl) refl refl (λ e. absurd (omega (arith, e)))
      linked_then
