-- ===== src/Application/Node/Discovering.antt =====
-- From the announcement of one node to the routes of another, over the updates of both: application.cpp.
use discnet.Common.{ℕ, ◌≤◌, ◌≡◌, ap, ◌∙◌, List, [], ◌∷◌, All, some}
use mathlib.Core.Option
use discnet.Host.{Host, IsHost}
use discnet.Adapters.{Adapter, find_adapter}
use discnet.Network.Messages.DiscoveryMessage.{DiscoveryMessage}
use discnet.Network.Messages.Packet.{of_discovery, total_packet_size}
use discnet.Network.DataStream.Framing.{Fits}
use discnet.Network.DataHandler.{Identifier, handle_datagram, new_handler}
use discnet.Network.NetworkHandler
use discnet.Network.NetworkHandler.{Client, Effect, NetworkHandler, packet_bytes}
use discnet.Routes.Manager
use discnet.Routes.Manager.{RouteManager, NetworkInfo}
use discnet.Routes.Manager.Lasting.{update-Seen}
use discnet.Discovery.Announcement.{Learnt, update-Learnt}
use discnet.Application.Node
use discnet.Application.Node.{slots, update_adapters, update_routes, update}

All-map :
    {A : Type 0} (P Q : A → Type 0) (xs : List A) → ((x : A) → P x → Q x) → All P xs → All Q xs
All-map P Q [] f all = tt
All-map P Q (x ∷ xs) f (this, others) = (f x this, All-map P Q xs f others)

-- What is learnt is there after the update of the route manager.
Learnt-update :
    (second now : ℕ) (m : RouteManager) (a : Adapter) (info : NetworkInfo)
    (message : DiscoveryMessage)
    → Learnt m a info message
    → Learnt (Manager.update second now m) a info message
Learnt-update second now m a info message l = record {
  sender = update-Seen second now m a.guid _ info.reception_time l.sender;
  nodes =
      All-map _ _ message.nodes
        (λ n seen. update-Seen second now m a.guid _ info.reception_time seen) l.nodes;
}

quiet_network :
    (fetched : List Adapter) (n : Node.Node)
    → (update_adapters fetched n).adapters.signals ≡ []
    → (update_adapters fetched n).network ≡ record (n.network) { effects = [] }
unfolding update_adapters slots
quiet_network fetched n quiet = ap (λ es. slots es (record (n.network) { effects = [] })) quiet

-- A node whose adapters have not changed, and whose only client was sent a discovery message that
-- fits 4095 bytes, has after its next update a route to the sender and to every node of the message,
-- on the adapter it came in on and with the time of the update.
pub update-Learnt_node :
    (h : Host) (second : ℕ) (fetched : List Adapter) (grow : ℕ → ℕ → ℕ) (now current : ℕ)
    (i : Identifier) (message : DiscoveryMessage) (c : Client) (n : Node.Node) (a : Adapter)
    → IsHost h
    → Fits (of_discovery message ∷ [])
    → total_packet_size (of_discovery message ∷ []) ≤ 4095
    → c.handler
      ≡ handle_datagram grow now
          (packet_bytes h (of_discovery message ∷ []))
          i.sender_ip
          i.recipient_ip
          (new_handler 4095)
    → n.network.clients ≡ c ∷ []
    → n.network.adapter_init_list ≡ []
    → (update_adapters fetched n).adapters.signals ≡ []
    → find_adapter c.info.adapter (update_adapters fetched n).adapters ≡ some a
    → (t : Node.Node) × (update h second fetched current n ≡ some t)
      × Learnt t.routes a
          (record {
            adapter = c.info.adapter;
            sender = i.sender_ip;
            receiver = i.recipient_ip;
            reception_time = current;
          })
          message
unfolding update
update-Learnt_node h second fetched grow now current i message c n a laws fits room received alone
      settled quiet known =
    let same = quiet_network fetched n quiet in
    let (network, e, learnt) =
      update-Learnt h grow now current i message c (update_adapters fetched n).network
        (update_adapters fetched n).adapters n.routes a laws fits room received
        (ap (λ (s : NetworkHandler). s.clients) same ∙ alone)
        (ap (λ (s : NetworkHandler). s.adapter_init_list) same ∙ settled)
        (ap (λ (s : NetworkHandler). s.effects) same) known in
    (
      update_routes h second current (update_adapters fetched n) network,
      ap (Option.map (update_routes h second current (update_adapters fetched n))) e,
      unfold update_routes update_adapters in Learnt-update second current _ a _ message learnt,
    )
