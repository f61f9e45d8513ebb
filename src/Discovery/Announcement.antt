-- ===== src/Discovery/Announcement.antt =====
-- From the discovery message of one node to the routes of another.
use discnet.Common.{ℕ, ◌≤◌, ◌≡◌, sym, subst, ◌∙◌, [], ◌∷◌, All, some, inl, inr}
use mathlib.Core.Option
use discnet.Host.{Host, IsHost}
use discnet.Network.Messages.DiscoveryMessage.{DiscoveryMessage, Node}
use discnet.Network.Messages.Packet.{of_discovery, total_packet_size}
use discnet.Network.DataStream.Framing.{Fits}
use discnet.Network.DataHandler.{Identifier, handle_datagram, new_handler}
use discnet.Network.NetworkHandler.{
  Client, NetworkHandler, packet_bytes, message_effect, message_effects, update,
}
use discnet.Network.NetworkHandler.Delivery.{update-packet_bytes}
use discnet.Adapters.{Adapter, AdapterManager, find_adapter}
use discnet.Routes.Manager.{RouteManager, NetworkInfo, process_discovery_message}
use discnet.Routes.Manager.Processing.{Seen}
use discnet.Routes.Manager.Messages.{route_to, process_discovery_message_cases}
use discnet.Discovery.{connected}

-- The routes that a message leaves on an adapter.
pub record Learnt (m : RouteManager) (a : Adapter) (info : NetworkInfo) (message : DiscoveryMessage)
    : Type 0 where
  pub sender : Seen m a.guid (route_to info message.identifier info.sender) info.reception_time
  pub nodes :
      All
        (λ (n : Node). Seen m a.guid (route_to info n.identifier n.address) info.reception_time)
        message.nodes

process_discovery_message-Learnt :
    (adapters : AdapterManager) (message : DiscoveryMessage) (info : NetworkInfo) (m : RouteManager)
    (a : Adapter)
    → find_adapter info.adapter adapters ≡ some a
    → Learnt (process_discovery_message adapters message info m).1 a info message
process_discovery_message-Learnt adapters message info m a known =
    elim (process_discovery_message_cases adapters message info m) [
      | inl (unknown, unchanged) ↦ absurd (cc (sym unknown ∙ known))
      | inr (b, found, answer, sender, nodes) ↦
          subst (λ x. Learnt (process_discovery_message adapters message info m).1 x info message)
            (Option.some-injective b a (sym found ∙ known))
            (record { sender = sender; nodes = nodes })
    ]

-- Discovery: the packet of one discovery message that fits 4095 bytes comes in on a client, on an
-- adapter that is known. The next update of the network handler ends, and its signals leave a route
-- to the sender and to every node of the message among the routes of that adapter.
pub update-Learnt :
    (h : Host) (grow : ℕ → ℕ → ℕ) (now current : ℕ) (i : Identifier) (message : DiscoveryMessage)
    (c : Client) (s : NetworkHandler) (adapters : AdapterManager) (m : RouteManager) (a : Adapter)
    → IsHost h
    → Fits (of_discovery message ∷ [])
    → total_packet_size (of_discovery message ∷ []) ≤ 4095
    → c.handler
      ≡ handle_datagram grow now
          (packet_bytes h (of_discovery message ∷ []))
          i.sender_ip
          i.recipient_ip
          (new_handler 4095)
    → s.clients ≡ c ∷ []
    → s.adapter_init_list ≡ []
    → s.effects ≡ []
    → find_adapter c.info.adapter adapters ≡ some a
    → (t : NetworkHandler) × (update h current s ≡ some t)
      × Learnt
          (connected adapters t.effects m)
          a
          (record {
            adapter = c.info.adapter;
            sender = i.sender_ip;
            receiver = i.recipient_ip;
            reception_time = current;
          })
          message
update-Learnt h grow now current i message c s adapters m a laws fits room received alone settled
      silent known =
    let (t, updated, signalled) =
      update-packet_bytes h grow now current i (of_discovery message ∷ []) c s laws fits room
        received alone settled in
    (
      t,
      updated,
      rw (signalled, silent)
          (unfold connected message_effects message_effect in
            process_discovery_message-Learnt adapters message _ m a known),
    )
