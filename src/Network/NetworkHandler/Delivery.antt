-- ===== src/Network/NetworkHandler/Delivery.antt =====
-- From `transmit_multicast` of one node to the signals of another.
use discnet.Common.{
  ℕ, zero, length-replicate, ◌≤◌, ◌<◌, ◌≡◌, ◌≢◌, ◌⊎◌, refl, sym, ap, ◌∙◌, inl, inr, arith,
  Bool-cases, leb, leb→le, leb→lt, ◌==◌, ==-IsEquality, if◌then◌else◌, List, [], ◌∷◌, ◌++◌,
  append-nil, length-append, not, some, insert, insert_or_assign, find,
}
use discnet.Host.{Host, IsHost}
use discnet.Network.Buffer.{new, const_buffer, data_span, remaining_bytes}
use discnet.Network.Buffer.Writing.{data_span-new}
use discnet.Network.Messages.Packet.{Message, total_packet_size}
use discnet.Network.Messages.Packet.Wire.{
  wire, encode-new, encode_refused, length-wire_after, total_packet_size-ge,
}
use discnet.Network.DataStream.{DataStream, new_stream, process, handle_receive}
use discnet.Network.DataStream.Framing.{Fits, IsCut, packet}
use discnet.Network.DataStream.Receiving.{receive_all, process-receive_all}
use discnet.Network.DataHandler.{
  Identifier, less-IsOrder, DataHandler, new_handler, add_stream, process_streams, process_all,
  receive_on, handle_datagram,
}
use discnet.Adapters.{Adapter}
use discnet.Network.NetworkHandler.{
  Client, multicast, NetworkHandler, emit, find_client, packet_bytes, multicast_on,
  transmit_multicast, new_clients, message_effects, packet_effects, stream_effects,
  add_client_result, update_clients, update, take_results,
}

packet_bytes-wire :
    (h : Host) (ms : List Message) → total_packet_size ms ≤ 4096 → packet_bytes h ms ≡ wire h ms
unfolding packet_bytes const_buffer
packet_bytes-wire h ms fits =
    unfold data_span in
    (encode-new h ms 4096 fits).written ∙ ap (λ xs. xs ++ wire h ms) (data_span-new 4096)

packet_bytes-empty :
    (h : Host) (ms : List Message) → 4096 < total_packet_size ms → packet_bytes h ms ≡ []
unfolding packet_bytes const_buffer
packet_bytes-empty h ms short =
    ap (λ r. const_buffer r.1) (encode_refused h ms (new 4096) room) ∙ unfold new in refl
  where
    room : remaining_bytes (new 4096) < total_packet_size ms
    room = unfold new remaining_bytes in omega (arith, short, length-replicate 4096 (zero))

-- A multicast on the client of an adapter that has a multicast address: the packet where its
-- messages fit 4096 bytes, and otherwise a datagram of no bytes.
pub transmit_multicast_cases :
    (h : Host) (a : Adapter) (ms : List Message) (c : Client) (s : NetworkHandler)
    → find_client a.mac_address s.clients ≡ some c
    → c.info.multicast ≢ 0
    → (total_packet_size ms ≤ 4096)
        × (transmit_multicast h a ms s ≡ emit (multicast c.info (wire h ms)) s)
      ⊎ (4096 < total_packet_size ms) × (transmit_multicast h a ms s ≡ emit (multicast c.info []) s)
unfolding transmit_multicast
transmit_multicast_cases h a ms c s found group =
    elim (Bool-cases (leb (total_packet_size ms) 4096)) [
      | inl fits ↦
          let room = leb→le (total_packet_size ms) 4096 fits in
          inl (room, rw (found, packet_bytes-wire h ms room) (written (wire h ms)))
      | inr short ↦
          let few = leb→lt (total_packet_size ms) 4096 short in
          inr (few, rw (found, packet_bytes-empty h ms few) (written []))
    ]
  where
    written : (bytes : List ℕ) → multicast_on (some c) bytes s ≡ emit (multicast c.info bytes) s
    written bytes = elim (Bool-cases (c.info.multicast == 0)) [
      | inl any ↦ absurd (group (==-IsEquality.sound c.info.multicast 0 any))
      | inr some_group ↦
          unfold multicast_on in
          ap (λ b. if not b then emit (multicast c.info bytes) s else s) some_group
    ]

-- The first datagram of a stream begins it.
handle_datagram-new :
    (grow : ℕ → ℕ → ℕ) (now : ℕ) (bytes : List ℕ) (i : Identifier) (n : ℕ)
    → handle_datagram grow now bytes i.sender_ip i.recipient_ip (new_handler n) ≡ record {
      streams = (i, handle_receive grow now bytes (new_stream now n)) ∷ [];
      buffer_size = n;
    }
unfolding handle_datagram receive_on new_handler find insert insert_or_assign
handle_datagram-new grow now bytes i n = rw (less-IsOrder.irreflexive i) refl

empty-IsCut : (h : Host) (ms : List Message) → Fits ms → IsCut h []
empty-IsCut h ms fits = record {
  next = ms;
  fits = fits;
  missing = wire h ms;
  some_missing = omega (arith, length-wire_after h [] ms, total_packet_size-ge ms);
  whole = refl;
}

process-wire :
    (h : Host) (grow : ℕ → ℕ → ℕ) (now n : ℕ) (ms : List Message)
    → IsHost h
    → Fits ms
    → total_packet_size ms ≤ n
    → (s : DataStream) × (process h (handle_receive grow now (wire h ms) (new_stream now n))
        ≡ some (s, packet ms ∷ []))
process-wire h grow now n ms laws fits room = (
  record (handle_receive grow now (wire h ms) (new_stream now n)) { buffer = [] },
  unfold receive_all in
      process-receive_all h grow now n ((now, wire h ms) ∷ []) (ms ∷ []) [] laws (fits, tt)
        (empty-IsCut h ms fits) (sym (append-nil (wire h ms ++ [])))
        (omega (arith, length-wire_after h [] ms, length-append (wire h ms) [])),
)

-- Delivery: messages that fit 4095 bytes, sent in a datagram to a client that has received nothing
-- yet, are signalled by its network handler's next update, each of them, in order, with the
-- addresses of the datagram and the time of the update.
pub update-packet_bytes :
    (h : Host) (grow : ℕ → ℕ → ℕ) (now current : ℕ) (i : Identifier) (ms : List Message)
    (c : Client) (s : NetworkHandler)
    → IsHost h
    → Fits ms
    → total_packet_size ms ≤ 4095
    → c.handler
      ≡ handle_datagram grow now (packet_bytes h ms) i.sender_ip i.recipient_ip (new_handler 4095)
    → s.clients ≡ c ∷ []
    → s.adapter_init_list ≡ []
    → (t : NetworkHandler) × (update h current s ≡ some t)
      × (t.effects
          ≡ s.effects
            ++ message_effects
                (record {
                  adapter = c.info.adapter;
                  sender = i.sender_ip;
                  receiver = i.recipient_ip;
                  reception_time = current;
                })
                ms)
update-packet_bytes h grow now current i ms c s laws fits room received alone settled = (
  _,
  updated,
  unfold stream_effects packet_effects in
      ap (λ es. s.effects ++ es) (append-nil _ ∙ append-nil _ ∙ append-nil _),
)
  where
    stored : c.handler ≡ record {
      streams = (i, handle_receive grow now (wire h ms) (new_stream now 4095)) ∷ [];
      buffer_size = 4095;
    }
    stored =
        received
        ∙ ap (λ bytes. handle_datagram grow now bytes i.sender_ip i.recipient_ip (new_handler 4095))
            (packet_bytes-wire h ms (omega arith))
        ∙ handle_datagram-new grow now (wire h ms) i 4095

    sent :
        (d : DataHandler) × (process_all h c.handler
          ≡ some (d, record { identifier = i; packets = packet ms ∷ [] } ∷ []))
    sent =
        let (stream, e) = process-wire h grow now 4095 ms laws fits room in
        (
          record { streams = (i, stream) ∷ []; buffer_size = 4095 },
          unfold process_all process_streams add_stream in rw stored (rw e refl),
        )

    updated :
        update h current s
        ≡ some (record s {
          clients = record c { handler = sent.0 } ∷ [];
          adapter_init_list = [];
          effects =
              s.effects
              ++ (stream_effects c.info.adapter current
                    (record { identifier = i; packets = packet ms ∷ [] } ∷ [])
                  ++ []);
        })
    updated =
        unfold update update_clients add_client_result new_clients take_results in
        rw (alone, settled, sent.1) refl
