-- ===== src/Network/DataHandler.antt =====
-- network/data_handler.cpp: a stream for each pair of a sender and a recipient.
pub mod Streams
pub mod Tests
use discnet.Common.{
  ℕ, ◌≡◌, ◌==◌, ltb, ◌<◌, arith, refl, ltb→le, le→ltb, ap₂, Bool, true, false, ◌&&◌, ◌||◌, List, [],
  ◌∷◌, ◌++◌, Option, none, some, map, find, insert, insert_or_assign, IsOrder,
}
use mathlib.Core.Option
use discnet.Host.{Host}
use discnet.Network.Messages.Packet.{Packet}
use discnet.Network.DataStream.{DataStream, new_stream, process, handle_receive}

-- `data_stream_identifier`, of addresses of 32 bits.
pub record Identifier : Type 0 where
  pub sender_ip : ℕ
  pub recipient_ip : ℕ

-- `operator<`.
unfoldable pub less : Identifier → Identifier → Bool
less a b =
    ltb a.sender_ip b.sender_ip
    || ((a.sender_ip == b.sender_ip) && ltb a.recipient_ip b.recipient_ip)

pub record DataHandler : Type 0 where
  pub streams : List (Identifier × DataStream)
  pub buffer_size : ℕ

unfoldable pub new_handler : ℕ → DataHandler
new_handler buffer_size = record { streams = []; buffer_size = buffer_size }

-- `data_stream_packets_t`.
pub record StreamPackets : Type 0 where
  pub identifier : Identifier
  pub packets : List Packet

-- One stream's result in front of those of the streams behind it.
unfoldable pub add_stream :
    Identifier
    → Option (DataStream × List Packet)
    → Option (List (Identifier × DataStream) × List StreamPackets)
    → Option (List (Identifier × DataStream) × List StreamPackets)
add_stream i (some (s, ps)) (some (streams, result)) =
    some ((i, s) ∷ streams, record { identifier = i; packets = ps } ∷ result)
add_stream i (some r) none = none
add_stream i none rest = none

-- The loop over the streams, in the order of their identifiers; `none` when a stream ran out of fuel.
unfoldable pub process_streams :
    Host
    → List (Identifier × DataStream)
    → Option (List (Identifier × DataStream) × List StreamPackets)
process_streams h [] = some ([], [])
process_streams h ((i, s) ∷ streams) = add_stream i (process h s) (process_streams h streams)

unfoldable pub process_all : Host → DataHandler → Option (DataHandler × List StreamPackets)
process_all h d = Option.map (λ r. (record d { streams = r.0 }, r.1)) (process_streams h d.streams)

-- The stream of a datagram: the one that is there, or the one that is emplaced at the time `now`.
unfoldable pub receive_on :
    Option DataStream → (ℕ → ℕ → ℕ) → ℕ → List ℕ → Identifier → DataHandler → DataHandler
receive_on (some s) grow now bytes i d = record d {
  streams = insert_or_assign less i (handle_receive grow now bytes s) d.streams;
}
receive_on none grow now bytes i d =
    let emplaced = insert less i (new_stream now d.buffer_size) d.streams in
    record d {
      streams =
          insert_or_assign less i (handle_receive grow now bytes (new_stream now d.buffer_size))
            emplaced;
    }

unfoldable pub handle_datagram : (ℕ → ℕ → ℕ) → ℕ → List ℕ → ℕ → ℕ → DataHandler → DataHandler
handle_datagram grow now bytes sender recipient d =
    let i : Identifier = record { sender_ip = sender; recipient_ip = recipient } in
    receive_on (find less i d.streams) grow now bytes i d

-- The order tells two identifiers apart exactly when they differ.
pub less-IsOrder : IsOrder less
unfolding less
less-IsOrder = record { irreflexive = irreflexive; antisymmetric = antisymmetric }
  where
    irreflexive : (i : Identifier) → less i i ≡ false
    irreflexive i = ground arith

    antisymmetric : (i j : Identifier) → less i j ≡ false → less j i ≡ false → i ≡ j
    antisymmetric i j p q = ground arith
