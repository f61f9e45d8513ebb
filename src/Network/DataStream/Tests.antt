-- ===== src/Network/DataStream/Tests.antt =====
-- Runs of a stream, and its theorems at concrete inputs.
use discnet.Common.{
  ℕ, ◌+◌, ◌≡◌, ◌≢◌, refl, sym, ap, ◌∙◌, arith, List, [], ◌∷◌, ◌++◌, length-take, some, take, drop,
  take-append-drop, append-nil, length-drop, length-append,
}
use discnet.Host.{load}
use discnet.Host.Swapping.{swapping, swapping-IsHost, counting_digest}
use discnet.Network.Messages.Packet.{
  Message, of_data, Packet, total_packet_size, message_size, last_part_digest,
}
use discnet.Network.Messages.Packet.Wire.{wire, length-wire_after}
use discnet.Network.DataStream.{DataStream, new_stream, handle_receive, process}
use discnet.Network.DataStream.Termination.{process-total}
use discnet.Network.DataStream.Framing.{Fits, IsCut, packet}
use discnet.Network.DataStream.Receiving.{receive_all, process-receive_all, process-beyond}
use discnet.Network.Messages.DataMessage

abbrev small : List Message
small = of_data (record { identifier = 1; buffer = 1 ∷ 2 ∷ 3 ∷ [] }) ∷ []

small_size : total_packet_size small ≡ 23
unfolding total_packet_size message_size DataMessage.encoded_size
small_size = refl

small-Fits : Fits small
small-Fits = (
  record {
    messages-IsMessage = omega arith;
    length-lt = omega arith;
    size-lt = omega (arith, small_size);
  },
  omega (arith, small_size),
)

-- A packet, and the first seven bytes of another.
abbrev begun : List ℕ
begun = take 7 (wire swapping small)

begun-IsCut : IsCut swapping begun
begun-IsCut = record {
  next = small;
  fits = small-Fits;
  missing = drop 7 (wire swapping small);
  some_missing =
      omega (
        arith,
        length-drop 7 (wire swapping small),
        length-wire_after swapping [] small,
        small_size,
      );
  whole = sym (take-append-drop 7 (wire swapping small));
}

abbrev datagrams : List (ℕ × List ℕ)
datagrams = (5, wire swapping small) ∷ (6, begun) ∷ []

abbrev doubled : ℕ → ℕ → ℕ
doubled capacity n = n + n

process-receive_all_example :
    process swapping (receive_all doubled datagrams (new_stream 4 4095))
    ≡ some (
      record (receive_all doubled datagrams (new_stream 4 4095)) { buffer = begun },
      packet small ∷ [],
    )
process-receive_all_example =
    process-receive_all swapping doubled 4 4095 datagrams (small ∷ []) begun swapping-IsHost
      (small-Fits, tt) begun-IsCut
      (ap (λ xs. wire swapping small ++ xs) (append-nil begun)
        ∙ ap (λ xs. xs ++ begun) (sym (append-nil (wire swapping small))))
      (omega (
        arith,
        length-append (wire swapping small) (begun ++ []),
        length-append begun [],
        length-take 7 (wire swapping small),
        length-wire_after swapping [] small,
        small_size,
      ))

abbrev frames : DataStream
frames = record (new_stream 4 64) { buffer = wire swapping small ++ begun }

abbrev noise : List ℕ
noise = 9 ∷ 8 ∷ 7 ∷ 6 ∷ 5 ∷ []

process-total_example :
    (r : DataStream × List Packet) × (process swapping (record (new_stream 4 10) { buffer = noise })
      ≡ some r)
process-total_example = process-total swapping (record (new_stream 4 10) { buffer = noise })

digest-ne-zero : last_part_digest swapping [] ≢ 0
unfolding last_part_digest counting_digest load
digest-ne-zero e = cc e

-- Five bytes into a stream that has room for four.
process-beyond_example :
    process swapping (handle_receive doubled 7 noise (new_stream 4 4))
    ≡ some (record (handle_receive doubled 7 noise (new_stream 4 4)) { buffer = [] }, [])
unfolding new_stream
process-beyond_example =
    process-beyond swapping doubled 7 noise (new_stream 4 4) swapping-IsHost digest-ne-zero
      (omega arith) (omega arith) (omega arith)
