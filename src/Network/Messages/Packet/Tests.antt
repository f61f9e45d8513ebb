-- ===== src/Network/Messages/Packet/Tests.antt =====
-- Runs of the packet codec, and its theorems at concrete inputs.
use discnet.Common.{
  length, take, ◌-◌, ◌≤◌, ◌<◌, ◌≡◌, refl, ◌∙◌, arith, List, [], ◌∷◌, ◌⊎◌, true, false, append-nil,
}
use discnet.Host.Swapping.{swapping, swapping-IsHost}
use discnet.Network.Buffer.{Buffer, new, data_span, bytes_left_to_read, remaining_bytes}
use discnet.Network.Buffer.Writing.{Written, Written-new}
use discnet.Network.Messages.Decoder.{value}
use discnet.Network.Messages.DataMessage.{DataMessage}
use discnet.Network.Messages.DataMessage
use discnet.Network.Messages.DiscoveryMessage
use discnet.Network.Messages.DiscoveryMessage.{DiscoveryMessage, Node}
use discnet.Network.Messages.Packet.{
  Message, of_discovery, of_data, total_packet_size, message_size, encode, decode, last_part_digest,
}
use discnet.Network.Messages.Packet.Wire.{
  wire, wire_after, encode-new, encode_cases, length-wire_after,
}
use discnet.Network.Buffer.Reading.{Holds}
use discnet.Network.Messages.Packet.Accepted.{size_of, checksum_of, size_of-wire, decode-checksum}
use discnet.Network.Messages.Packet.RoundTrip.{IsPacket, decode-encode, decode-Parsed}

-- The messages of the test `buffer_t__packet` in discnet_test.
abbrev announcement : DiscoveryMessage
announcement = record {
  identifier = 1024;
  nodes = record { identifier = 1025; address = 0xc0c8_0101; jumps = 512 ∷ 256 ∷ [] } ∷ [];
}

abbrev payload : DataMessage
payload = record { identifier = 1; buffer = 1 ∷ 2 ∷ 3 ∷ 4 ∷ 5 ∷ [] }

abbrev both : List Message
both = of_discovery announcement ∷ of_data payload ∷ []

both_size : total_packet_size both ≡ 0x2f
unfolding total_packet_size message_size DiscoveryMessage.encoded_size DataMessage.encoded_size
both_size = refl

both-IsPacket : IsPacket both
both-IsPacket = record {
  messages-IsMessage = omega arith;
  length-lt = omega arith;
  size-lt = omega (arith, both_size);
}

decode-encode_example :
    ((encode swapping both (new 1024)).0 ≡ true)
    × ((decode swapping (encode swapping both (new 1024)).1).0 ≡ value (record { messages = both }))
    × (bytes_left_to_read (decode swapping (encode swapping both (new 1024)).1).1 ≡ 0)
decode-encode_example =
    decode-encode swapping both 1024 swapping-IsHost both-IsPacket (omega (arith, both_size))

-- The packet in a buffer of its own.
abbrev filled : Buffer
filled = (encode swapping both (new 47)).1

filled-Written : Written (new 47) (encode swapping both (new 47)) (wire swapping both)
filled-Written = encode-new swapping both 47 (omega (arith, both_size))

encode_cases_example :
    (47 ≤ 40) × Written (new 40) (encode swapping both (new 40)) (wire_after swapping [] both)
    ⊎ (40 < 47) × (encode swapping both (new 40) ≡ (false, new 40))
unfolding new data_span remaining_bytes total_packet_size message_size DiscoveryMessage.encoded_size
    DataMessage.encoded_size
encode_cases_example = encode_cases swapping both (new 40) (omega arith)

filled_start : filled.read_offset ≡ 0
filled_start = filled-Written.same_read ∙ unfold new in refl

filled-Holds : Holds filled (wire swapping both)
filled-Holds =
    Written-new 47 (encode swapping both (new 47)) (wire swapping both)
      (omega (arith, both_size, length-wire_after swapping [] both)) filled-Written

decode-checksum_example :
    (size_of swapping (wire swapping both) ≤ length (wire swapping both))
    × (checksum_of swapping (wire swapping both)
        ≡ last_part_digest swapping
            (take (size_of swapping (wire swapping both) - 4) (wire swapping both)))
decode-checksum_example =
    decode-checksum swapping filled (wire swapping both) filled_start filled-Holds
      (record { messages = both }) (omega (arith, both_size, length-wire_after swapping [] both))
      (omega (arith, both_size, size_of-wire swapping both swapping-IsHost both-IsPacket))
      (decode-Parsed swapping both swapping-IsHost both-IsPacket filled [] filled_start
        (rw append-nil filled-Holds)).result
