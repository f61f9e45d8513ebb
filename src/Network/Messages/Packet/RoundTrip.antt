-- ===== src/Network/Messages/Packet/RoundTrip.antt =====
-- Packets that `packet_codec_t::encode` writes, and what `decode` reads of them.
use discnet.Common.{
  ℕ, ◌+◌, ◌%◌, ◌^◌, ◌≤◌, ◌<◌, ◌≡◌, refl, ap, ◌∙◌, arith, List, [], ◌∷◌, ◌++◌, append_assoc,
  append-nil, true, le→ltb, ==_refl, length, length-append, length-take, length-drop, take, drop,
  All,
}
use discnet.Host.{Host, IsHost, load-lt}
use discnet.Network.Buffer.{Buffer, new, bytes_left_to_read, reset_read}
use discnet.Network.Buffer.Invariant.{All-take, All-drop}
use discnet.Network.Buffer.Reading.{Holds, reset_read-eq, bytes_left-Holds}
use discnet.Network.Buffer.Writing.{Written, Written-new}
use discnet.Network.Messages.Decoder.{
  value, message_failed, header_failed, read_word, read_bytes, Parsed, Parses, Parses-pure,
  Parses-bind, Parses-bind_lead, Parses-map, Parses-then, Parses-map_error, Parses-word,
  Parses-bytes, word, length-word, flat,
}
use discnet.Network.Messages.Header.{of_uint16, to_uint16}
use discnet.Network.Messages.Header
use discnet.Network.Messages.DataMessage
use discnet.Network.Messages.DiscoveryMessage
use discnet.Network.Messages.Packet.{
  Message, of_discovery, of_data, message_bytes, total_packet_size, last_part_digest, encode,
  compare_checksum, validate_checksum, validate_size, validate_packet, decode_body, decode_message,
  decode_messages, decode_fields, decode_valid, decode,
}
use discnet.Network.Messages.Packet.Wire.{
  IsMessage, message_wire, prefix, wire_after, wire, length-prefix, length-wire_after, encode-new,
}

-- Messages whose fields, counts and total size the packet's own fields can hold.
pub record IsPacket (ms : List Message) : Type 0 where
  pub messages-IsMessage : All IsMessage ms
  pub length-lt : length ms < 2 ^ 16
  pub size-lt : total_packet_size ms < 2 ^ 32

last_part_digest-lt : (h : Host) (xs : List ℕ) → IsHost h → last_part_digest h xs < 2 ^ 32
unfolding last_part_digest
last_part_digest-lt h xs laws =
    rw four at (load-lt part (All-take 4 _ (All-drop 12 _ (laws.digest-IsByte xs))))
  where
    part : List ℕ
    part = take 4 (drop 12 (h.digest xs))

    four : length part ≡ 4
    four = omega (
      arith,
      length-take 4 (drop 12 (h.digest xs)),
      length-drop 12 (h.digest xs),
      laws.length-digest xs,
    )

decode_message-Parses :
    (h : Host) (i : ℕ) (m : Message)
    → IsHost h
    → IsMessage m
    → Parses 1 (decode_message h i) (message_wire h m) m
unfolding decode_message decode_body message_wire DiscoveryMessage.Wire.wire DataMessage.Wire.wire
    Header.Wire.wire to_uint16 of_uint16
decode_message-Parses h i (of_discovery m) laws ok =
    Parses-bind 1 _ _ _ (DiscoveryMessage.Wire.body h m) _ (of_discovery m)
      (Parses-map_error 1 (header_failed i) (Header.decode h) _ _
        (Header.Wire.decode-Parses h 1 _ 1 laws (omega arith) (omega arith)))
      (Parses-map 1 _ of_discovery _ m (
        Parses-map_error 1 (message_failed i) (DiscoveryMessage.decode h) _ m
          (DiscoveryMessage.Wire.decode-Parses h 1 m laws ok)))
decode_message-Parses h i (of_data m) laws ok =
    Parses-bind 1 _ _ _ (DataMessage.Wire.body h m) _ (of_data m)
      (Parses-map_error 1 (header_failed i) (Header.decode h) _ _
        (Header.Wire.decode-Parses h 1 _ 2 laws (omega arith) (omega arith)))
      (Parses-map 1 _ of_data _ m (
        Parses-map_error 1 (message_failed i) (DataMessage.decode h) _ m
          (DataMessage.Wire.decode-Parses h 1 m laws (omega arith) ok)))

decode_messages-Parses :
    (h : Host) (i : ℕ) (ms : List Message)
    → IsHost h
    → All IsMessage ms
    → Parses 1 (decode_messages h i (length ms)) (flat (message_wire h) ms) ms
unfolding decode_messages
decode_messages-Parses h i [] laws ok = Parses-pure 1 []
decode_messages-Parses h i (m ∷ ms) laws ok =
    Parses-bind 1 _ _ (message_wire h m) _ m (m ∷ ms) (decode_message-Parses h i m laws ok.0)
      (Parses-map 1 _ (◌∷◌ m) _ ms (decode_messages-Parses h (i + 1) ms laws ok.1))

-- The fields behind the size.
abbrev pub after_size : Host → List Message → List ℕ
after_size h ms =
    word h 2 (length ms)
    ++ (flat (message_wire h) ms ++ word h 4 (last_part_digest h (prefix h ms)))

module _ (h : Host) (ms : List Message) (laws : IsHost h) (ok : IsPacket ms) where
  digest : ℕ
  digest = last_part_digest h (prefix h ms)

  same_size : total_packet_size ms % 2 ^ 32 ≡ total_packet_size ms
  same_size = omega (arith, ok.size-lt)

  same_count : length ms % 2 ^ 16 ≡ length ms
  same_count = omega (arith, ok.length-lt)

  -- The packet's bytes in the order in which they are decoded.
  pub wire_fields : wire h ms ≡ word h 4 (total_packet_size ms) ++ after_size h ms
  unfolding wire_after prefix digest
  wire_fields =
      rw (same_size, same_count)
        (append_assoc (word h 4 (total_packet_size ms)) _ _
          ∙ ap (λ xs. word h 4 (total_packet_size ms) ++ xs)
              (append_assoc (word h 2 (length ms)) _ _))

  decode_fields-Parses : Parses 0 (decode_fields h) (wire h ms) (record { messages = ms })
  unfolding decode_fields digest
  decode_fields-Parses = rw wire_fields (
      Parses-bind 0 (read_word h 4) _ (word h 4 (total_packet_size ms)) _ (total_packet_size ms) _
        (Parses-word h 0 4 _ laws (omega arith) ok.size-lt)
        (Parses-bind 0 (read_word h 2) _ (word h 2 (length ms)) _ (length ms) _
          (Parses-word h 0 2 _ laws (omega arith) ok.length-lt)
          (Parses-bind_lead 1 0 (decode_messages h 0 (length ms)) _ (flat (message_wire h) ms)
            (word h 4 digest) ms _ (omega (arith, length-word h 4 digest))
            (decode_messages-Parses h 0 ms laws ok.messages-IsMessage)
            (Parses-map 0 (read_word h 4) (λ _. record { messages = ms }) (word h 4 digest) digest
              (Parses-word h 0 4 digest laws (omega arith)
                (last_part_digest-lt h (prefix h ms) laws))))))

  message_bytes-prefix : message_bytes (total_packet_size ms) ≡ length (prefix h ms)
  unfolding message_bytes
  message_bytes-prefix = omega (arith, length-prefix h ms, ok.size-lt)

  validate_checksum-Parses : Parses 0 (validate_checksum h (total_packet_size ms)) (wire h ms) true
  unfolding validate_checksum compare_checksum wire_after digest
  validate_checksum-Parses = rw message_bytes-prefix (
      Parses-bind_lead 1 0 (read_bytes (length (prefix h ms))) _ (prefix h ms) (word h 4 digest)
        (prefix h ms) true (omega (arith, length-word h 4 digest))
        (Parses-bytes 1 (prefix h ms) (omega arith))
        (Parses-then 0 (read_word h 4) _ (word h 4 digest) digest true
          (Parses-word h 0 4 digest laws (omega arith) (last_part_digest-lt h (prefix h ms) laws))
          (rw (==_refl digest))))

  module _ (b : Buffer) (rest : List ℕ) (start : b.read_offset ≡ 0)
      (held : Holds b (wire h ms ++ rest)) where
    left : bytes_left_to_read b ≡ total_packet_size ms + length rest
    left = omega (
      arith,
      bytes_left-Holds b _ held,
      length-append (wire h ms) rest,
      length-wire_after h [] ms,
    )

    -- The size field.
    size_Parsed : Parsed b (read_word h 4 b) (total_packet_size ms) (after_size h ms ++ rest)
    size_Parsed =
        Parses-word h 0 4 (total_packet_size ms) laws (omega arith) ok.size-lt b _ (omega arith)
          (rw (← append_assoc (word h 4 (total_packet_size ms)) _ rest, ← wire_fields) held)

    validate_size-Parsed :
        (c : Buffer)
        → reset_read c ≡ b
        → Parsed b (validate_size h (total_packet_size ms) c) true rest
    unfolding validate_size
    validate_size-Parsed c e =
        rw (e, le→ltb (bytes_left_to_read b) (total_packet_size ms) (omega (arith, left)))
          (validate_checksum-Parses b rest (omega arith) held)

    validate_packet-Parsed : Parsed b (validate_packet h b) true rest
    unfolding validate_packet
    validate_packet-Parsed =
        rw
          (
            le→ltb (bytes_left_to_read b) 4 (omega (arith, left, length-prefix h ms)),
            size_Parsed.result,
          )
          (validate_size-Parsed (read_word h 4 b).1
            (reset_read-eq b _ start size_Parsed.same_bytes size_Parsed.same_offset))

    -- A valid packet at the front of a buffer is read, whatever follows it.
    pub decode-Parsed : Parsed b (decode h b) (record { messages = ms }) rest
    unfolding decode decode_valid
    decode-Parsed =
        let p = validate_packet-Parsed in
        rw (p.result, reset_read-eq b (validate_packet h b).1 start p.same_bytes p.same_offset)
          (decode_fields-Parses b rest (omega arith) held)

-- Messages that fit a new buffer are encoded, and decoding that buffer gives the same messages and
-- reads all of it.
pub decode-encode :
    (h : Host) (ms : List Message) (n : ℕ)
    → IsHost h
    → IsPacket ms
    → total_packet_size ms ≤ n
    → ((encode h ms (new n)).0 ≡ true)
      × ((decode h (encode h ms (new n)).1).0 ≡ value (record { messages = ms }))
      × (bytes_left_to_read (decode h (encode h ms (new n)).1).1 ≡ 0)
decode-encode h ms n laws ok fits =
    (encoded.done, decoded.result, bytes_left-Holds _ [] decoded.holds)
  where
    encoded : Written (new n) (encode h ms (new n)) (wire h ms)
    encoded = encode-new h ms n fits

    decoded :
        Parsed
          (encode h ms (new n)).1
          (decode h (encode h ms (new n)).1)
          (record { messages = ms })
          []
    decoded =
        decode-Parsed h ms laws ok (encode h ms (new n)).1 []
          (encoded.same_read ∙ unfold new in refl)
          (rw append-nil
            (Written-new n _ (wire h ms) (omega (arith, length-wire_after h [] ms)) encoded))
