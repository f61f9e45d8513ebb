-- ===== src/Network/Messages/Packet/Wire.antt =====
-- The bytes of a packet, and what `packet_codec_t::encode` appends.
use discnet.Common.{
  Bool-cases, inl, inr, ◌⊎◌, leb, leb→le, leb→lt, ℕ, ◌+◌, ◌%◌, ◌^◌, ◌≤◌, ◌<◌, ◌≡◌, refl, ap₂, ◌∙◌,
  arith, List, [], ◌∷◌, ◌++◌, append_assoc, Bool, false, le→ltb, lt→ltb, length, length-append,
  length-replicate, zero,
}
use discnet.Host.{Host}
use discnet.Network.Buffer.{Buffer, new, data_span, remaining_bytes}
use discnet.Network.Buffer.Writing.{Written, data_span-new}
use discnet.Network.Messages.Decoder.{word, length-word, flat}
use discnet.Network.Messages.Encoder.{
  Writes, Writes-true, Writes-word, Writes-seq, Writes-last, append_word,
}
use discnet.Network.Messages.DataMessage.Wire.{IsDataMessage}
use discnet.Network.Messages.DataMessage
use discnet.Network.Messages.DiscoveryMessage.Wire.{IsDiscoveryMessage}
use discnet.Network.Messages.DiscoveryMessage
use discnet.Network.Messages.Packet.{
  Message, of_discovery, of_data, message_size, encode_message, sizes, total_packet_size,
  last_part_digest, encode_messages, append_checksum, encode_fields, encode,
}

abbrev pub IsMessage : Message → Type 0
IsMessage (of_discovery m) = IsDiscoveryMessage m
IsMessage (of_data m) = IsDataMessage m

unfoldable pub message_wire : Host → Message → List ℕ
message_wire h (of_discovery m) = DiscoveryMessage.Wire.wire h m
message_wire h (of_data m) = DataMessage.Wire.wire h m

-- All but the checksum.
unfoldable pub prefix : Host → List Message → List ℕ
prefix h ms =
    word h 4 (total_packet_size ms % 2 ^ 32)
    ++ (word h 2 (length ms % 2 ^ 16) ++ flat (message_wire h) ms)

-- What is appended behind `seen`: the digest is over all that the buffer holds.
unfoldable pub wire_after : Host → List ℕ → List Message → List ℕ
wire_after h seen ms = prefix h ms ++ word h 4 (last_part_digest h (seen ++ prefix h ms))

-- The bytes of a packet in a buffer of its own.
abbrev pub wire : Host → List Message → List ℕ
wire h ms = wire_after h [] ms

pub length-message_wire : (h : Host) (m : Message) → length (message_wire h m) ≡ message_size m
unfolding message_wire message_size
length-message_wire h (of_discovery m) = DiscoveryMessage.Wire.length-wire h m
length-message_wire h (of_data m) = DataMessage.Wire.length-wire h m

length-messages : (h : Host) (ms : List Message) → length (flat (message_wire h) ms) ≡ sizes ms
unfolding sizes
length-messages h [] = refl
length-messages h (m ∷ ms) = omega (
  arith,
  length-append (message_wire h m) (flat (message_wire h) ms),
  length-message_wire h m,
  length-messages h ms,
)

pub length-prefix : (h : Host) (ms : List Message) → length (prefix h ms) + 4 ≡ total_packet_size ms
unfolding prefix total_packet_size
length-prefix h ms = omega (
  arith,
  length-append (word h 4 (total_packet_size ms % 2 ^ 32))
      (word h 2 (length ms % 2 ^ 16) ++ flat (message_wire h) ms),
  length-append (word h 2 (length ms % 2 ^ 16)) (flat (message_wire h) ms),
  length-word h 4 (total_packet_size ms % 2 ^ 32),
  length-word h 2 (length ms % 2 ^ 16),
  length-messages h ms,
)

pub total_packet_size-ge : (ms : List Message) → 10 ≤ total_packet_size ms
unfolding total_packet_size
total_packet_size-ge ms = omega arith

pub length-wire_after :
    (h : Host) (seen : List ℕ) (ms : List Message)
    → length (wire_after h seen ms) ≡ total_packet_size ms
unfolding wire_after
length-wire_after h seen ms =
    let digest = last_part_digest h (seen ++ prefix h ms) in
    omega (
      arith,
      length-append (prefix h ms) (word h 4 digest),
      length-prefix h ms,
      length-word h 4 digest,
    )

encode_message-Writes : (h : Host) (m : Message) → Writes (encode_message h m) (message_wire h m)
unfolding encode_message message_wire
encode_message-Writes h (of_discovery m) = DiscoveryMessage.Wire.encode-Writes h m
encode_message-Writes h (of_data m) = DataMessage.Wire.encode-Writes h m

encode_messages-Writes :
    (h : Host) (ms : List Message) → Writes (encode_messages h ms) (flat (message_wire h) ms)
unfolding encode_messages
encode_messages-Writes h [] b valid fits = Writes-true b valid fits
encode_messages-Writes h (m ∷ ms) b valid fits = rw first.done (
    Writes-seq (encode_message h m) (encode_messages h ms) _ _ (encode_message-Writes h m)
      (encode_messages-Writes h ms) b valid fits)
  where
    first : Written b (encode_message h m b) (message_wire h m)
    first =
        encode_message-Writes h m b valid
          (omega (arith, length-append (message_wire h m) (flat (message_wire h) ms)))

-- The checksum goes behind what the buffer holds by then.
append_checksum-Written :
    (h : Host) (b : Buffer)
    → b.write_offset ≤ length b.bytes
    → 4 ≤ remaining_bytes b
    → Written b (append_checksum h b) (word h 4 (last_part_digest h (data_span b)))
unfolding append_checksum
append_checksum-Written h b valid fits =
    let digest = last_part_digest h (data_span b) in
    Writes-last _ _ (Writes-word h 4 digest) b valid (omega (arith, length-word h 4 digest))

encode_fields-Written :
    (h : Host) (ms : List Message) (b : Buffer)
    → b.write_offset ≤ length b.bytes
    → total_packet_size ms ≤ remaining_bytes b
    → Written b (encode_fields h ms b) (wire_after h (data_span b) ms)
unfolding encode_fields wire_after remaining_bytes
encode_fields-Written h ms b valid fits = rw first.done (record {
  done = last.done;
  written =
      last.written
      ∙ ap₂ (λ xs ys. xs ++ word h 4 (last_part_digest h ys)) first.written first.written
      ∙ append_assoc (data_span b) (prefix h ms) _;
  offset = omega (
    arith,
    first.offset,
    last.offset,
    length-append (prefix h ms) (word h 4 (last_part_digest h (data_span b ++ prefix h ms))),
    length-word h 4 (last_part_digest h (data_span b ++ prefix h ms)),
    length-word h 4 (last_part_digest h (data_span r.1)),
  );
  same_size = last.same_size ∙ first.same_size;
  same_read = last.same_read ∙ first.same_read;
})
  where
    start : Bool × Buffer
    start =
        append_word h 2 (length ms % 2 ^ 16) (append_word h 4 (total_packet_size ms % 2 ^ 32) b).1

    r : Bool × Buffer
    r = encode_messages h ms start.1

    first : Written b r (prefix h ms)
    first =
        unfold prefix in
        Writes-seq _ _ _ _ (Writes-word h 4 (total_packet_size ms % 2 ^ 32))
          (Writes-seq _ _ _ _ (Writes-word h 2 (length ms % 2 ^ 16)) (encode_messages-Writes h ms))
          b valid (omega (arith, length-prefix h ms))

    last : Written r.1 (append_checksum h r.1) (word h 4 (last_part_digest h (data_span r.1)))
    last =
        append_checksum-Written h r.1
          (omega (arith, first.offset, first.same_size, length-prefix h ms))
          (omega (arith, first.offset, first.same_size, length-prefix h ms))

-- Where the packet fits, `encode` appends its bytes and answers true.
pub encode-Written :
    (h : Host) (ms : List Message) (b : Buffer)
    → b.write_offset ≤ length b.bytes
    → total_packet_size ms ≤ remaining_bytes b
    → Written b (encode h ms b) (wire_after h (data_span b) ms)
unfolding encode
encode-Written h ms b valid fits =
    rw (le→ltb (remaining_bytes b) (total_packet_size ms) fits)
      (encode_fields-Written h ms b valid fits)

pub encode_refused :
    (h : Host) (ms : List Message) (b : Buffer)
    → remaining_bytes b < total_packet_size ms
    → encode h ms b ≡ (false, b)
unfolding encode
encode_refused h ms b short = rw (lt→ltb _ _ short)

-- In a new buffer that is large enough, the packet is all there is.
pub encode-new :
    (h : Host) (ms : List Message) (n : ℕ)
    → total_packet_size ms ≤ n
    → Written (new n) (encode h ms (new n)) (wire h ms)
encode-new h ms n fits = rw (data_span-new n) at (
    encode-Written h ms (new n) (unfold new in omega arith)
      (unfold new remaining_bytes in omega (arith, length-replicate n (zero))))

-- Encoding is all or nothing: either the packet fits, `encode` answers true and appends exactly its
-- bytes, or it does not fit, and `encode` answers false and leaves the buffer as it was.
pub encode_cases :
    (h : Host) (ms : List Message) (b : Buffer)
    → b.write_offset ≤ length b.bytes
    → (total_packet_size ms ≤ remaining_bytes b)
        × Written b (encode h ms b) (wire_after h (data_span b) ms)
      ⊎ (remaining_bytes b < total_packet_size ms) × (encode h ms b ≡ (false, b))
encode_cases h ms b valid = elim (Bool-cases (leb (total_packet_size ms) (remaining_bytes b))) [
  | inl fits ↦
      let room = leb→le (total_packet_size ms) (remaining_bytes b) fits in
      inl (room, encode-Written h ms b valid room)
  | inr short ↦
      let few = leb→lt (total_packet_size ms) (remaining_bytes b) short in
      inr (few, encode_refused h ms b few)
]
