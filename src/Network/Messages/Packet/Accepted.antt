-- ===== src/Network/Messages/Packet/Accepted.antt =====
-- What `packet_codec_t::decode` demands of the bytes of a packet.
use discnet.Common.{
  ℕ, ◌-◌, ◌^◌, ◌≤◌, ◌<◌, ◌≡◌, refl, sym, ap, ◌∙◌, inl, inr, arith, Bool, Bool-cases, ltb, ltb→le,
  ◌==◌, ==-IsEquality, List, ◌++◌, length, length-take, length-drop, take, drop, take-append-drop,
  take-append,
}
use discnet.Host.{Host, IsHost, load, load-memory}
use discnet.Network.Messages.Packet.Wire.{wire}
use discnet.Network.Messages.Packet.RoundTrip.{IsPacket, wire_fields, after_size}
use discnet.Network.Buffer.{Buffer, read, bytes_left_to_read, reset_read, read_buffer}
use discnet.Network.Buffer.Reading.{
  Holds, advance, advance-Holds, bytes_left-Holds, read_enough, read_buffer_enough, reset_read-eq,
}
use discnet.Network.Messages.Decoder.{
  Expected, value, unexpected, read_word, read_bytes, word, length-word,
}
use discnet.Network.Messages.Decoder.Readers.{read_word-IsReader}
use discnet.Network.Messages.Packet.{
  Message, total_packet_size, Packet, message_bytes, last_part_digest, compare_checksum,
  validate_checksum, validate_size, validate_packet, decode_valid, decode,
}

decode_valid-value :
    (h : Host) (r : Expected Bool) (c : Buffer) (p : Packet)
    → (decode_valid h r c).0 ≡ value p
    → (v : Bool) × (r ≡ value v)
unfolding decode_valid
decode_valid-value h (value v) c p e = (v, refl)
decode_valid-value h (unexpected error) c p e = absurd (cc e)

-- The size field at the front of the bytes, and the checksum at the end of that many.
abbrev pub size_of : Host → List ℕ → ℕ
size_of h xs = h.big_to_native 4 (load (take 4 xs))

abbrev pub checksum_of : Host → List ℕ → ℕ
checksum_of h xs = h.big_to_native 4 (load (take 4 (drop (size_of h xs - 4) xs)))

module _ (h : Host) (b : Buffer) (xs : List ℕ) (start : b.read_offset ≡ 0) (held : Holds b xs) where
  read_first : 4 ≤ length xs → (read_word h 4 b).0 ≡ value (size_of h xs)
  unfolding read_word
  read_first enough =
      ap (λ r. value (h.big_to_native 4 r.0))
        (read_enough b 4 (take 4 xs) (drop 4 xs) (omega arith)
          (omega (arith, enough, length-take 4 xs)) (rw (sym (take-append-drop 4 xs)) at held))

  rewound : reset_read (read_word h 4 b).1 ≡ b
  rewound =
      let same = (read_word-IsReader h 4).run b in
      reset_read-eq b (read_word h 4 b).1 start same.bytes same.offset

  compare_checksum-value :
      (checksum : ℕ) (complete : List ℕ) (c : Buffer) (v : Bool)
      → (compare_checksum h checksum complete c).0 ≡ value v
      → checksum ≡ last_part_digest h complete
  unfolding compare_checksum
  compare_checksum-value checksum complete c v e =
      elim (Bool-cases (checksum == last_part_digest h complete)) [
        | inl same ↦ ==-IsEquality.sound checksum (last_part_digest h complete) same
        | inr differs ↦ let refused = rw differs at e in absurd (cc refused)
      ]

  module _ (size : ℕ) (least : 4 ≤ size) (within : size ≤ length xs)
      (bounded : length xs < 2 ^ 64) where
    abbrev checked : List ℕ
    checked = take (size - 4) xs

    abbrev behind : List ℕ
    behind = drop (size - 4) xs

    length-checked : length checked ≡ size - 4
    length-checked = omega (arith, length-take (size - 4) xs)

    length-behind : 4 ≤ length behind
    length-behind = omega (arith, length-drop (size - 4) xs)

    all : Holds b (checked ++ behind)
    all = rw (sym (take-append-drop (size - 4) xs)) at held

    without_checksum : message_bytes size ≡ size - 4
    unfolding message_bytes
    without_checksum = omega arith

    span_read : read_buffer (message_bytes size) b ≡ (checked, advance (size - 4) b)
    span_read =
        ap (λ n. read_buffer n b) without_checksum
        ∙ read_buffer_enough b (size - 4) checked behind length-checked
            (omega (arith, length-behind)) all

    checksum_read :
        read 4 (advance (size - 4) b) ≡ (load (take 4 behind), advance 4 (advance (size - 4) b))
    checksum_read =
        read_enough (advance (size - 4) b) 4 (take 4 behind) (drop 4 behind) (omega arith)
          (omega (arith, length-behind, length-take 4 behind))
          (rw (sym (take-append-drop 4 behind)) at
            (advance-Holds b (size - 4) checked behind length-checked all))

    compared :
        (v : Bool)
        → (validate_checksum h size b).0 ≡ value v
        → h.big_to_native 4 (load (take 4 behind)) ≡ last_part_digest h checked
    unfolding validate_checksum read_bytes read_word
    compared v e =
        compare_checksum-value _ _ (advance 4 (advance (size - 4) b)) v
          (rw (span_read, checksum_read) at e)

  sized :
      (size : ℕ) (v : Bool) (c : Buffer)
      → reset_read c ≡ b
      → (validate_size h size c).0 ≡ value v
      → (size ≤ length xs) × ((validate_checksum h size b).0 ≡ value v)
  unfolding validate_size
  sized size v c same e = elim (Bool-cases (ltb (bytes_left_to_read b) size)) [
    | inl short ↦ let refused = rw (same, short) at e in absurd (cc refused)
    | inr enough ↦ (
      omega (arith, ltb→le (bytes_left_to_read b) size enough, bytes_left-Holds b xs held),
      rw (same, enough) at e,
    )
  ]

  validated :
      (v : Bool)
      → (validate_packet h b).0 ≡ value v
      → (size_of h xs ≤ length xs) × ((validate_checksum h (size_of h xs) b).0 ≡ value v)
  unfolding validate_packet
  validated v e = elim (Bool-cases (ltb (bytes_left_to_read b) 4)) [
    | inl short ↦ let refused = rw short at e in absurd (cc refused)
    | inr enough ↦
        let four : 4 ≤ length xs =
          omega (arith, ltb→le (bytes_left_to_read b) 4 enough, bytes_left-Holds b xs held) in
        sized (size_of h xs) v (read_word h 4 b).1 rewound (rw (enough, read_first four) at e)
  ]

  -- Bytes, fewer than 2 ^ 64, that `decode` accepts begin with a size that is not beyond their end,
  -- and where the size leaves room for the checksum, the checksum at its end is the last part of the
  -- digest of all the bytes in front of it.
  pub decode-checksum :
      (p : Packet)
      → length xs < 2 ^ 64
      → 4 ≤ size_of h xs
      → (decode h b).0 ≡ value p
      → (size_of h xs ≤ length xs)
        × (checksum_of h xs ≡ last_part_digest h (take (size_of h xs - 4) xs))
  unfolding decode
  decode-checksum p bounded least e =
      let (v, valid) = decode_valid-value h (validate_packet h b).0 _ p e in
      let (within, checksum) = validated v valid in
      (within, compared (size_of h xs) least within bounded v checksum)

-- What `encode` writes in front is read as the size.
pub size_of-wire :
    (h : Host) (ms : List Message)
    → IsHost h
    → IsPacket ms
    → size_of h (wire h ms) ≡ total_packet_size ms
unfolding word
size_of-wire h ms laws ok =
    ap (size_of h) (wire_fields h ms laws ok)
    ∙ ap (λ l. h.big_to_native 4 (load l))
        (take-append 4 (word h 4 (total_packet_size ms)) (after_size h ms)
          (length-word h 4 (total_packet_size ms)))
    ∙ ap (h.big_to_native 4) (
        load-memory 4 (h.native_to_big 4 (total_packet_size ms))
          (laws.native_to_big-lt 4 (total_packet_size ms) size_fits))
    ∙ laws.big_to_native-native_to_big 4 (total_packet_size ms) size_fits
  where
    size_fits : total_packet_size ms < 256 ^ 4
    size_fits = omega (arith, ok.size-lt)
