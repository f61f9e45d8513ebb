-- ===== src/Network/Messages/Packet/Invalid.antt =====
-- Packets that `packet_codec_t::decode` refuses.
use discnet.Common.{
  ℕ, ◌-◌, ◌^◌, ◌≤◌, ◌≡◌, ◌≢◌, refl, sym, arith, List, [], ◌++◌, false, ◌==◌, le→ltb, length,
  length-append, take, drop,
}
use discnet.Host.{Host, IsHost, load}
use discnet.Network.Buffer.{Buffer, bytes_left_to_read, reset_read, read_buffer}
use discnet.Network.Buffer.Reading.{Holds, bytes_left-Holds, read_buffer_refused, reset_read-eq}
use discnet.Network.Messages.Decoder.{
  Error, checksum_failed, unexpected, read_word, read_bytes, Parsed, Parses-word, word, length-word,
}
use discnet.Network.Messages.Packet.Readers.{validate_checksum-IsReader}
use discnet.Network.Messages.Packet.{
  message_bytes, last_part_digest, compare_checksum, validate_checksum, validate_size,
  validate_packet, decode_valid, decode,
}

==-ne : (a b : ℕ) → a ≢ b → (a == b) ≡ false
==-ne a b h = ground arith

-- A size field of 0 in front of other bytes.
module _ (h : Host) (laws : IsHost h) (not_zero : last_part_digest h [] ≢ 0) (b : Buffer)
    (more : List ℕ) (start : b.read_offset ≡ 0) (held : Holds b (word h 4 0 ++ more))
    (bounded : length (word h 4 0 ++ more) ≤ 2 ^ 64 - 4) where
  size_field : Parsed b (read_word h 4 b) 0 more
  size_field = Parses-word h 0 4 0 laws (omega arith) (omega arith) b more (omega arith) held

  rewound : (c : Buffer) → c.bytes ≡ b.bytes → c.write_offset ≡ b.write_offset → reset_read c ≡ b
  rewound c e f = reset_read-eq b c start e f

  error : Error
  error = checksum_failed 0 (load (take 1 (drop 3 (h.digest []))))

  empty_span : read_buffer (message_bytes 0) b ≡ ([], b)
  unfolding message_bytes
  empty_span = read_buffer_refused b (2 ^ 64 - 4) (word h 4 0 ++ more) bounded held

  checksum_refused : (validate_checksum h 0 b).0 ≡ unexpected error
  unfolding validate_checksum compare_checksum read_bytes error
  checksum_refused =
      rw (empty_span)
        (rw (size_field.result, ==-ne 0 (last_part_digest h []) (λ e. not_zero (sym e))) refl)

  checksum_same : reset_read (validate_checksum h 0 b).1 ≡ b
  checksum_same =
      let p = (validate_checksum-IsReader h 0).run b in
      rewound (validate_checksum h 0 b).1 p.bytes p.offset

  size_refused :
      (c : Buffer)
      → reset_read c ≡ b
      → ((validate_size h 0 c).0 ≡ unexpected error) × (reset_read (validate_size h 0 c).1 ≡ b)
  unfolding validate_size
  size_refused c e =
      rw (e, le→ltb (bytes_left_to_read b) 0 (omega arith)) (checksum_refused, checksum_same)

  packet_refused :
      ((validate_packet h b).0 ≡ unexpected error) × (reset_read (validate_packet h b).1 ≡ b)
  unfolding validate_packet
  packet_refused =
      rw (le→ltb (bytes_left_to_read b) 4 enough, size_field.result)
        (size_refused (read_word h 4 b).1
          (rewound (read_word h 4 b).1 size_field.same_bytes size_field.same_offset))
    where
      enough : 4 ≤ bytes_left_to_read b
      enough = omega (
        arith,
        bytes_left-Holds b (word h 4 0 ++ more) held,
        length-append (word h 4 0) more,
        length-word h 4 0,
      )

  -- The checksum does not match, and the buffer is back at its start.
  pub decode-zero_size : (e : Error) × (decode h b ≡ (unexpected e, b))
  unfolding decode decode_valid
  decode-zero_size = (error, rw (packet_refused.0, packet_refused.1) refl)
