-- ===== src/Network/DataStream/Sized.antt =====
-- The size field at the front of the vector of a stream, and the round that it leads to.
use discnet.Common.{
  ℕ, zero, ◌^◌, ◌≤◌, ◌<◌, ◌≡◌, refl, ◌∙◌, arith, List, ◌++◌, le→ltb, lt→ltb, ltb, Bool-cases, inl,
  inr, length, length-replicate,
}
use discnet.Host.{Host, IsHost}
use discnet.Network.Buffer.{
  Buffer, new, append_span, bytes_left_to_read, reset_read, read_int32, remaining_bytes,
}
use discnet.Network.Buffer.Reading.{Holds, bytes_left-Holds, reset_read-eq}
use discnet.Network.Buffer.Writing.{Written, Written-new, append_span-Written}
use discnet.Network.Messages.Decoder.{Parsed, Parses-word, read_word, word}
use discnet.Network.DataStream.{decode_round, sign_extend, stop, copy_of, round}

copied :
    (bytes : List ℕ) → Written (new (length bytes)) (append_span bytes (new (length bytes))) bytes
unfolding new
copied bytes =
    append_span-Written bytes (new (length bytes)) (omega arith)
      (unfold remaining_bytes in omega (arith, length-replicate (length bytes) (zero)))

pub copied_size : (bytes : List ℕ) → length (copy_of bytes).bytes ≡ length bytes
unfolding copy_of new
copied_size bytes = (copied bytes).same_size ∙ length-replicate (length bytes) (zero)

pub copied-Holds : (bytes : List ℕ) → Holds (copy_of bytes) bytes
unfolding copy_of
copied-Holds bytes = Written-new (length bytes) _ bytes (omega arith) (copied bytes)

pub copied_start : (bytes : List ℕ) → (copy_of bytes).read_offset ≡ 0
unfolding copy_of new
copied_start bytes = (copied bytes).same_read

copied_left : (bytes : List ℕ) → bytes_left_to_read (copy_of bytes) ≡ length bytes
copied_left bytes = bytes_left-Holds (copy_of bytes) bytes (copied-Holds bytes)

-- With fewer bytes than the fixed fields of a packet take, the round stops.
pub round_short : (h : Host) (bytes : List ℕ) → length bytes < 10 → round h bytes ≡ stop bytes
unfolding round
round_short h bytes short = rw (copied_left bytes, lt→ltb (length bytes) 10 short) refl

module _ (h : Host) (laws : IsHost h) (total : ℕ) (small : total < 2 ^ 31) (more : List ℕ) where
  bytes : List ℕ
  bytes = word h 4 total ++ more

  b : Buffer
  unfolding bytes
  b = copy_of bytes

  size_field : Parsed b (read_word h 4 b) total more
  unfolding b
  size_field =
      Parses-word h 0 4 total laws (omega arith) (omega arith) (copy_of bytes) more (omega arith)
        (copied-Holds bytes)

  size_read : h.big_to_native 4 (read_int32 b).0 ≡ total
  unfolding read_int32 read_word
  size_read = cc size_field.result

  rewound : reset_read (read_int32 b).1 ≡ b
  unfolding read_int32 read_word b
  rewound =
      reset_read-eq b (read_int32 b).1 (copied_start bytes) size_field.same_bytes
        size_field.same_offset

  extended : sign_extend (h.big_to_native 4 (read_int32 b).0) ≡ total
  unfolding sign_extend
  extended = rw (size_read, lt→ltb total (2 ^ 31) small) refl

  left : bytes_left_to_read b ≡ length bytes
  unfolding b
  left = copied_left bytes

  -- A round on a vector with as many bytes as the field says decodes them.
  pub round_complete :
      10 ≤ length (word h 4 total ++ more)
      → total ≤ length (word h 4 total ++ more)
      → round h (word h 4 total ++ more)
        ≡ decode_round h (word h 4 total ++ more) (copy_of (word h 4 total ++ more))
  unfolding round b
  round_complete long enough =
      rw (copied_left bytes, le→ltb (length bytes) 10 long)
        (rw (extended, le→ltb (length bytes) total enough, rewound) refl)

  -- With fewer it waits.
  pub round_incomplete :
      length (word h 4 total ++ more) < total
      → round h (word h 4 total ++ more) ≡ stop (word h 4 total ++ more)
  unfolding round b
  round_incomplete short = elim (Bool-cases (ltb (length bytes) 10)) [
    | inl few ↦ rw (copied_left bytes, few) refl
    | inr long ↦
        rw (copied_left bytes, long) (rw (extended, lt→ltb (length bytes) total short) refl)
  ]
