-- ===== src/Network/DataStream/Termination.antt =====
-- How long the loop of `data_stream::process` runs.
use discnet.Common.{
  ℕ, zero, suc, ◌-◌, ◌<◌, ◌≡◌, refl, ap, arith, List, ◌++◌, true, some, ltb, Bool-cases, inl, inr,
  length, length-append, length-take, length-replicate, take, replicate,
}
use discnet.Host.{Host}
use discnet.Network.Buffer.{
  Buffer, read, bytes_left_to_read, size, reset_read, resize_bytes, read_int32,
}
use discnet.Network.Messages.Decoder.{Expected}
use discnet.Network.Messages.Packet.{Packet, s_header_size, decode}
use discnet.Network.Messages.Packet.Readers.{decode-IsReader}
use discnet.Network.DataStream.Sized.{copied_size}
use discnet.Network.DataStream.{
  copy_of, shift_left, sign_extend, update_read_buffer, kept_bytes, decode_round, sized_round, stop,
  round, push_packets, process_loop, process, DataStream,
}

length-resize_bytes : (n : ℕ) (xs : List ℕ) → length (resize_bytes n xs) ≡ n
unfolding resize_bytes
length-resize_bytes n xs = omega (
  arith,
  length-append (take n xs) (replicate (n - length xs) 0),
  length-take n xs,
  length-replicate (n - length xs) (zero),
)

update_read_buffer_shrinks :
    (kept : List ℕ) (r : Expected Packet) (c : Buffer)
    → (update_read_buffer kept r c).read_more ≡ true
    → length (update_read_buffer kept r c).left < size c
unfolding update_read_buffer
update_read_buffer_shrinks kept r c more = ground (
  arith,
  length-resize_bytes (bytes_left_to_read c) (shift_left (size c - bytes_left_to_read c) kept),
)

decode_round_shrinks :
    (h : Host) (bytes : List ℕ) (b : Buffer)
    → (decode_round h bytes b).read_more ≡ true
    → length (decode_round h bytes b).left < length b.bytes
unfolding decode_round size
decode_round_shrinks h bytes b more = omega (
  arith,
  update_read_buffer_shrinks (kept_bytes bytes (decode h b).0) (decode h b).0 (decode h b).1 more,
  ap length ((decode-IsReader h).run b).bytes,
)

sized_round_shrinks :
    (h : Host) (bytes : List ℕ) (b : Buffer)
    → (sized_round h bytes b).read_more ≡ true
    → length (sized_round h bytes b).left < length b.bytes
unfolding sized_round stop reset_read read_int32 read
sized_round_shrinks h bytes b =
    elim (Bool-cases
      (ltb (bytes_left_to_read b) (sign_extend (h.big_to_native 4 (read_int32 b).0)))) [
        | inl incomplete ↦ rw incomplete (λ e. cc)
        | inr complete ↦ rw complete (λ more. omega (
          arith,
          decode_round_shrinks h bytes (reset_read (read_int32 b).1) more,
          ap length (read_bytes_same b),
        ))
      ]
  where
    read_bytes_same : (b : Buffer) → (reset_read (read_int32 b).1).bytes ≡ b.bytes
    read_bytes_same b = ground arith

-- A round after which the loop goes on has made the vector shorter.
round_shrinks :
    (h : Host) (bytes : List ℕ)
    → (round h bytes).read_more ≡ true
    → length (round h bytes).left < length bytes
unfolding round stop
round_shrinks h bytes = elim (Bool-cases (ltb (bytes_left_to_read (copy_of bytes)) s_header_size)) [
  | inl short ↦ rw short (λ e. cc)
  | inr enough ↦
      rw enough
        (λ more. omega (arith, sized_round_shrinks h bytes (copy_of bytes) more, copied_size bytes))
]

process_loop-total :
    (fuel : ℕ) (h : Host) (bytes : List ℕ)
    → length bytes < fuel
    → (r : List ℕ × List Packet) × (process_loop fuel h bytes ≡ some r)
unfolding process_loop
process_loop-total zero h bytes enough = absurd (omega arith)
process_loop-total (suc fuel) h bytes enough = elim (Bool-cases (round h bytes).read_more) [
  | inl more ↦
      let (r, e) =
        process_loop-total fuel h (round h bytes).left
          (omega (arith, round_shrinks h bytes more)) in
      ((r.0, (round h bytes).packets ++ r.1), rw (more, e, push_packets) refl)
  | inr done ↦ (((round h bytes).left, (round h bytes).packets), rw done refl)
]

-- `process` ends on every vector: the loop never runs out of fuel.
pub process-total :
    (h : Host) (s : DataStream) → (r : DataStream × List Packet) × (process h s ≡ some r)
unfolding process
process-total h s =
    let (r, e) = process_loop-total (suc (length s.buffer)) h s.buffer (omega arith) in
    ((record s { buffer = r.0 }, r.1), rw e refl)
