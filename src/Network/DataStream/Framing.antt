-- ===== src/Network/DataStream/Framing.antt =====
-- `data_stream::process` on a vector that holds packets, one after the other.
use discnet.Common.{
  ℕ, zero, suc, ◌-◌, ◌^◌, ◌≤◌, ◌<◌, ◌≡◌, refl, sym, ap, ◌∙◌, arith, List, [], ◌∷◌, ◌++◌,
  append_assoc, append-nil, true, false, some, ltb, ◌==◌, Bool-cases, inl, inr, lt→leb, length,
  length-append, length-replicate, take, drop, take-append, drop-append, take-append_le,
  take-append-drop, ltb→lt, ltb→le, subst, append-eq-nil, map, All,
}
use discnet.Host.{Host, IsHost}
use discnet.Network.Buffer.{Buffer, size, resize_bytes}
use discnet.Network.Buffer.Reading.{Holds, bytes_left-Holds}
use discnet.Network.Messages.Decoder.{Parsed, word, length-word, flat}
use discnet.Network.Messages.Packet.{Message, Packet, total_packet_size, decode}
use discnet.Network.Messages.Packet.Wire.{wire, length-wire_after, total_packet_size-ge}
use discnet.Network.Messages.Packet.RoundTrip.{IsPacket, after_size, wire_fields, decode-Parsed}
use discnet.Network.DataStream.{
  Round, shift_left, update_read_buffer, kept_bytes, decode_round, stop, round, copy_of,
  packet_list, is_value, push_packets, process_loop, process, DataStream,
}
use discnet.Network.DataStream.Sized.{
  copied_size, copied_start, copied-Holds, round_complete, round_incomplete, round_short,
}

resize-shift :
    (xs ys : List ℕ) (n k : ℕ)
    → length xs ≡ n
    → length ys ≡ k
    → 0 < k
    → resize_bytes k (shift_left n (xs ++ ys)) ≡ ys
unfolding resize_bytes shift_left
resize-shift xs ys n k en ek pos =
    rw (lt→leb (length (xs ++ ys)) n (omega (arith, length-append xs ys)), drop-append n xs ys en)
      (rw (take-append k ys _ ek) (
        append-eq-nil ys _ (
          omega (
            arith,
            length-replicate (k - length (ys ++ drop (length (xs ++ ys) - n) (xs ++ ys))) (zero),
            length-append ys (drop (length (xs ++ ys) - n) (xs ++ ys)),
          ))))

-- A packet with what follows it, in a buffer that is to be read from the start.
module _ (h : Host) (ms : List Message) (laws : IsHost h) (ok : IsPacket ms) (rest : List ℕ)
    (more : 0 < length rest) where
  decode_round-packet :
      (b : Buffer)
      → b.read_offset ≡ 0
      → length b.bytes ≡ length (wire h ms ++ rest)
      → Holds b (wire h ms ++ rest)
      → decode_round h (wire h ms ++ rest) b
        ≡ record { left = rest; packets = record { messages = ms } ∷ []; read_more = true }
  unfolding decode_round update_read_buffer kept_bytes packet_list is_value size
  decode_round-packet b start whole held =
      rw (p.result, bytes_left-Holds _ rest p.holds, ap length p.same_bytes, whole)
        (rw (lt→leb (length (wire h ms ++ rest)) (length rest) shorter, pos)
          (ap going_on (
            resize-shift (wire h ms) rest _ _ (omega (arith, length-append (wire h ms) rest)) refl
              more)))
    where
      going_on : List ℕ → Round
      going_on bytes = record {
        left = bytes;
        packets = record { messages = ms } ∷ [];
        read_more = true;
      }

      p : Parsed b (decode h b) (record { messages = ms }) rest
      p = decode-Parsed h ms laws ok b rest start held

      shorter : length rest < length (wire h ms ++ rest)
      shorter = omega (
        arith,
        length-append (wire h ms) rest,
        length-wire_after h [] ms,
        total_packet_size-ge ms,
      )

      pos : (length rest == 0) ≡ false
      pos = ground arith

-- The last packet: nothing is left to read.
decode_round-last :
    (h : Host) (ms : List Message) (b : Buffer)
    → IsHost h
    → IsPacket ms
    → b.read_offset ≡ 0
    → length b.bytes ≡ length (wire h ms)
    → Holds b (wire h ms ++ [])
    → decode_round h (wire h ms ++ []) b
      ≡ record { left = []; packets = record { messages = ms } ∷ []; read_more = false }
unfolding decode_round update_read_buffer packet_list size
decode_round-last h ms b laws ok start whole held =
    rw (p.result, bytes_left-Holds _ [] p.holds, ap length p.same_bytes, whole)
      (rw
        (lt→leb (length (wire h ms)) 0
          (omega (arith, length-wire_after h [] ms, total_packet_size-ge ms)))
        refl)
  where
    p : Parsed b (decode h b) (record { messages = ms }) []
    p = decode-Parsed h ms laws ok b [] start held

-- The packets of a list, and a stream that ends inside one more packet.
abbrev pub Fits : List Message → Type 0
Fits ms = IsPacket ms × (total_packet_size ms < 2 ^ 31)

pub record IsCut (h : Host) (tail : List ℕ) : Type 0 where
  pub next : List Message
  pub fits : Fits next
  pub missing : List ℕ
  pub some_missing : 0 < length missing
  pub whole : wire h next ≡ tail ++ missing

abbrev pub packet : List Message → Packet
packet ms = record { messages = ms }

module _ (h : Host) (ms : List Message) (laws : IsHost h) (fits : Fits ms) (rest : List ℕ) where
  split : wire h ms ++ rest ≡ word h 4 (total_packet_size ms) ++ (after_size h ms ++ rest)
  split =
      ap (λ xs. xs ++ rest) (wire_fields h ms laws fits.0)
      ∙ append_assoc (word h 4 (total_packet_size ms)) (after_size h ms) rest

  long : total_packet_size ms ≤ length (wire h ms ++ rest)
  long = omega (arith, length-append (wire h ms) rest, length-wire_after h [] ms)

  round-decode_round :
      round h (wire h ms ++ rest) ≡ decode_round h (wire h ms ++ rest) (copy_of (wire h ms ++ rest))
  round-decode_round =
      subst (λ bytes. round h bytes ≡ decode_round h bytes (copy_of bytes)) (sym split)
        (round_complete h laws (total_packet_size ms) fits.1 (after_size h ms ++ rest)
          (omega (arith, ap length split, long, total_packet_size-ge ms))
          (omega (arith, ap length split, long)))

-- A packet is cut off, and the loop goes on with what follows it.
round-packet :
    (h : Host) (ms : List Message) (rest : List ℕ)
    → IsHost h
    → Fits ms
    → 0 < length rest
    → round h (wire h ms ++ rest)
      ≡ record { left = rest; packets = packet ms ∷ []; read_more = true }
round-packet h ms rest laws fits more =
    round-decode_round h ms laws fits rest
    ∙ decode_round-packet h ms laws fits.0 rest more (copy_of (wire h ms ++ rest))
        (copied_start (wire h ms ++ rest)) (copied_size (wire h ms ++ rest))
        (copied-Holds (wire h ms ++ rest))

round-last :
    (h : Host) (ms : List Message)
    → IsHost h
    → Fits ms
    → round h (wire h ms ++ []) ≡ record { left = []; packets = packet ms ∷ []; read_more = false }
round-last h ms laws fits =
    round-decode_round h ms laws fits []
    ∙ decode_round-last h ms (copy_of (wire h ms ++ [])) laws fits.0
        (copied_start (wire h ms ++ []))
        (copied_size (wire h ms ++ []) ∙ ap length (append-nil (wire h ms)))
        (copied-Holds (wire h ms ++ []))

-- A cut packet of at least four bytes begins with its size.
cut-split :
    (h : Host) (tail : List ℕ) (cut : IsCut h tail)
    → IsHost h
    → 10 ≤ length tail
    → tail ≡ word h 4 (total_packet_size cut.next) ++ drop 4 tail
cut-split h tail cut laws long = sym (take-append-drop 4 tail) ∙ ap (λ xs. xs ++ drop 4 tail) first
  where
    first : take 4 tail ≡ word h 4 (total_packet_size cut.next)
    first =
        sym (take-append_le 4 tail cut.missing (omega arith))
        ∙ ap (take 4) (sym cut.whole ∙ wire_fields h cut.next laws cut.fits.0)
        ∙ take-append 4 (word h 4 (total_packet_size cut.next)) (after_size h cut.next)
            (length-word h 4 (total_packet_size cut.next))

round-cut : (h : Host) (tail : List ℕ) → IsHost h → IsCut h tail → round h tail ≡ stop tail
round-cut h tail laws cut = elim (Bool-cases (ltb (length tail) 10)) [
  | inl short ↦ round_short h tail (ltb→lt (length tail) 10 short)
  | inr long ↦
      let split = cut-split h tail cut laws (ltb→le (length tail) 10 long) in
      subst (λ bytes. round h bytes ≡ stop bytes) (sym split)
        (round_incomplete h laws (total_packet_size cut.next) cut.fits.1 (drop 4 tail) (
          omega (
            arith,
            ap length split,
            ap length cut.whole,
            length-append tail cut.missing,
            length-wire_after h [] cut.next,
            cut.some_missing,
          )))
]

loop-step :
    (h : Host) (ms : List Message) (fuel : ℕ) (rest : List ℕ)
    → IsHost h
    → Fits ms
    → 0 < length rest
    → process_loop (suc fuel) h (wire h ms ++ rest)
      ≡ push_packets (packet ms ∷ []) (process_loop fuel h rest)
unfolding process_loop
loop-step h ms fuel rest laws fits more = rw (round-packet h ms rest laws fits more) refl

loop-frames :
    (h : Host) (pss : List (List Message)) (fuel : ℕ) (tail : List ℕ)
    → IsHost h
    → All Fits pss
    → IsCut h tail
    → length pss < fuel
    → process_loop fuel h (flat (wire h) pss ++ tail) ≡ some (tail, map packet pss)
unfolding process_loop push_packets
loop-frames h pss zero tail laws ok cut enough = absurd (omega arith)
loop-frames h [] (suc fuel) tail laws ok cut enough =
    rw (round-cut h tail laws cut) (unfold stop in refl)
loop-frames h (ms ∷ []) (suc fuel) [] laws ok cut enough =
    rw (append_assoc (wire h ms) [] [], round-last h ms laws ok.0) refl
loop-frames h (ms ∷ []) (suc fuel) (x ∷ tail) laws ok cut enough =
    rw
      (
        append_assoc (wire h ms) [] (x ∷ tail),
        loop-step h ms fuel (x ∷ tail) laws ok.0 (omega arith),
      )
      (rw (loop-frames h [] fuel (x ∷ tail) laws tt cut (omega arith)) refl)
loop-frames h (ms ∷ ns ∷ pss) (suc fuel) tail laws ok cut enough =
    rw
      (
        append_assoc (wire h ms) (flat (wire h) (ns ∷ pss)) tail,
        loop-step h ms fuel (flat (wire h) (ns ∷ pss) ++ tail) laws ok.0 (pos ns pss),
      )
      (rw (loop-frames h (ns ∷ pss) fuel tail laws ok.1 cut (omega arith)) refl)
  where
    pos :
        (ns : List Message) (pss : List (List Message))
        → 0 < length (flat (wire h) (ns ∷ pss) ++ tail)
    pos ns pss = omega (
      arith,
      length-append (wire h ns ++ flat (wire h) pss) tail,
      length-append (wire h ns) (flat (wire h) pss),
      length-wire_after h [] ns,
      total_packet_size-ge ns,
    )

length-frames : (h : Host) (pss : List (List Message)) → length pss ≤ length (flat (wire h) pss)
length-frames h [] = omega arith
length-frames h (ms ∷ pss) = omega (
  arith,
  length-append (wire h ms) (flat (wire h) pss),
  length-wire_after h [] ms,
  total_packet_size-ge ms,
  length-frames h pss,
)

-- A stream whose vector holds packets, one after the other, and the beginning of one more gives
-- exactly those packets, in order, and keeps that beginning.
pub process-frames :
    (h : Host) (s : DataStream) (pss : List (List Message)) (tail : List ℕ)
    → IsHost h
    → All Fits pss
    → IsCut h tail
    → s.buffer ≡ flat (wire h) pss ++ tail
    → process h s ≡ some (record s { buffer = tail }, map packet pss)
unfolding process
process-frames h s pss tail laws ok cut e = rw (e, loop-frames h pss _ tail laws ok cut enough) refl
  where
    enough : length pss < suc (length (flat (wire h) pss ++ tail))
    enough = omega (arith, length-frames h pss, length-append (flat (wire h) pss) tail)
