-- ===== src/Network/DataStream/Receiving.antt =====
-- What `handle_receive` leaves for `process`, within the capacity of the vector and beyond it.
use discnet.Common.{
  ℕ, zero, suc, ◌+◌, ◌*◌, ◌^◌, ◌-◌, ◌≤◌, ◌<◌, ◌≡◌, ◌≢◌, refl, sym, ap, subst, ◌∙◌, arith, List, [],
  ◌∷◌, ◌++◌, append_assoc, append-nil, false, some, le→ltb, lt→ltb, le→leb, length, length-append,
  length-replicate, replicate, map, All,
}
use discnet.Host.{Host, IsHost, memory}
use discnet.Network.Buffer.{Buffer, bytes_left_to_read, size}
use discnet.Network.Buffer.Reading.{bytes_left-Holds}
use discnet.Network.Messages.Decoder.{Error, unexpected, word, length-word, flat}
use discnet.Network.Messages.Packet.{Message, last_part_digest, decode}
use discnet.Network.Messages.Packet.Wire.{wire}
use discnet.Network.Messages.Packet.Invalid.{decode-zero_size}
use discnet.Network.DataStream.{
  DataStream, new_stream, round, copy_of, decode_round, update_read_buffer, kept_bytes, packet_list,
  capacity_for, push_bytes, reallocate, handle_receive, process_loop, process,
}
use discnet.Network.DataStream.Sized.{copied_size, copied_start, copied-Holds, round_complete}
use discnet.Network.DataStream.Framing.{Fits, IsCut, packet, process-frames}

-- Received data that fits the capacity goes behind what is there.
pub handle_receive-within :
    (grow : ℕ → ℕ → ℕ) (now : ℕ) (src : List ℕ) (s : DataStream)
    → length src + length s.buffer ≤ s.capacity
    → handle_receive grow now src s ≡ record s { buffer = s.buffer ++ src; last_received = now }
unfolding handle_receive push_bytes capacity_for
handle_receive-within grow now src s fits =
    rw (le→ltb s.capacity (length src + length s.buffer) fits) (
      rw (le→leb (length (s.buffer ++ src)) s.capacity (omega (arith, length-append s.buffer src)))
        refl)

-- A series of datagrams, each with the time at which it came.
unfoldable pub receive_all : (ℕ → ℕ → ℕ) → List (ℕ × List ℕ) → DataStream → DataStream
receive_all grow [] s = s
receive_all grow ((now, src) ∷ more) s = receive_all grow more (handle_receive grow now src s)

abbrev pub received : List (ℕ × List ℕ) → List ℕ
received cs = flat (λ c. c.1) cs

receive_all-within :
    (grow : ℕ → ℕ → ℕ) (cs : List (ℕ × List ℕ)) (s : DataStream)
    → length s.buffer + length (received cs) ≤ s.capacity
    → (receive_all grow cs s).buffer ≡ s.buffer ++ received cs
unfolding receive_all
receive_all-within grow [] s fits = sym (append-nil s.buffer)
receive_all-within grow ((now, src) ∷ more) s fits =
    ap (λ t. (receive_all grow more t).buffer)
      (handle_receive-within grow now src s (omega (arith, length-append src (received more))))
    ∙ receive_all-within grow more (record s { buffer = s.buffer ++ src; last_received = now })
        (omega (arith, length-append src (received more), length-append s.buffer src))
    ∙ append_assoc s.buffer src (received more)

-- However the bytes of packets are cut into datagrams: while they fit the capacity, `process` gives
-- exactly those packets, in order, and keeps the beginning of the next.
pub process-receive_all :
    (h : Host) (grow : ℕ → ℕ → ℕ) (now n : ℕ) (cs : List (ℕ × List ℕ)) (pss : List (List Message))
    (tail : List ℕ)
    → IsHost h
    → All Fits pss
    → IsCut h tail
    → received cs ≡ flat (wire h) pss ++ tail
    → length (received cs) ≤ n
    → process h (receive_all grow cs (new_stream now n))
      ≡ some (record (receive_all grow cs (new_stream now n)) { buffer = tail }, map packet pss)
process-receive_all h grow now n cs pss tail laws ok cut e fits =
    process-frames h (receive_all grow cs (new_stream now n)) pss tail laws ok cut (
      receive_all-within grow cs (new_stream now n) (unfold new_stream in omega arith)
      ∙ unfold new_stream in e)

-- Beyond the capacity the new vector begins with twice as many zeros as there are bytes to hold.
pub handle_receive_beyond :
    (grow : ℕ → ℕ → ℕ) (now : ℕ) (src : List ℕ) (s : DataStream)
    → s.capacity < length src + length s.buffer
    → (handle_receive grow now src s).buffer
      ≡ replicate ((length src + length s.buffer) * 2) 0 ++ (s.buffer ++ src)
unfolding handle_receive push_bytes reallocate
handle_receive_beyond grow now src s over =
    rw (lt→ltb s.capacity (length src + length s.buffer) over)
      (append_assoc (replicate ((length src + length s.buffer) * 2) 0) s.buffer src)

-- A refused packet that left the buffer at its start empties the vector.
decode_round-unchanged :
    (h : Host) (bytes : List ℕ) (b : Buffer) (e : Error)
    → decode h b ≡ (unexpected e, b)
    → size b ≤ bytes_left_to_read b
    → decode_round h bytes b ≡ record { left = []; packets = []; read_more = false }
unfolding decode_round update_read_buffer kept_bytes packet_list
decode_round-unchanged h bytes b e refused all =
    rw refused (rw (le→leb (size b) (bytes_left_to_read b) all) refl)

zero_word : (h : Host) → IsHost h → word h 4 0 ≡ replicate 4 0
unfolding word memory
zero_word h laws = laws.memory-native_to_big 4 0 (omega arith)

module _ (h : Host) (laws : IsHost h) (not_zero : last_part_digest h [] ≢ 0) (more : List ℕ)
    (bounded : length more ≤ 2 ^ 63) where
  bytes : List ℕ
  bytes = word h 4 0 ++ more

  length-bytes : length bytes ≡ 4 + length more
  unfolding bytes
  length-bytes = omega (arith, length-append (word h 4 0) more, length-word h 4 0)

  decode_round-zero_size :
      decode_round h (word h 4 0 ++ more) (copy_of (word h 4 0 ++ more))
      ≡ record { left = []; packets = []; read_more = false }
  unfolding bytes
  decode_round-zero_size =
      let (e, p) =
        decode-zero_size h laws not_zero (copy_of bytes) more (copied_start bytes)
          (copied-Holds bytes) (omega (arith, length-bytes)) in
      decode_round-unchanged h bytes (copy_of bytes) e p all
    where
      all : size (copy_of bytes) ≤ bytes_left_to_read (copy_of bytes)
      all =
          unfold size in
          omega
            (arith, bytes_left-Holds (copy_of bytes) bytes (copied-Holds bytes), copied_size bytes)

  -- A vector that begins with a zero size is emptied.
  round_zeros :
      6 ≤ length more
      → round h (replicate 4 0 ++ more) ≡ record { left = []; packets = []; read_more = false }
  unfolding bytes
  round_zeros long =
      subst (λ zs. round h (zs ++ more) ≡ record { left = []; packets = []; read_more = false })
        (zero_word h laws)
        (round_complete h laws 0 (omega arith) more (omega (arith, length-bytes)) (omega arith)
          ∙ decode_round-zero_size)

abbrev zero_bytes : ℕ → List ℕ
zero_bytes n = replicate n 0

cut-replicate : (k : ℕ) → 4 ≤ k → zero_bytes k ≡ zero_bytes 4 ++ zero_bytes (k - 4)
cut-replicate (suc (suc (suc (suc k)))) h =
    ap (λ m. zero_bytes 4 ++ zero_bytes m)
      (let e : k ≡ suc (suc (suc (suc k))) - 4 = omega arith in e)
cut-replicate zero h = absurd (omega arith)
cut-replicate (suc zero) h = absurd (omega arith)
cut-replicate (suc (suc zero)) h = absurd (omega arith)
cut-replicate (suc (suc (suc zero))) h = absurd (omega arith)

-- Beyond the capacity everything is lost: `process` gives no packet and empties the stream, unless
-- the MD5 digest of no bytes ends in four zeros.
pub process-beyond :
    (h : Host) (grow : ℕ → ℕ → ℕ) (now : ℕ) (src : List ℕ) (s : DataStream)
    → IsHost h
    → last_part_digest h [] ≢ 0
    → s.capacity < length src + length s.buffer
    → 4 ≤ length src + length s.buffer
    → length src + length s.buffer ≤ 2 ^ 60
    → process h (handle_receive grow now src s)
      ≡ some (record (handle_receive grow now src s) { buffer = [] }, [])
unfolding process process_loop
process-beyond h grow now src s laws not_zero over some_bytes bounded = rw (zeros) (rw emptied refl)
  where
    n : ℕ
    n = (length src + length s.buffer) * 2

    more : List ℕ
    more = replicate (n - 4) 0 ++ (s.buffer ++ src)

    length-more : length more ≡ (n - 4) + (length s.buffer + length src)
    length-more = omega (
      arith,
      length-append (zero_bytes (n - 4)) (s.buffer ++ src),
      length-append s.buffer src,
      length-replicate (n - 4) (zero),
    )

    zeros : (handle_receive grow now src s).buffer ≡ replicate 4 0 ++ more
    zeros =
        handle_receive_beyond grow now src s over
        ∙ ap (λ zs. zs ++ (s.buffer ++ src)) (cut-replicate n (omega arith))

    emptied :
        round h (replicate 4 0 ++ more) ≡ record { left = []; packets = []; read_more = false }
    emptied =
        round_zeros h laws not_zero more (omega (arith, length-more)) (omega (arith, length-more))
