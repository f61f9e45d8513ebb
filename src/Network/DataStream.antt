-- ===== src/Network/DataStream.antt =====
-- network/data_stream.cpp: the bytes that came from one sender to one recipient, cut into packets.
-- The clock is an argument of the calls. The capacity that a vector has after it grew is up to the
-- standard library: it is the parameter `grow`, of the old capacity and the size that is needed.
pub mod Termination
pub mod Receiving
pub mod Sized
pub mod Framing
mod Tests
use discnet.Common.{
  ℕ, zero, suc, ◌+◌, ◌-◌, ◌*◌, ◌^◌, List, [], ◌∷◌, ◌++◌, Bool, true, false, Option, none, some, ltb,
  leb, ◌==◌, if◌then◌else◌, length, drop, replicate,
}
use mathlib.Core.Option
use discnet.Host.{Host}
use discnet.Network.Buffer.{
  Buffer, new, append_span, bytes_left_to_read, size, reset_read, resize_bytes, read_int32,
}
use discnet.Network.Messages.Decoder.{Expected, value, unexpected}
use discnet.Network.Messages.Packet.{Packet, s_header_size, decode}

pub record DataStream : Type 0 where
  pub inital_receive : ℕ
  pub last_received : ℕ
  pub buffer : List ℕ
  pub capacity : ℕ

-- The constructor at the time `now`: the vector is made with `buffer_size` elements, then emptied.
unfoldable pub new_stream : ℕ → ℕ → DataStream
new_stream now buffer_size = record {
  inital_receive = now;
  last_received = now;
  buffer = [];
  capacity = buffer_size;
}

-- `(size_t)` of an int32_t that is given by its bit pattern.
unfoldable pub sign_extend : ℕ → ℕ
sign_extend v = if ltb v (2 ^ 31) then v else v + (2 ^ 64 - 2 ^ 32)

-- `std::shift_left`: nothing moves where the distance reaches the size.
shift_left : ℕ → List ℕ → List ℕ
shift_left n xs = if leb (length xs) n then xs else drop n xs ++ drop (length xs - n) xs

-- The loop's variables after one round: the vector, the packets of the round, `read_more`.
pub record Round : Type 0 where
  pub left : List ℕ
  pub packets : List Packet
  pub read_more : Bool

packet_list : Expected Packet → List Packet
packet_list (value p) = p ∷ []
packet_list (unexpected e) = []

is_value : Expected Packet → Bool
is_value (value p) = true
is_value (unexpected e) = false

-- "update read buffer": `kept` is the vector, `c` the buffer after the call of `decode`.
update_read_buffer : List ℕ → Expected Packet → Buffer → Round
unfolding packet_list is_value shift_left
update_read_buffer kept r c =
    if leb (size c) (bytes_left_to_read c)
    then record { left = kept; packets = packet_list r; read_more = false }
    else if bytes_left_to_read c == 0
    then record { left = []; packets = packet_list r; read_more = false }
    else record {
      left = resize_bytes (bytes_left_to_read c) (shift_left (size c - bytes_left_to_read c) kept);
      packets = packet_list r;
      read_more = is_value r;
    }

-- The vector is emptied where the packet is invalid.
kept_bytes : List ℕ → Expected Packet → List ℕ
kept_bytes bytes (value p) = bytes
kept_bytes bytes (unexpected e) = []

pub decode_round : Host → List ℕ → Buffer → Round
unfolding update_read_buffer kept_bytes
decode_round h bytes b =
    update_read_buffer (kept_bytes bytes (decode h b).0) (decode h b).0 (decode h b).1

pub stop : List ℕ → Round
stop bytes = record { left = bytes; packets = []; read_more = false }

sized_round : Host → List ℕ → Buffer → Round
unfolding decode_round stop
sized_round h bytes b =
    if ltb (bytes_left_to_read b) (sign_extend (h.big_to_native 4 (read_int32 b).0))
    then stop bytes
    else decode_round h bytes (reset_read (read_int32 b).1)

-- The copy of the vector in a buffer of its size.
pub copy_of : List ℕ → Buffer
copy_of bytes = (append_span bytes (new (length bytes))).1

-- The body of the loop of `process`.
pub round : Host → List ℕ → Round
unfolding sized_round stop copy_of
round h bytes =
    if ltb (bytes_left_to_read (copy_of bytes)) s_header_size
    then stop bytes
    else sized_round h bytes (copy_of bytes)

-- What the rounds that follow bring, behind the packets of this one.
push_packets : List Packet → Option (List ℕ × List Packet) → Option (List ℕ × List Packet)
push_packets ps none = none
push_packets ps (some (bytes, qs)) = some (bytes, ps ++ qs)

-- `none` is no behaviour of the source: the fuel ran out.
pub process_loop : ℕ → Host → List ℕ → Option (List ℕ × List Packet)
unfolding push_packets
process_loop zero h bytes = none
process_loop (suc fuel) h bytes =
    let r = round h bytes in
    let rest = push_packets r.packets (process_loop fuel h r.left) in
    if r.read_more then rest else some (r.left, r.packets)

-- Every round that goes on makes the vector shorter, so this fuel is enough.
pub process : Host → DataStream → Option (DataStream × List Packet)
process h s =
    Option.map (λ r. (record s { buffer = r.0 }, r.1))
      (process_loop (suc (length s.buffer)) h s.buffer)

-- The capacity once a vector holds `n` elements.
unfoldable pub capacity_for : (ℕ → ℕ → ℕ) → ℕ → ℕ → ℕ
capacity_for grow capacity n = if leb n capacity then capacity else grow capacity n

-- `std::back_inserter` on the vector.
push_bytes : (ℕ → ℕ → ℕ) → List ℕ → DataStream → DataStream
push_bytes grow src s = record s {
  buffer = s.buffer ++ src;
  capacity = capacity_for grow s.capacity (length (s.buffer ++ src));
}

-- `new_buffer` is made with `new_buffer_size` elements, and the old ones go behind those.
reallocate : (ℕ → ℕ → ℕ) → ℕ → DataStream → DataStream
reallocate grow new_buffer_size s =
    let new_buffer = replicate new_buffer_size 0 ++ s.buffer in
    record s { buffer = new_buffer; capacity = capacity_for grow s.capacity (length new_buffer) }

pub handle_receive : (ℕ → ℕ → ℕ) → ℕ → List ℕ → DataStream → DataStream
unfolding push_bytes reallocate
handle_receive grow now src s =
    let new_unread_size = length src + length s.buffer in
    let s' =
      if ltb s.capacity new_unread_size then reallocate grow (new_unread_size * 2) s else s in
    record (push_bytes grow src s') { last_received = now }
