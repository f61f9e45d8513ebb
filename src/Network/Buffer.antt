-- ===== src/Network/Buffer.antt =====
-- network/buffer.cpp: the byte buffer with a write and a read offset. A method takes the buffer and
-- returns its result with the new buffer. The offsets stay within the vector, so the unsigned
-- differences do not wrap.
pub mod Invariant
pub mod Reading
pub mod Writing
pub mod Fifo
mod Tests
use discnet.Common.{
  ℕ, ◌+◌, ◌-◌, List, [], ◌++◌, Bool, true, false, ltb, leb, if◌then◌else◌, length, take, drop,
  replicate,
}
use discnet.Host.{memory, load}

pub record Buffer : Type 0 where
  pub write_offset : ℕ
  pub read_offset : ℕ
  pub bytes : List ℕ

-- The constructor.
unfoldable pub new : ℕ → Buffer
new size = record { write_offset = 0; read_offset = 0; bytes = replicate size 0 }

unfoldable pub data_span : Buffer → List ℕ
data_span b = take b.write_offset b.bytes

unfoldable pub remaining_bytes : Buffer → ℕ
remaining_bytes b = length b.bytes - b.write_offset

unfoldable pub appended_bytes : Buffer → ℕ
appended_bytes b = b.write_offset

unfoldable pub bytes_left_to_read : Buffer → ℕ
bytes_left_to_read b =
    if leb b.write_offset b.read_offset then 0 else b.write_offset - b.read_offset

unfoldable pub size : Buffer → ℕ
size b = length b.bytes

-- `asio::const_buffer` over the written part.
unfoldable pub const_buffer : Buffer → List ℕ
const_buffer b = take b.write_offset b.bytes

-- `std::memcpy` to an offset of the vector.
unfoldable pub copy_to : List ℕ → ℕ → List ℕ → List ℕ
copy_to bytes offset src = take offset bytes ++ (src ++ drop (offset + length src) bytes)

-- `vector::resize`, with zeros behind what was there.
unfoldable pub resize_bytes : ℕ → List ℕ → List ℕ
resize_bytes n bytes = take n bytes ++ replicate (n - length bytes) 0

-- `read<type_t>`, for `sizeof(type_t)` bytes; the value is a bit pattern. Too few bytes: 0.
unfoldable pub read : ℕ → Buffer → ℕ × Buffer
read w b =
    if leb b.write_offset b.read_offset
    then (0, b)
    else if leb w (b.write_offset - b.read_offset)
    then (load (take w (drop b.read_offset b.bytes)), record b { read_offset = b.read_offset + w })
    else (0, b)

unfoldable pub read_uint16 : Buffer → ℕ × Buffer
read_uint16 b = read 2 b

unfoldable pub read_uint32 : Buffer → ℕ × Buffer
read_uint32 b = read 4 b

unfoldable pub read_uint64 : Buffer → ℕ × Buffer
read_uint64 b = read 8 b

unfoldable pub read_int16 : Buffer → ℕ × Buffer
read_int16 b = read 2 b

unfoldable pub read_int32 : Buffer → ℕ × Buffer
read_int32 b = read 4 b

unfoldable pub read_int64 : Buffer → ℕ × Buffer
read_int64 b = read 8 b

-- The source compares by `>`: a length of exactly the bytes left gives the empty span.
unfoldable pub read_buffer : ℕ → Buffer → List ℕ × Buffer
read_buffer length b =
    if leb b.write_offset b.read_offset
    then ([], b)
    else if ltb length (b.write_offset - b.read_offset)
    then (
      take length (drop b.read_offset b.bytes),
      record b { read_offset = b.read_offset + length },
    )
    else ([], b)

-- `append(buffer_span_t)`.
unfoldable pub append_span : List ℕ → Buffer → Bool × Buffer
append_span src b = if ltb (remaining_bytes b) (length src) then (false, b) else (
  true,
  record b {
    bytes = copy_to b.bytes b.write_offset src;
    write_offset = b.write_offset + length src;
  },
)

-- `append<type_t>`, for `sizeof(type_t)` bytes; `append` of each of the six integer types.
unfoldable pub append : ℕ → ℕ → Buffer → Bool × Buffer
append w val b = if ltb (remaining_bytes b) w then (false, b) else (
  true,
  record b {
    bytes = copy_to b.bytes b.write_offset (memory w val);
    write_offset = b.write_offset + w;
  },
)

unfoldable pub append_uint16 : ℕ → Buffer → Bool × Buffer
append_uint16 val b = append 2 val b

unfoldable pub append_uint32 : ℕ → Buffer → Bool × Buffer
append_uint32 val b = append 4 val b

unfoldable pub append_uint64 : ℕ → Buffer → Bool × Buffer
append_uint64 val b = append 8 val b

unfoldable pub reset_write : Buffer → Buffer
reset_write b = record { write_offset = 0; read_offset = 0; bytes = replicate (length b.bytes) 0 }

unfoldable pub reset_read : Buffer → Buffer
reset_read b = record b { read_offset = 0 }

unfoldable pub resize : ℕ → Buffer → Buffer
resize new_size b = record {
  write_offset = 0;
  read_offset = 0;
  bytes = resize_bytes new_size b.bytes;
}
