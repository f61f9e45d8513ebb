-- ===== src/Network/ReadBuffer.antt =====
-- network/read_buffer.cpp: a view of bytes that keeps a read offset of its own.
pub mod Refinement
mod Tests
use discnet.Common.{ℕ, ◌+◌, ◌-◌, List, [], leb, ltb, if◌then◌else◌, length, take, drop}
use discnet.Host.{load}

pub record ReadBuffer : Type 0 where
  pub read_offset : ℕ
  pub bytes : List ℕ

-- The constructor.
unfoldable pub new_view : List ℕ → ReadBuffer
new_view bytes = record { read_offset = 0; bytes = bytes }

unfoldable pub bytes_left : ReadBuffer → ℕ
bytes_left b = if leb (length b.bytes) b.read_offset then 0 else length b.bytes - b.read_offset

unfoldable pub view_size : ReadBuffer → ℕ
view_size b = length b.bytes

-- `read<type_t>`, for `sizeof(type_t)` bytes.
unfoldable pub read_view : ℕ → ReadBuffer → ℕ × ReadBuffer
read_view w b =
    if leb (length b.bytes) b.read_offset
    then (0, b)
    else if leb w (length b.bytes - b.read_offset)
    then (load (take w (drop b.read_offset b.bytes)), record b { read_offset = b.read_offset + w })
    else (0, b)

-- `read_uint16` and `read_int16`, and so on.
unfoldable pub read_view16 : ReadBuffer → ℕ × ReadBuffer
read_view16 = read_view 2

unfoldable pub read_view32 : ReadBuffer → ℕ × ReadBuffer
read_view32 = read_view 4

unfoldable pub read_view64 : ReadBuffer → ℕ × ReadBuffer
read_view64 = read_view 8

unfoldable pub read_span : ℕ → ReadBuffer → List ℕ × ReadBuffer
read_span n b =
    if leb (length b.bytes) b.read_offset
    then ([], b)
    else if ltb n (length b.bytes - b.read_offset)
    then (take n (drop b.read_offset b.bytes), record b { read_offset = b.read_offset + n })
    else ([], b)

unfoldable pub reset_view : ReadBuffer → ReadBuffer
reset_view b = record b { read_offset = 0 }
