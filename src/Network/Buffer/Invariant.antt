-- ===== src/Network/Buffer/Invariant.antt =====
-- The offsets and the contents of network/buffer.cpp after any calls.
use discnet.Common.{
  ℕ, zero, suc, ◌+◌, ◌-◌, ◌/◌, ◌≤◌, ◌≡◌, arith, List, [], ◌∷◌, ◌++◌, length, length-append,
  length-take, length-drop, take, drop, replicate, All,
}
use discnet.Host.{IsByte, memory, length-memory}
use discnet.Network.Buffer.{
  Buffer, new, copy_to, resize_bytes, read, read_buffer, append, append_span, reset_write,
  reset_read, resize, remaining_bytes,
}

pub record IsValid (b : Buffer) : Type 0 where
  pub read_within : b.read_offset ≤ b.write_offset
  pub write_within : b.write_offset ≤ length b.bytes
  pub contents : All IsByte b.bytes

All-append : (xs ys : List ℕ) → All IsByte xs → All IsByte ys → All IsByte (xs ++ ys)
All-append [] ys h k = k
All-append (x ∷ xs) ys h k = (h.0, All-append xs ys h.1 k)

pub All-take : (n : ℕ) (xs : List ℕ) → All IsByte xs → All IsByte (take n xs)
All-take zero xs h = tt
All-take (suc n) [] h = tt
All-take (suc n) (x ∷ xs) h = (h.0, All-take n xs h.1)

pub All-drop : (n : ℕ) (xs : List ℕ) → All IsByte xs → All IsByte (drop n xs)
All-drop zero xs h = h
All-drop (suc n) [] h = tt
All-drop (suc n) (x ∷ xs) h = All-drop n xs h.1

zeros-IsByte : (n : ℕ) → All IsByte (replicate n 0)
zeros-IsByte zero = tt
zeros-IsByte (suc n) = (omega arith, zeros-IsByte n)

memory-IsByte : (w v : ℕ) → All IsByte (memory w v)
unfolding memory
memory-IsByte zero v = tt
memory-IsByte (suc w) v = (omega arith, memory-IsByte w (v / 256))

-- A copy that fits keeps the size.
pub length-copy_to :
    (bytes : List ℕ) (offset : ℕ) (src : List ℕ)
    → offset + length src ≤ length bytes
    → length (copy_to bytes offset src) ≡ length bytes
unfolding copy_to
length-copy_to bytes offset src h = omega (
  arith,
  length-append (take offset bytes) (src ++ drop (offset + length src) bytes),
  length-append src (drop (offset + length src) bytes),
  length-take offset bytes,
  length-drop (offset + length src) bytes,
)

copy_to-IsByte :
    (bytes : List ℕ) (offset : ℕ) (src : List ℕ)
    → All IsByte bytes
    → All IsByte src
    → All IsByte (copy_to bytes offset src)
unfolding copy_to
copy_to-IsByte bytes offset src h k =
    All-append _ _ (All-take offset bytes h)
      (All-append _ _ k (All-drop (offset + length src) bytes h))

-- Every call that changes a buffer.
pub data Call : Type 0 where
  read_value : ℕ → Call
  read_span : ℕ → Call
  append_value : ℕ → ℕ → Call
  append_bytes : (src : List ℕ) → All IsByte src → Call
  clear_all : Call
  rewind : Call
  resize_to : ℕ → Call

unfoldable pub step : Call → Buffer → Buffer
step (read_value w) b = (read w b).1
step (read_span n) b = (read_buffer n b).1
step (append_value w v) b = (append w v b).1
step (append_bytes src h) b = (append_span src b).1
step clear_all b = reset_write b
step rewind b = reset_read b
step (resize_to n) b = resize n b

unfoldable pub run : List Call → Buffer → Buffer
run [] b = b
run (c ∷ cs) b = run cs (step c b)

new-IsValid : (n : ℕ) → IsValid (new n)
unfolding new
new-IsValid n = record {
  read_within = omega arith;
  write_within = omega arith;
  contents = zeros-IsByte n;
}

append_span-IsValid :
    (src : List ℕ) (b : Buffer) → All IsByte src → IsValid b → IsValid (append_span src b).1
unfolding append_span remaining_bytes
append_span-IsValid src b k v = ground (
  arith,
  length-copy_to b.bytes b.write_offset src,
  copy_to-IsByte b.bytes b.write_offset src v.contents k,
)

append-IsValid : (w val : ℕ) (b : Buffer) → IsValid b → IsValid (append w val b).1
unfolding append remaining_bytes
append-IsValid w val b v = ground (
  arith,
  length-memory w val,
  length-copy_to b.bytes b.write_offset (memory w val),
  copy_to-IsByte b.bytes b.write_offset (memory w val) v.contents (memory-IsByte w val),
)

read-IsValid : (w : ℕ) (b : Buffer) → IsValid b → IsValid (read w b).1
unfolding read
read-IsValid w b v = ground arith

read_buffer-IsValid : (n : ℕ) (b : Buffer) → IsValid b → IsValid (read_buffer n b).1
unfolding read_buffer
read_buffer-IsValid n b v = ground arith

step-IsValid : (c : Call) (b : Buffer) → IsValid b → IsValid (step c b)
unfolding step reset_write reset_read resize resize_bytes
step-IsValid (read_value w) b v = read-IsValid w b v
step-IsValid (read_span n) b v = read_buffer-IsValid n b v
step-IsValid (append_value w val) b v = append-IsValid w val b v
step-IsValid (append_bytes src h) b v = append_span-IsValid src b h v
step-IsValid clear_all b v = record {
  read_within = omega arith;
  write_within = omega arith;
  contents = zeros-IsByte (length b.bytes);
}
step-IsValid rewind b v = record {
  read_within = omega arith;
  write_within = v.write_within;
  contents = v.contents;
}
step-IsValid (resize_to n) b v = record {
  read_within = omega arith;
  write_within = omega arith;
  contents = All-append _ _ (All-take n b.bytes v.contents) (zeros-IsByte (n - length b.bytes));
}

run-IsValid : (cs : List Call) (b : Buffer) → IsValid b → IsValid (run cs b)
unfolding run
run-IsValid [] b v = v
run-IsValid (c ∷ cs) b v = run-IsValid cs (step c b) (step-IsValid c b v)

-- After any sequence of calls on a new buffer, the read offset is at most the write offset, that is
-- at most the size, and every element is a byte.
pub run-new-IsValid : (n : ℕ) (cs : List Call) → IsValid (run cs (new n))
run-new-IsValid n cs = run-IsValid cs (new n) (new-IsValid n)
