-- ===== src/Network/Buffer/Writing.antt =====
-- What the append calls of network/buffer.cpp leave in the buffer.
use discnet.Common.{
  zero, length-replicate, [], ℕ, ◌+◌, ◌≤◌, ◌<◌, ◌≡◌, refl, sym, ap, ◌∙◌, arith, List, ◌++◌,
  append_assoc, Bool, true, false, length, length-append, length-take, take, drop, take-append,
}
use discnet.Host.{memory, length-memory}
use discnet.Network.Buffer.{Buffer, data_span, copy_to, append, append_span, remaining_bytes, new}
use discnet.Network.Buffer.Reading.{Holds}
use discnet.Network.Buffer.Invariant.{length-copy_to}

-- A call on `b` answered true and put `xs` behind what was written.
pub record Written (b : Buffer) (r : Bool × Buffer) (xs : List ℕ) : Type 0 where
  pub done : r.0 ≡ true
  pub written : data_span r.1 ≡ data_span b ++ xs
  pub offset : r.1.write_offset ≡ b.write_offset + length xs
  pub same_size : length r.1.bytes ≡ length b.bytes
  pub same_read : r.1.read_offset ≡ b.read_offset

-- Two calls, one after the other.
pub Written-trans :
    (b : Buffer) (r q : Bool × Buffer) (xs ys : List ℕ)
    → Written b r xs
    → Written r.1 q ys
    → Written b q (xs ++ ys)
Written-trans b r q xs ys v w = record {
  done = w.done;
  written = w.written ∙ ap (λ zs. zs ++ ys) v.written ∙ append_assoc (data_span b) xs ys;
  offset = omega (arith, v.offset, w.offset, length-append xs ys);
  same_size = w.same_size ∙ v.same_size;
  same_read = w.same_read ∙ v.same_read;
}

take-copy_to :
    (bytes : List ℕ) (offset : ℕ) (src : List ℕ)
    → offset ≤ length bytes
    → take (offset + length src) (copy_to bytes offset src) ≡ take offset bytes ++ src
unfolding copy_to
take-copy_to bytes offset src h =
    ap (take (offset + length src))
      (sym (append_assoc (take offset bytes) src (drop (offset + length src) bytes)))
    ∙ take-append (offset + length src) (take offset bytes ++ src) _
        (omega (arith, length-append (take offset bytes) src, length-take offset bytes))

-- A span that fits is written whole.
pub append_span-Written :
    (src : List ℕ) (b : Buffer)
    → b.write_offset ≤ length b.bytes
    → length src ≤ remaining_bytes b
    → Written b (append_span src b) src
unfolding append_span remaining_bytes data_span
append_span-Written src b valid fits = ground (
  arith,
  take-copy_to b.bytes b.write_offset src valid,
  length-copy_to b.bytes b.write_offset src,
)

pub append-append_span : (w v : ℕ) (b : Buffer) → append w v b ≡ append_span (memory w v) b
unfolding append append_span
append-append_span w v b = rw (length-memory w v) refl

pub append-Written :
    (w v : ℕ) (b : Buffer)
    → b.write_offset ≤ length b.bytes
    → w ≤ remaining_bytes b
    → Written b (append w v b) (memory w v)
append-Written w v b valid fits =
    rw (append-append_span w v b)
      (append_span-Written (memory w v) b valid (omega (arith, length-memory w v)))

-- What does not fit is refused, and the buffer stays as it was.
pub append_span_refused :
    (src : List ℕ) (b : Buffer) → remaining_bytes b < length src → append_span src b ≡ (false, b)
unfolding append_span
append_span_refused src b h = ground arith

pub data_span-new : (n : ℕ) → data_span (new n) ≡ []
unfolding data_span new
data_span-new n = refl

-- A call on a new buffer leaves what it wrote to be read.
pub Written-new :
    (n : ℕ) (r : Bool × Buffer) (xs : List ℕ) → length xs ≤ n → Written (new n) r xs → Holds r.1 xs
unfolding new data_span
Written-new n r xs fits w = record {
  read_within = omega (arith, w.same_read);
  write_within = omega (arith, w.offset, w.same_size, length-replicate n (zero));
  holds = rw (w.same_read) (w.written);
}
