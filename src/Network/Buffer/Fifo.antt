-- ===== src/Network/Buffer/Fifo.antt =====
-- network/buffer.cpp as a queue of integers.
use discnet.Common.{
  ℕ, zero, ◌+◌, ◌^◌, ◌≤◌, ◌<◌, ◌≡◌, refl, sym, ap₂, arith, List, [], ◌∷◌, ◌++◌, append-nil, true,
  map, length, length-append, length-replicate, All,
}
use discnet.Host.{memory, length-memory, load-memory}
use discnet.Network.Buffer.{Buffer, new, read, append, data_span, remaining_bytes}
use discnet.Network.Buffer.Reading.{Holds, advance, advance-Holds, read_enough}
use discnet.Network.Buffer.Writing.{Written, Written-trans, Written-new, append-Written}

-- Integers with the number of their bytes, as the overloads of `append` and the read calls have it.
pub record Value : Type 0 where
  pub width : ℕ
  pub bits : ℕ

pub record IsValue (v : Value) : Type 0 where
  pub width-pos : 0 < v.width
  pub bits-lt : v.bits < 256 ^ v.width

unfoldable pub append_all : List Value → Buffer → Buffer
append_all [] b = b
append_all (v ∷ vs) b = append_all vs (append v.width v.bits b).1

unfoldable pub read_all : List ℕ → Buffer → List ℕ
read_all [] b = []
read_all (w ∷ ws) b = (read w b).0 ∷ read_all ws (read w b).1

unfoldable pub contents : List Value → List ℕ
contents [] = []
contents (v ∷ vs) = memory v.width v.bits ++ contents vs

unfoldable pub total_width : List Value → ℕ
total_width [] = 0
total_width (v ∷ vs) = v.width + total_width vs

length-contents : (vs : List Value) → length (contents vs) ≡ total_width vs
unfolding contents total_width
length-contents [] = refl
length-contents (v ∷ vs) = omega (
  arith,
  length-append (memory v.width v.bits) (contents vs),
  length-memory v.width v.bits,
  length-contents vs,
)

append_all-Written :
    (vs : List Value) (b : Buffer)
    → b.write_offset ≤ length b.bytes
    → total_width vs ≤ remaining_bytes b
    → Written b (true, append_all vs b) (contents vs)
unfolding append_all contents total_width remaining_bytes
append_all-Written [] b valid fits = record {
  done = refl;
  written = sym (append-nil (data_span b));
  offset = omega arith;
  same_size = refl;
  same_read = refl;
}
append_all-Written (v ∷ vs) b valid fits =
    let first = append-Written v.width v.bits b valid (omega arith) in
    let second =
      append_all-Written vs (append v.width v.bits b).1
        (omega (arith, first.offset, first.same_size, length-memory v.width v.bits))
        (omega (arith, first.offset, first.same_size, length-memory v.width v.bits)) in
    Written-trans b (append v.width v.bits b) _ (memory v.width v.bits) (contents vs) first second

read_all-contents :
    (vs : List Value) (b : Buffer)
    → All IsValue vs
    → Holds b (contents vs)
    → read_all (map (λ v. v.width) vs) b ≡ map (λ v. v.bits) vs
unfolding read_all contents
read_all-contents [] b ok held = refl
read_all-contents (v ∷ vs) b ok held =
    let bytes = memory v.width v.bits in
    let e =
      read_enough b v.width bytes (contents vs) (ok.0).width-pos (length-memory v.width v.bits)
        held in
    rw e (
      ap₂ (◌∷◌) (load-memory v.width v.bits (ok.0).bits-lt) (
        read_all-contents vs (advance v.width b) ok.1
          (advance-Holds b v.width bytes (contents vs) (length-memory v.width v.bits) held)))

-- Integers that are appended to a new buffer with room for them are read back in the same order.
pub read_all-append_all :
    (vs : List Value) (n : ℕ)
    → All IsValue vs
    → total_width vs ≤ n
    → read_all (map (λ v. v.width) vs) (append_all vs (new n)) ≡ map (λ v. v.bits) vs
read_all-append_all vs n ok fits = read_all-contents vs (append_all vs (new n)) ok (
    Written-new n (true, append_all vs (new n)) (contents vs) (omega (arith, length-contents vs))
      (append_all-Written vs (new n) (unfold new in omega arith)
        (unfold new remaining_bytes in omega (arith, length-replicate n (zero)))))
