-- ===== src/Host/Swapping.antt =====
-- A host that meets the assumptions: the conversions reverse the bytes, and a digest counts them.
use mathlib.Core.List.{reverse, reverse-reverse, reverse-cons}
use discnet.Common.{
  ℕ, zero, suc, ◌+◌, ◌*◌, ◌/◌, ◌%◌, ◌^◌, ◌<◌, ◌≡◌, refl, sym, ap, ◌∙◌, arith, List, [], ◌∷◌, ◌++◌,
  length, length-append, replicate, All,
}
use discnet.Host.{Host, IsHost, IsByte, memory, load, length-memory, load-memory, load-lt}

All-append : (xs ys : List ℕ) → All IsByte xs → All IsByte ys → All IsByte (xs ++ ys)
All-append [] ys h k = k
All-append (x ∷ xs) ys h k = (h.0, All-append xs ys h.1 k)

memory-IsByte : (w v : ℕ) → All IsByte (memory w v)
unfolding memory
memory-IsByte zero v = tt
memory-IsByte (suc w) v = (omega arith, memory-IsByte w (v / 256))

length-reverse : (xs : List ℕ) → length (reverse xs) ≡ length xs
length-reverse [] = refl
length-reverse (x ∷ xs) =
    omega
      (arith, ap length (reverse-cons x xs), length-append (reverse xs) (x ∷ []), length-reverse xs)

reverse-IsByte : (xs : List ℕ) → All IsByte xs → All IsByte (reverse xs)
reverse-IsByte [] h = tt
reverse-IsByte (x ∷ xs) h =
    rw (reverse-cons x xs) (All-append (reverse xs) (x ∷ []) (reverse-IsByte xs h.1) (h.0, tt))

memory-load : (xs : List ℕ) → All IsByte xs → memory (length xs) (load xs) ≡ xs
unfolding memory load
memory-load [] h = refl
memory-load (x ∷ xs) h =
    let low : (x + 256 * load xs) % 256 ≡ x = omega (arith, h.0) in
    let high : (x + 256 * load xs) / 256 ≡ load xs = omega (arith, h.0) in
    rw (low, high) (ap (◌∷◌ x) (memory-load xs h.1))

unfoldable pub swap : ℕ → ℕ → ℕ
unfolding memory load
swap w v = load (reverse (memory w v))

memory-swap : (w v : ℕ) → memory w (swap w v) ≡ reverse (memory w v)
unfolding swap
memory-swap w v =
    let bytes = reverse (memory w v) in
    let e : length bytes ≡ w = length-reverse (memory w v) ∙ length-memory w v in
    ap (λ k. memory k (load bytes)) (sym e)
    ∙ memory-load bytes (reverse-IsByte _ (memory-IsByte w v))

swap-lt : (w v : ℕ) → swap w v < 256 ^ w
unfolding swap
swap-lt w v =
    let bytes = reverse (memory w v) in
    let e : length bytes ≡ w = length-reverse (memory w v) ∙ length-memory w v in
    rw e at (load-lt bytes (reverse-IsByte _ (memory-IsByte w v)))

swap-swap : (w v : ℕ) → v < 256 ^ w → swap w (swap w v) ≡ v
swap-swap w v h =
    unfold swap in
    ap (λ bs. load (reverse bs)) (memory-swap w v)
    ∙ ap load (reverse-reverse (memory w v))
    ∙ load-memory w v h

unfoldable pub counting_digest : List ℕ → List ℕ
counting_digest xs = replicate 16 (length xs % 255 + 1)

abbrev pub swapping : Host
swapping = record { native_to_big = swap; big_to_native = swap; digest = counting_digest }

pub swapping-IsHost : IsHost swapping
unfolding counting_digest
swapping-IsHost = record {
  native_to_big-lt = λ w v h. swap-lt w v;
  memory-native_to_big = λ w v h. memory-swap w v;
  big_to_native-native_to_big = swap-swap;
  length-digest = λ xs. omega arith;
  digest-IsByte = λ xs. omega arith;
}
