-- ===== src/Adapters/Info/Prefix.antt =====
-- mask_to_cidr of adapter_manager.cpp.
use discnet.Common.{
  ℕ, zero, suc, ◌+◌, ◌-◌, ◌*◌, ◌/◌, ◌%◌, ◌^◌, ◌≤◌, ◌<◌, ◌≡◌, refl, ap, ap₂, ◌∙◌, inl, inr, arith,
  ◌==◌, Bool, false, Bool-cases, if◌then◌else◌, some,
}
use native.Mathlib.Nat.{one-le-mul, one-le-pow, pow-succ', mul_left_comm}
use discnet.Adapters.Info.{cidr_loop, mask_to_cidr}

cidr_loop-total :
    (fuel bytes cidr : ℕ)
    → bytes < 2 ^ fuel
    → (n : ℕ) × (cidr_loop fuel bytes cidr ≡ some n) × (n ≤ cidr + fuel)
unfolding cidr_loop
cidr_loop-total zero bytes cidr h = (cidr, ground (arith, h), omega arith)
cidr_loop-total (suc fuel) bytes cidr h = elim (Bool-cases (bytes == 0)) [
  | inl done ↦ rw done (cidr, refl, omega arith)
  | inr more ↦
      let (n, e, low) = cidr_loop-total fuel (bytes / 2) (cidr + bytes % 2) (omega arith) in
      rw more (n, e, omega arith)
]

-- The loop comes to an end on every mask of 32 bits, and the length is 32 at most.
pub mask_to_cidr-total :
    (mask : ℕ) → mask < 2 ^ 32 → (n : ℕ) × (mask_to_cidr mask ≡ some n) × (n ≤ 32)
unfolding mask_to_cidr
mask_to_cidr-total mask h = let (n, e, low) = cidr_loop-total 32 mask 0 h in (n, e, omega arith)

pow_pos : (n : ℕ) → 1 ≤ 2 ^ n
pow_pos n = one-le-pow n 2 (omega arith)

cidr_loop-suc :
    (fuel bytes cidr : ℕ)
    → 0 < bytes
    → cidr_loop (suc fuel) bytes cidr ≡ cidr_loop fuel (bytes / 2) (cidr + bytes % 2)
unfolding cidr_loop
cidr_loop-suc fuel bytes cidr h =
    ap (λ (b : Bool). if b then some cidr else cidr_loop fuel (bytes / 2) (cidr + bytes % 2))
      {x = bytes == 0} {y = false} (ground (arith, h))

-- Ones behind each other.
cidr_loop-ones : (n cidr : ℕ) → cidr_loop n (2 ^ n - 1) cidr ≡ some (cidr + n)
unfolding cidr_loop
cidr_loop-ones zero cidr = ground arith
cidr_loop-ones (suc n) cidr =
    let one_bit = pow_pos n in
    cidr_loop-suc n (2 ^ suc n - 1) cidr (omega (arith, one_bit))
    ∙ ap₂ (cidr_loop n) {x = (2 ^ suc n - 1) / 2} {y = 2 ^ n - 1} (omega (arith, one_bit))
        (ap (λ k. cidr + k) {x = (2 ^ suc n - 1) % 2} {y = 1} (omega (arith, one_bit)))
    ∙ cidr_loop-ones n (cidr + 1)
    ∙ ap some (omega arith)

-- Zeros behind a number take a round each.
cidr_loop-zeros :
    (m fuel x cidr : ℕ) → 0 < x → cidr_loop (m + fuel) (x * 2 ^ m) cidr ≡ cidr_loop fuel x cidr
unfolding cidr_loop
cidr_loop-zeros zero fuel x cidr h =
    ap₂ (λ f b. cidr_loop f b cidr) {x = 0 + fuel} {y = fuel} (omega arith) (omega arith)
cidr_loop-zeros (suc m) fuel x cidr h =
    let doubled : x * 2 ^ suc m ≡ 2 * (x * 2 ^ m) =
      ap (λ k. x * k) (pow-succ' 2 m) ∙ mul_left_comm x 2 (2 ^ m) in
    let positive = one-le-mul {a = x} {b = 2 ^ m} h (pow_pos m) in
    ap (λ f. cidr_loop f (x * 2 ^ suc m) cidr) {x = suc m + fuel} {y = suc (m + fuel)} (omega arith)
    ∙ cidr_loop-suc (m + fuel) (x * 2 ^ suc m) cidr (omega (arith, positive, doubled))
    ∙ ap₂ (cidr_loop (m + fuel)) {x = x * 2 ^ suc m / 2} {y = x * 2 ^ m} (omega (arith, doubled))
        (ap (λ k. cidr + k) {x = x * 2 ^ suc m % 2} {y = 0} (omega (arith, doubled)) ∙ omega arith)
    ∙ cidr_loop-zeros m fuel x cidr h

-- The loop over the bits of a mask of 32 bits that has n ones in front of zeros, n up to 32, ends and
-- gives the length n.
pub mask_to_cidr-prefix : (n : ℕ) → n ≤ 32 → mask_to_cidr ((2 ^ n - 1) * 2 ^ (32 - n)) ≡ some n
unfolding mask_to_cidr
mask_to_cidr-prefix zero h = unfold cidr_loop in refl
mask_to_cidr-prefix (suc n) h =
    let one_bit = pow_pos n in
    ap (λ f. cidr_loop f ((2 ^ suc n - 1) * 2 ^ (32 - suc n)) 0) {x = 32} {y = 32 - suc n + suc n}
      (omega (arith, h))
    ∙ cidr_loop-zeros (32 - suc n) (suc n) (2 ^ suc n - 1) 0 (omega (arith, one_bit))
    ∙ cidr_loop-ones (suc n) 0
    ∙ ap some (omega arith)
