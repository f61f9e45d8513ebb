-- ===== src/Common/Formats.antt =====
-- The texts that `std::format` and `std::to_string` give of numbers, as lists of character codes. It
-- models the standard library, no code of the repository.
use Prim.Native.Nat.{ℕ, zero, suc, ◌+◌, ◌-◌, ◌*◌, ◌/◌, ◌%◌, ◌^◌, ◌≤◌, ◌<◌}
use mathlib.Core.Path.{◌≡◌, refl, ap, ◌∙◌}
use mathlib.Core.Logic.{inl, inr}
use mathlib.Core.List.{List, [], ◌∷◌, ◌++◌}
use native.Mathlib.Omega.{arith}
use discnet.Common.Tests.{ltb, if◌then◌else◌, Bool-cases}
use discnet.Common.Lists.{All, All-append}
use discnet.Common.Keys.{Text}

-- A number in decimal, on as much fuel as it has digits.
unfoldable pub digits : ℕ → ℕ → Text
digits zero n = []
digits (suc fuel) n =
    let front = digits fuel (n / 10) in
    if ltb n 10 then (48 + n) ∷ [] else front ++ ((48 + n % 10) ∷ [])

-- A number of 64 bits has 20 digits at most.
unfoldable pub decimal : ℕ → Text
decimal n = digits 20 n

-- `{:02X}` of a byte.
unfoldable pub hex_digit : ℕ → ℕ
hex_digit n = if ltb n 10 then 48 + n else 55 + n

unfoldable pub hex_byte : ℕ → Text
hex_byte n = hex_digit (n / 16) ∷ hex_digit (n % 16) ∷ []

-- The number that digits stand for, behind those of `n`.
unfoldable pub number_from : ℕ → Text → ℕ
number_from n [] = n
number_from n (c ∷ cs) = number_from (n * 10 + (c - 48)) cs

number_from-append :
    (xs ys : Text) (n : ℕ) → number_from n (xs ++ ys) ≡ number_from (number_from n xs) ys
unfolding number_from
number_from-append [] ys n = refl
number_from-append (x ∷ xs) ys n = number_from-append xs ys _

abbrev pub IsDigit : ℕ → Type 0
IsDigit c = (48 ≤ c) × (c ≤ 57)

number_from-digits : (fuel n : ℕ) → n < 10 ^ fuel → number_from 0 (digits fuel n) ≡ n
unfolding number_from digits
number_from-digits zero n h = omega arith
number_from-digits (suc fuel) n h = elim (Bool-cases (ltb n 10)) [
  | inl one_digit ↦ rw one_digit (ground (arith, one_digit))
  | inr more ↦ rw more (
      number_from-append (digits fuel (n / 10)) _ 0
      ∙ ap (λ k. k * 10 + (48 + n % 10 - 48)) (number_from-digits fuel (n / 10) (omega arith))
      ∙ omega arith)
]

digits-IsDigit : (fuel n : ℕ) → All IsDigit (digits fuel n)
unfolding digits
digits-IsDigit zero n = tt
digits-IsDigit (suc fuel) n = elim (Bool-cases (ltb n 10)) [
  | inl one_digit ↦ rw one_digit ((omega arith, ground (arith, one_digit)), tt)
  | inr more ↦ rw more (
      All-append IsDigit (digits fuel (n / 10)) _ (digits-IsDigit fuel (n / 10))
        ((omega arith, omega arith), tt))
]

-- Reading a number back from its digits.
pub number_from-decimal : (n : ℕ) → n < 10 ^ 20 → number_from 0 (decimal n) ≡ n
unfolding decimal
number_from-decimal n h = number_from-digits 20 n h

pub decimal-IsDigit : (n : ℕ) → All IsDigit (decimal n)
unfolding decimal
decimal-IsDigit n = digits-IsDigit 20 n

append-cons : (xs : Text) (y : ℕ) → (c : ℕ) × (cs : Text) × (xs ++ (y ∷ []) ≡ c ∷ cs)
append-cons [] y = (y, [], refl)
append-cons (x ∷ xs) y = (x, xs ++ (y ∷ []), refl)

-- A number has a digit.
pub decimal-cons : (n : ℕ) → (c : ℕ) × (cs : Text) × (decimal n ≡ c ∷ cs)
unfolding decimal digits
decimal-cons n = elim (Bool-cases (ltb n 10)) [
  | inl one_digit ↦ rw one_digit (48 + n, [], refl)
  | inr more ↦ rw more (append-cons (digits 19 (n / 10)) (48 + n % 10))
]

hex_digit-injective : (a b : ℕ) → a < 16 → b < 16 → hex_digit a ≡ hex_digit b → a ≡ b
unfolding hex_digit
hex_digit-injective a b p q e = ground (arith, p, q, e)

-- Bytes with the same text are the same.
pub hex_byte-injective : (a b : ℕ) → a < 256 → b < 256 → hex_byte a ≡ hex_byte b → a ≡ b
unfolding hex_byte
hex_byte-injective a b p q e =
    let high =
      hex_digit-injective (a / 16) (b / 16) (omega arith) (omega arith) (ap (λ t. head t) e) in
    let low =
      hex_digit-injective (a % 16) (b % 16) (omega arith) (omega arith) (ap (λ t. second t) e) in
    omega arith
  where
    head : Text → ℕ
    head [] = 0
    head (c ∷ cs) = c

    second : Text → ℕ
    second [] = 0
    second (c ∷ cs) = head cs

-- Texts behind each other, a separator in front of each.
abbrev pub prefixed : Text → List Text → Text
prefixed separator [] = []
prefixed separator (t ∷ ts) = separator ++ (t ++ prefixed separator ts)

-- Texts behind each other, the separator between two of them.
abbrev pub join : Text → List Text → Text
join separator [] = []
join separator (t ∷ ts) = t ++ prefixed separator ts
