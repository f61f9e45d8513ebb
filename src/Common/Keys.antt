-- ===== src/Common/Keys.antt =====
-- `std::string` as the list of its characters, and ordered maps as the source uses `std::map`: the
-- entries in the order of their keys. It models the standard library, no code of the repository.
use Prim.Native.Nat.{ℕ}
use mathlib.Core.Path.{◌≡◌, refl, ap₂}
use mathlib.Core.Bool.{Bool, true, false, not, ◌&&◌, ◌||◌}
use mathlib.Core.Option.{Option, none, some}
use mathlib.Core.List.{List, [], ◌∷◌}
use native.Mathlib.Omega.{arith}
use discnet.Common.Tests.{ltb, if◌then◌else◌, le→ltb}

abbrev pub Text : Type 0
Text = List ℕ

-- `operator<` of strings.
unfoldable pub text_less : Text → Text → Bool
text_less xs [] = false
text_less [] (y ∷ ys) = true
text_less (x ∷ xs) (y ∷ ys) = ltb x y || (not (ltb y x) && text_less xs ys)

-- Keys that no order tells apart, as `std::map` compares them.
unfoldable pub equivalent {ℓ} : {K : Type ℓ} → (K → K → Bool) → K → K → Bool
equivalent less j k = not (less j k) && not (less k j)

-- What the maps need of an order on their keys.
pub record IsOrder {ℓ} {K : Type ℓ} (less : K → K → Bool) : Type ℓ where
  pub irreflexive : (k : K) → less k k ≡ false
  pub antisymmetric : (j k : K) → less j k ≡ false → less k j ≡ false → j ≡ k

||_false : (a b : Bool) → (a || b) ≡ false → (a ≡ false) × (b ≡ false)
||_false true b e = cc e
||_false false b e = (refl, e)

not-&&_false : (a b : Bool) → a ≡ false → (not a && b) ≡ false → b ≡ false
not-&&_false true b h e = cc h
not-&&_false false b h e = e

text_less-irreflexive : (xs : Text) → text_less xs xs ≡ false
unfolding text_less
text_less-irreflexive [] = refl
text_less-irreflexive (x ∷ xs) = rw (le→ltb x x (omega arith), text_less-irreflexive xs) refl

text_less-antisymmetric :
    (xs ys : Text) → text_less xs ys ≡ false → text_less ys xs ≡ false → xs ≡ ys
unfolding text_less
text_less-antisymmetric [] [] p q = refl
text_less-antisymmetric [] (y ∷ ys) p q = cc p
text_less-antisymmetric (x ∷ xs) [] p q = cc q
text_less-antisymmetric (x ∷ xs) (y ∷ ys) p q =
    let (before, rest) = ||_false (ltb x y) _ p in
    let (after, rest') = ||_false (ltb y x) _ q in
    ap₂ (◌∷◌) (ground (arith, before, after)) (
      text_less-antisymmetric xs ys (not-&&_false (ltb y x) _ after rest)
        (not-&&_false (ltb x y) _ before rest'))

pub text_less-IsOrder : IsOrder text_less
text_less-IsOrder = record {
  irreflexive = text_less-irreflexive;
  antisymmetric = text_less-antisymmetric;
}

module _ {ℓ κ} {K : Type ℓ} {V : Type κ} (less : K → K → Bool) where
  -- `find`.
  unfoldable pub find : K → List (K × V) → Option V
  find k [] = none
  find k ((j, v) ∷ m) = let rest = find k m in if equivalent less j k then some v else rest

  -- `insert` and `try_emplace`: an entry that is there stays.
  unfoldable pub insert : K → V → List (K × V) → List (K × V)
  insert k v [] = (k, v) ∷ []
  insert k v ((j, w) ∷ m) =
      let rest = insert k v m in
      if less j k then (j, w) ∷ rest else if less k j then (k, v) ∷ (j, w) ∷ m else (j, w) ∷ m

  -- `insert_or_assign`.
  unfoldable pub insert_or_assign : K → V → List (K × V) → List (K × V)
  insert_or_assign k v [] = (k, v) ∷ []
  insert_or_assign k v ((j, w) ∷ m) =
      let rest = insert_or_assign k v m in
      if less j k then (j, w) ∷ rest else if less k j then (k, v) ∷ (j, w) ∷ m else (j, v) ∷ m

  -- `erase` at every entry whose key `gone` holds of, as an iteration over the map does.
  unfoldable pub erase_if : (K → Bool) → List (K × V) → List (K × V)
  erase_if gone [] = []
  erase_if gone ((j, v) ∷ m) = let rest = erase_if gone m in if gone j then rest else (j, v) ∷ rest
