-- ===== src/Common/Equality.antt =====
-- The Boolean equalities of the standard library's types. It models no code of the repository.
use mathlib.Core.Path.{◌≡◌, refl, ap₂}
use mathlib.Core.Bool.{Bool, true, false, not, ◌&&◌}
use mathlib.Core.List.{List, [], ◌∷◌}
use native.Mathlib.Omega.{arith}
use discnet.Common.Tests.{◌==◌, ==_refl}

-- A test for equality that is right.
pub record IsEquality {ℓ} {A : Type ℓ} (eq : A → A → Bool) : Type ℓ where
  pub reflexive : (a : A) → eq a a ≡ true
  pub sound : (a b : A) → eq a b ≡ true → a ≡ b

pub both_true : (a b : Bool) → (a && b) ≡ true → (a ≡ true) × (b ≡ true)
both_true true b h = (refl, h)
both_true false b h = cc h

-- `operator==` of Booleans, of pairs and of sequences.
unfoldable pub equal_bool : Bool → Bool → Bool
equal_bool true b = b
equal_bool false b = not b

unfoldable pub equal_pair {ℓ κ} :
    {A : Type ℓ} {B : Type κ} → (A → A → Bool) → (B → B → Bool) → A × B → A × B → Bool
equal_pair eq eq' (a, b) (c, d) = eq a c && eq' b d

unfoldable pub equal_list {ℓ} : {A : Type ℓ} → (A → A → Bool) → List A → List A → Bool
equal_list eq [] [] = true
equal_list eq [] (y ∷ ys) = false
equal_list eq (x ∷ xs) [] = false
equal_list eq (x ∷ xs) (y ∷ ys) = eq x y && equal_list eq xs ys

pub ==-IsEquality : IsEquality (◌==◌)
==-IsEquality = record { reflexive = ==_refl; sound = λ a b h. ground arith }

pub equal_bool-IsEquality : IsEquality equal_bool
unfolding equal_bool
equal_bool-IsEquality = record { reflexive = reflexive; sound = sound }
  where
    reflexive : (a : Bool) → equal_bool a a ≡ true
    reflexive true = refl
    reflexive false = refl

    sound : (a b : Bool) → equal_bool a b ≡ true → a ≡ b
    sound true true h = refl
    sound true false h = cc h
    sound false true h = cc h
    sound false false h = refl

module _ {ℓ} {A : Type ℓ} (eq : A → A → Bool) (laws : IsEquality eq) where
  pub equal_list-IsEquality : IsEquality (equal_list eq)
  unfolding equal_list
  equal_list-IsEquality = record { reflexive = reflexive; sound = sound }
    where
      reflexive : (xs : List A) → equal_list eq xs xs ≡ true
      reflexive [] = refl
      reflexive (x ∷ xs) = rw (laws.reflexive x, reflexive xs) refl

      sound : (xs ys : List A) → equal_list eq xs ys ≡ true → xs ≡ ys
      sound [] [] h = refl
      sound [] (y ∷ ys) h = cc h
      sound (x ∷ xs) [] h = cc h
      sound (x ∷ xs) (y ∷ ys) h =
          let (first, rest) = both_true (eq x y) _ h in
          ap₂ (◌∷◌) (laws.sound x y first) (sound xs ys rest)

module _ {ℓ κ} {A : Type ℓ} {B : Type κ} (eq : A → A → Bool) (eq' : B → B → Bool)
    (laws : IsEquality eq) (laws' : IsEquality eq') where
  pub equal_pair-IsEquality : IsEquality (equal_pair eq eq')
  unfolding equal_pair
  equal_pair-IsEquality = record {
    reflexive = λ p. rw (laws.reflexive p.0, laws'.reflexive p.1) refl;
    sound = λ p q h.
        let (first, second) = both_true (eq p.0 q.0) _ h in
        ap₂ (λ a b. (a, b)) (laws.sound p.0 q.0 first) (laws'.sound p.1 q.1 second);
  }
