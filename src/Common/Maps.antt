-- ===== src/Common/Maps.antt =====
-- What looking a key up in an ordered map gives after each operation on the map. It models no code
-- of the repository.
use mathlib.Core.Path.{◌≡◌, refl, ap, subst, ◌∙◌}
use mathlib.Core.Option
use discnet.Common.Lists.{All}
use mathlib.Core.Logic.{inl, inr}
use mathlib.Core.Bool.{Bool, true, false, not, ◌&&◌}
use mathlib.Core.Option.{Option, none, some}
use mathlib.Core.List.{List, [], ◌∷◌}
use discnet.Common.Tests.{Bool-cases}
use discnet.Common.Keys.{IsOrder, equivalent, find, insert, insert_or_assign, erase_if}

&&_comm : (a b : Bool) → (a && b) ≡ (b && a)
&&_comm true true = refl
&&_comm true false = refl
&&_comm false true = refl
&&_comm false false = refl

&&_true : (a b : Bool) → (a && b) ≡ true → (a ≡ true) × (b ≡ true)
&&_true true b h = (refl, h)
&&_true false b h = cc h

false_of_not : (b : Bool) → not b ≡ true → b ≡ false
false_of_not true h = cc h
false_of_not false h = refl

module _ {ℓ} {K : Type ℓ} (less : K → K → Bool) (laws : IsOrder less) where
  pub equivalent_refl : (k : K) → equivalent less k k ≡ true
  unfolding equivalent
  equivalent_refl k = rw (laws.irreflexive k) refl

  equivalent_before : (j k : K) → less j k ≡ true → equivalent less j k ≡ false
  unfolding equivalent
  equivalent_before j k h = rw h refl

  equivalent-sym : (j k : K) → equivalent less j k ≡ equivalent less k j
  unfolding equivalent
  equivalent-sym j k = &&_comm (not (less j k)) (not (less k j))

  equivalent_after : (j k : K) → less k j ≡ true → equivalent less j k ≡ false
  equivalent_after j k h = equivalent-sym j k ∙ equivalent_before k j h

  -- Keys that no order tells apart are equal.
  pub equivalent→≡ : (j k : K) → equivalent less j k ≡ true → j ≡ k
  unfolding equivalent
  equivalent→≡ j k h =
      let (before, after) = &&_true (not (less j k)) _ h in
      laws.antisymmetric j k (false_of_not (less j k) before) (false_of_not (less k j) after)

module _ {ℓ κ} {K : Type ℓ} {V : Type κ} (less : K → K → Bool) (laws : IsOrder less) where
  -- An entry that is assigned is found.
  pub find-insert_or_assign :
      (k : K) (v : V) (m : List (K × V)) → find less k (insert_or_assign less k v m) ≡ some v
  unfolding find insert_or_assign
  find-insert_or_assign k v [] = rw (equivalent_refl less laws k) refl
  find-insert_or_assign k v ((j, w) ∷ m) = elim (Bool-cases (less j k)) [
    | inl before ↦
        rw before (rw (equivalent_before less laws j k before) (find-insert_or_assign k v m))
    | inr not_before ↦ elim (Bool-cases (less k j)) [
      | inl after ↦ rw not_before (rw after (rw (equivalent_refl less laws k) refl))
      | inr same ↦ rw not_before (
          rw same
            (rw (laws.antisymmetric j k not_before same) (rw (equivalent_refl less laws k) refl)))
    ]
  ]

  -- A key that is inserted is found, with the value that was there where one was.
  pub find-insert :
      (k : K) (v : V) (m : List (K × V)) → (w : V) × (find less k (insert less k v m) ≡ some w)
  unfolding find insert
  find-insert k v [] = (v, rw (equivalent_refl less laws k) refl)
  find-insert k v ((j, w) ∷ m) = elim (Bool-cases (less j k)) [
    | inl before ↦
        let (u, e) = find-insert k v m in
        rw before (u, rw (equivalent_before less laws j k before) e)
    | inr not_before ↦ elim (Bool-cases (less k j)) [
      | inl after ↦ rw not_before (rw after (v, rw (equivalent_refl less laws k) refl))
      | inr same ↦ rw not_before (
          rw same (
            w,
            rw (laws.antisymmetric j k not_before same) (rw (equivalent_refl less laws k) refl),
          ))
    ]
  ]

  -- The other keys are found as before.
  pub find-insert_or_assign_other :
      (i k : K) (v : V) (m : List (K × V))
      → equivalent less k i ≡ false
      → find less i (insert_or_assign less k v m) ≡ find less i m
  unfolding find insert_or_assign
  find-insert_or_assign_other i k v [] other = rw other refl
  find-insert_or_assign_other i k v ((j, w) ∷ m) other = elim (Bool-cases (less j k)) [
    | inl before ↦ rw before (rw (find-insert_or_assign_other i k v m other) refl)
    | inr not_before ↦ elim (Bool-cases (less k j)) [
      | inl after ↦ rw not_before (rw after (rw other refl))
      | inr same ↦
          let e = laws.antisymmetric j k not_before same in
          rw not_before (rw same (rw e (rw other refl)))
    ]
  ]

  -- An entry that is not there is inserted the way it is assigned.
  pub insert-absent :
      (k : K) (v : V) (m : List (K × V))
      → find less k m ≡ none
      → insert less k v m ≡ insert_or_assign less k v m
  unfolding find insert insert_or_assign
  insert-absent k v [] h = refl
  insert-absent k v ((j, w) ∷ m) h = elim (Bool-cases (less j k)) [
    | inl before ↦ rw before (
        ap (λ r. (j, w) ∷ r)
          (insert-absent k v m (rw (equivalent_before less laws j k before) at h)))
    | inr not_before ↦ elim (Bool-cases (less k j)) [
      | inl after ↦ rw not_before (rw after refl)
      | inr same ↦
          let e = laws.antisymmetric j k not_before same in
          let impossible = rw (e, equivalent_refl less laws k) at h in cc impossible
    ]
  ]

  -- A key whose entries are erased is not found.
  pub find-erase_if_gone :
      (gone : K → Bool) (k : K) (m : List (K × V))
      → gone k ≡ true
      → find less k (erase_if less gone m) ≡ none
  unfolding find erase_if
  find-erase_if_gone gone k [] h = refl
  find-erase_if_gone gone k ((j, w) ∷ m) h = elim (Bool-cases (gone j)) [
    | inl erased ↦ rw erased (find-erase_if_gone gone k m h)
    | inr kept ↦ elim (Bool-cases (equivalent less j k)) [
      | inl same ↦
          let impossible = rw (equivalent→≡ less laws j k same) at kept in cc (h, impossible)
      | inr other ↦ rw kept (rw other (find-erase_if_gone gone k m h))
    ]
  ]

  -- The other keys are found as before.
  pub find-erase_if_kept :
      (gone : K → Bool) (k : K) (m : List (K × V))
      → gone k ≡ false
      → find less k (erase_if less gone m) ≡ find less k m
  unfolding find erase_if
  find-erase_if_kept gone k [] h = refl
  find-erase_if_kept gone k ((j, w) ∷ m) h = elim (Bool-cases (gone j)) [
    | inl erased ↦ elim (Bool-cases (equivalent less j k)) [
      | inl same ↦
          let impossible = rw (equivalent→≡ less laws j k same) at erased in cc (h, impossible)
      | inr other ↦ rw erased (rw other (find-erase_if_kept gone k m h))
    ]
    | inr kept ↦ rw kept (rw (find-erase_if_kept gone k m h) refl)
  ]

module _ {ℓ κ} {K : Type ℓ} {V : Type κ} (less : K → K → Bool) where
  -- What holds of every value holds after an assignment, and holds of the values that are found.
  pub All-insert_or_assign {μ} :
      (P : V → Type μ) (k : K) (v : V) (m : List (K × V))
      → P v
      → All (λ e. P e.1) m
      → All (λ e. P e.1) (insert_or_assign less k v m)
  unfolding insert_or_assign
  All-insert_or_assign P k v [] h all = (h, tt)
  All-insert_or_assign P k v ((j, w) ∷ m) h (this, others) = elim (Bool-cases (less j k)) [
    | inl before ↦ rw before (this, All-insert_or_assign P k v m h others)
    | inr not_before ↦ elim (Bool-cases (less k j)) [
      | inl after ↦ rw not_before (rw after (h, (this, others)))
      | inr same ↦ rw not_before (rw same (h, others))
    ]
  ]

  pub All-find {μ} :
      (P : V → Type μ) (k : K) (v : V) (m : List (K × V))
      → All (λ e. P e.1) m
      → find less k m ≡ some v
      → P v
  unfolding find
  All-find P k v [] all e = absurd (cc e)
  All-find P k v ((j, w) ∷ m) (this, others) e = elim (Bool-cases (equivalent less j k)) [
    | inl same ↦ subst P (Option.some-injective w v (rw same at e)) this
    | inr other ↦ All-find P k v m others (rw other at e)
  ]
