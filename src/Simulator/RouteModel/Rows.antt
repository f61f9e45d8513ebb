-- ===== src/Simulator/RouteModel/Rows.antt =====
-- The rows of discnet_sim/src/models/RouteModel.cpp under updates.
use discnet.Common.{
  ℕ, ◌+◌, ◌≡◌, ◌≢◌, ◌⊎◌, inl, inr, refl, ap, sym, subst, ◌∙◌, Bool, true, false, Bool-cases,
  if◌then◌else◌, List, [], ◌∷◌, ◌++◌, All, Option, none, some,
}
use mathlib.Core.Option
use discnet.Routes.{RouteIdentifier, Route, same_route, same_route-IsEquality}
use discnet.Routes.Manager.{find_route}
use discnet.Routes.Manager.Unique.{Unique, Unique-snoc}
use discnet.Simulator.RouteModel.{RouteModel, update_loop, updated, update}

-- The first route of the identifier is replaced where it stands, and the other rows stay as they are.
pub record IsReplaced (entry : Route) (rows after : List Route) : Type 0 where
  pub earlier : List Route
  pub existing : Route
  pub later : List Route
  pub split : rows ≡ earlier ++ (existing ∷ later)
  pub others_before : All (λ r. r.identifier ≢ entry.identifier) earlier
  pub same_identifier : existing.identifier ≡ entry.identifier
  pub replaced : after ≡ earlier ++ (entry ∷ later)
  pub entered : find_route entry.identifier after ≡ some entry
  pub others :
      (id : RouteIdentifier)
      → same_route entry.identifier id ≡ false
      → find_route id after ≡ find_route id rows
  pub identifiers :
      (id : RouteIdentifier)
      → All (λ r. r.identifier ≢ id) rows
      → All (λ r. r.identifier ≢ id) after
  pub unique : Unique rows → Unique after

update_loop_cases :
    (entry : Route) (i : ℕ) (rows : List Route)
    → ((update_loop entry i rows ≡ none) × All (λ r. r.identifier ≢ entry.identifier) rows)
      ⊎ ((j : ℕ) × (after : List Route) × (update_loop entry i rows ≡ some (j, after))
          × IsReplaced entry rows after)
unfolding update_loop find_route
update_loop_cases entry i [] = inl (refl, tt)
update_loop_cases entry i (r ∷ rows) =
    elim (Bool-cases (same_route r.identifier entry.identifier)) [
      | inl same ↦ inr (i, entry ∷ rows, ap choose same, this_IsReplaced same)
      | inr other ↦ elim (update_loop_cases entry (i + 1) rows) [
        | inl (absent, all) ↦
            inl (ap choose other ∙ ap (Option.map behind) absent, (different other, all))
        | inr (j, after, found, replaces) ↦ inr (
          j,
          r ∷ after,
          ap choose other ∙ ap (Option.map behind) found,
          behind-IsReplaced other after replaces,
        )
      ]
    ]
  where
    behind : ℕ × List Route → ℕ × List Route
    behind p = (p.0, r ∷ p.1)

    choose : Bool → Option (ℕ × List Route)
    choose b =
        if b then some (i, entry ∷ rows) else Option.map behind (update_loop entry (i + 1) rows)

    different : same_route r.identifier entry.identifier ≡ false → r.identifier ≢ entry.identifier
    different other e = absurd (
        cc (
          sym other
          ∙ ap (λ j. same_route j entry.identifier) e
          ∙ same_route-IsEquality.reflexive entry.identifier))

    this_IsReplaced :
        same_route r.identifier entry.identifier ≡ true → IsReplaced entry (r ∷ rows) (entry ∷ rows)
    this_IsReplaced same =
        let own = same_route-IsEquality.sound r.identifier entry.identifier same in
        record {
          earlier = [];
          existing = r;
          later = rows;
          split = refl;
          others_before = tt;
          same_identifier = own;
          replaced = refl;
          entered =
              ap (λ (b : Bool). if b then some entry else find_route entry.identifier rows)
                (same_route-IsEquality.reflexive entry.identifier);
          others = λ id other.
              ap (λ (b : Bool). if b then some entry else find_route id rows) other
              ∙ sym (
                  ap (λ j. if same_route j id then some r else find_route id rows) own
                  ∙ ap (λ (b : Bool). if b then some r else find_route id rows) other);
          identifiers = λ id all. ((λ e. all.0 (own ∙ e)), all.1);
          unique = λ all. (subst (λ j. All (λ s. s.identifier ≢ j) rows) own all.0, all.1);
        }

    behind-IsReplaced :
        same_route r.identifier entry.identifier ≡ false
        → (after : List Route) → IsReplaced entry rows after
        → IsReplaced entry (r ∷ rows) (r ∷ after)
    behind-IsReplaced other after replaces = record {
      earlier = r ∷ replaces.earlier;
      existing = replaces.existing;
      later = replaces.later;
      split = ap (λ l. r ∷ l) replaces.split;
      others_before = (different other, replaces.others_before);
      same_identifier = replaces.same_identifier;
      replaced = ap (λ l. r ∷ l) replaces.replaced;
      entered =
          ap (λ (b : Bool). if b then some r else find_route entry.identifier after) other
          ∙ replaces.entered;
      others =
          λ id e. ap (λ o. if same_route r.identifier id then some r else o) (replaces.others id e);
      identifiers = λ id all. (all.0, replaces.identifiers id all.1);
      unique = λ all. (replaces.identifiers r.identifier all.0, replaces.unique all.1);
    }

-- An update of the table on both branches. Either no row has the route's identifier, and the route
-- becomes a new last row; or the first row that has it becomes the route, at its place, and the rows
-- before and behind it stay as they are. Then every other identifier finds what it found, and rows of
-- different identifiers stay so.
pub update_cases :
    (entry : Route) (m : RouteModel)
    → (All (λ r. r.identifier ≢ entry.identifier) m.rows
        × ((update entry m).rows ≡ m.rows ++ (entry ∷ [])))
      ⊎ IsReplaced entry m.rows (update entry m).rows
unfolding update updated
update_cases entry m = elim (update_loop_cases entry 0 m.rows) [
  | inl (absent, all) ↦ inl (all, rw absent refl)
  | inr (j, after, found, replaces) ↦ inr (rw found replaces)
]

pub update-Unique : (entry : Route) (m : RouteModel) → Unique m.rows → Unique (update entry m).rows
update-Unique entry m unique = elim (update_cases entry m) [
  | inl (all, added) ↦ subst Unique (sym added) (Unique-snoc entry m.rows unique all)
  | inr replaces ↦ replaces.unique unique
]
