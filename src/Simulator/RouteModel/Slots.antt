-- ===== src/Simulator/RouteModel/Slots.antt =====
-- node.cpp and models/RouteModel.cpp: the rows of the table behind the signals.
use discnet.Common.{
  ◌≡◌, ◌≢◌, refl, ap, subst, ◌∙◌, inl, inr, Bool-cases, List, [], ◌∷◌, ◌++◌, All, none, some,
}
use discnet.Routes.{RouteIdentifier, Route, same_route, same_route-IsEquality}
use discnet.Routes.Manager.{Signal, new_route, online_state_changed, AdapterRoutes, find_route}
use discnet.Routes.Manager.Unique.{Unique}
use discnet.Routes.Manager.Processing.{find_route-new, find_route-old}
use discnet.Simulator.RouteModel.{RouteModel, update}
use discnet.Simulator.RouteModel.Rows.{update_cases, update-Unique}
use discnet.Simulator.RouteModel.Connection.{route_changed, slot, slots}

-- A row has the identifier.
pub Has : RouteIdentifier → List Route → Type 0
Has id rows = (row : Route) × (find_route id rows ≡ some row)

absent-find_route :
    (id : RouteIdentifier) (rows : List Route)
    → All (λ r. r.identifier ≢ id) rows
    → find_route id rows ≡ none
unfolding find_route
absent-find_route id [] all = refl
absent-find_route id (r ∷ rows) (this, others) = elim (Bool-cases (same_route r.identifier id)) [
  | inl same ↦ absurd (this (same_route-IsEquality.sound r.identifier id same))
  | inr other ↦ rw other (absent-find_route id rows others)
]

update-entered :
    (entry : Route) (m : RouteModel)
    → find_route entry.identifier (update entry m).rows ≡ some entry
update-entered entry m = elim (update_cases entry m) [
  | inl (all, added) ↦
      ap (find_route entry.identifier) added
      ∙ find_route-new entry.identifier entry m.rows (absent-find_route _ m.rows all) refl
  | inr replaces ↦ replaces.entered
]

update-Has :
    (entry : Route) (m : RouteModel) (id : RouteIdentifier)
    → Has id m.rows
    → Has id (update entry m).rows
unfolding Has
update-Has entry m id (row, found) = elim (update_cases entry m) [
  | inl (all, added) ↦ (row, ap (find_route id) added ∙ find_route-old id entry row m.rows found)
  | inr replaces ↦ elim (Bool-cases (same_route entry.identifier id)) [
    | inl same ↦ (
      entry,
      subst (λ i. find_route i (update entry m).rows ≡ some entry)
          (same_route-IsEquality.sound entry.identifier id same) replaces.entered,
    )
    | inr other ↦ (row, replaces.others id other ∙ found)
  ]
]

-- Every route has a row.
abbrev pub AreShown : List Route → List Route → Type 0
AreShown rows = All (λ r. Has r.identifier rows)

abbrev pub Shown : List Route → AdapterRoutes → Type 0
Shown rows = All (λ e. AreShown rows e.1)

slot-Has :
    (e : Signal) (m : RouteModel) (id : RouteIdentifier) → Has id m.rows → Has id (slot e m).rows
unfolding slot route_changed
slot-Has (new_route r) m id has = update-Has r m id has
slot-Has (online_state_changed r prev) m id has = update-Has r m id has

slots-Has :
    (es : List Signal) (m : RouteModel) (id : RouteIdentifier)
    → Has id m.rows
    → Has id (slots es m).rows
unfolding slots
slots-Has [] m id has = has
slots-Has (e ∷ es) m id has = slots-Has es (slot e m) id (slot-Has e m id has)

slot-Unique : (e : Signal) (m : RouteModel) → Unique m.rows → Unique (slot e m).rows
unfolding slot route_changed
slot-Unique (new_route r) m unique = update-Unique r m unique
slot-Unique (online_state_changed r prev) m unique = update-Unique r m unique

pub slots-Unique : (es : List Signal) (m : RouteModel) → Unique m.rows → Unique (slots es m).rows
unfolding slots
slots-Unique [] m unique = unique
slots-Unique (e ∷ es) m unique = slots-Unique es (slot e m) (slot-Unique e m unique)

pub slots-append :
    (es sent : List Signal) (m : RouteModel) → slots (es ++ sent) m ≡ slots sent (slots es m)
unfolding slots
slots-append [] sent m = refl
slots-append (e ∷ es) sent m = slots-append es sent (slot e m)

slots-AreShown :
    (es : List Signal) (m : RouteModel) (rs : List Route)
    → AreShown m.rows rs
    → AreShown (slots es m).rows rs
slots-AreShown es m [] shown = tt
slots-AreShown es m (r ∷ rs) (this, others) =
    (slots-Has es m r.identifier this, slots-AreShown es m rs others)

pub slots-Shown :
    (es : List Signal) (m : RouteModel) (a : AdapterRoutes)
    → Shown m.rows a
    → Shown (slots es m).rows a
slots-Shown es m [] shown = tt
slots-Shown es m ((guid, rs) ∷ a) (this, others) =
    (slots-AreShown es m rs this, slots-Shown es m a others)

-- A new route has its row behind the signal.
pub new_route-Has :
    (r : Route) (m : RouteModel) → Has r.identifier (slots (new_route r ∷ []) m).rows
unfolding slots slot route_changed Has
new_route-Has r m = (r, update-entered r m)
