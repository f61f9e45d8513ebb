-- ===== src/Simulator/RouteModel.antt =====
-- discnet_sim/src/models/RouteModel.cpp: the table of the routes of a simulated node.
pub mod Connection
pub mod Rows
pub mod Slots
pub mod Listed
mod Tests
use discnet.Common.{
  ℕ, zero, suc, ◌+◌, ◌==◌, Bool, false, if◌then◌else◌, List, [], ◌∷◌, ◌++◌, Option, none, some,
  length,
}
use mathlib.Core.Option
use discnet.Routes.{RouteIdentifier, Route, same_route}

-- The roles and the orientation of Qt, as far as the source tells them apart.
pub data Role : Type 0 where
  display_role edit_role tool_tip_role other_role : Role

pub data Orientation : Type 0 where
  horizontal vertical : Orientation

-- The titles of the columns.
pub data Title : Type 0 where
  node_id online links time : Title

-- A `QVariant`: a title, the text of an identifier, a flag, a number, the text of a time, or
-- nothing.
pub data Variant : Type 0 where
  of_title : Title → Variant
  of_identifier : RouteIdentifier → Variant
  of_flag : Bool → Variant
  of_number : ℕ → Variant
  of_time : ℕ → Variant
  invalid : Variant

unfoldable pub title : ℕ → Variant
title section =
    if section == 0
    then of_title node_id
    else if section == 1
    then of_title online
    else if section == 2
    then of_title links
    else if section == 3
    then of_title time
    else invalid

unfoldable pub header_data : ℕ → Orientation → Role → Variant
header_data section horizontal display_role = title section
header_data section horizontal edit_role = invalid
header_data section horizontal tool_tip_role = invalid
header_data section horizontal other_role = invalid
header_data section vertical role = invalid

-- The signals of the model: `dataChanged` of a row, and a row that is inserted.
pub data ModelSignal : Type 0 where
  data_changed rows_inserted : ℕ → ModelSignal

-- `m_data`, and the signals so far.
pub record RouteModel : Type 0 where
  pub rows : List Route
  pub signals : List ModelSignal

unfoldable pub row_count : RouteModel → ℕ
row_count m = length m.rows

abbrev pub column_count : ℕ
column_count = 4

unfoldable pub entries : RouteModel → List Route
entries m = m.rows

unfoldable pub column : Route → ℕ → Variant
column route c =
    if c == 0
    then of_identifier route.identifier
    else if c == 1
    then of_flag route.status.online
    else if c == 2
    then of_number (length route.status.jumps)
    else if c == 3
    then of_time route.last_discovery
    else invalid

-- `std::next` from the first row, where the row is there.
unfoldable pub get_row : ℕ → List Route → Option Route
get_row row [] = none
get_row zero (route ∷ rows) = some route
get_row (suc row) (route ∷ rows) = get_row row rows

unfoldable pub cell : Option Route → ℕ → Role → Variant
cell none c role = invalid
cell (some route) c display_role = column route c
cell (some route) c edit_role = column route c
cell (some route) c tool_tip_role = column route c
cell (some route) c other_role = invalid

unfoldable pub data_at : ℕ → ℕ → Role → RouteModel → Variant
data_at row c role m = cell (get_row row m.rows) c role

-- The loop of `update`, from the row `i` on: the first route of the identifier is replaced.
unfoldable pub update_loop : Route → ℕ → List Route → Option (ℕ × List Route)
update_loop entry i [] = none
update_loop entry i (existing ∷ rows) =
    let rest = Option.map (λ r. (r.0, existing ∷ r.1)) (update_loop entry (i + 1) rows) in
    if same_route existing.identifier entry.identifier then some (i, entry ∷ rows) else rest

unfoldable pub updated : Option (ℕ × List Route) → Route → RouteModel → RouteModel
updated (some (i, rows)) entry m = record {
  rows = rows;
  signals = m.signals ++ (data_changed i ∷ []);
}
updated none entry m = record {
  rows = m.rows ++ (entry ∷ []);
  signals = m.signals ++ (rows_inserted (row_count m) ∷ []);
}

unfoldable pub update : Route → RouteModel → RouteModel
update entry m = updated (update_loop entry 0 m.rows) entry m

unfoldable pub remove : RouteIdentifier → RouteModel → Bool × RouteModel
remove identifier m = (false, m)
