-- ===== src/Simulator/RouteModel/Tests.antt =====
-- A table of two routes.
use discnet.Common.{ℕ, ◌≡◌, ◌≢◌, ◌⊎◌, refl, true, false, [], ◌∷◌, ◌++◌, All, List}
use discnet.Adapters.{Adapter}
use discnet.Routes.{Route}
use discnet.Simulator.RouteModel.{
  cell, column, get_row, RouteModel, of_number, invalid, tool_tip_role, data_at, update,
}
use discnet.Simulator.RouteModel.Rows.{IsReplaced, update_cases}
use discnet.Simulator.RouteModel.Connection.{Call, received, updated_at, new_manager, run}
use discnet.Simulator.RouteModel.Listed.{IsListed, run-IsListed}

abbrev route_over : ℕ → ℕ → Route
route_over adapter time = record {
  identifier = record {
    node = record { id = 1010; address = 3232238091 };
    adapter = adapter;
    reporter = 3232238091;
  };
  last_discovery = time;
  last_data_message = 0;
  status = record { online = true; persistent = false; silent = false; jumps = 512 ∷ []; mtu = 0 };
}

abbrev two_routes : RouteModel
two_routes = record { rows = route_over 1 5 ∷ route_over 2 6 ∷ []; signals = [] }

one_jump : data_at 1 2 tool_tip_role two_routes ≡ of_number 1
unfolding data_at get_row cell column
one_jump = refl

no_row : data_at 2 0 tool_tip_role two_routes ≡ invalid
unfolding data_at get_row cell
no_row = refl

update_cases_example :
    (All (λ r. r.identifier ≢ (route_over 2 9).identifier) two_routes.rows
      × ((update (route_over 2 9) two_routes).rows ≡ two_routes.rows ++ (route_over 2 9 ∷ [])))
    ⊎ IsReplaced (route_over 2 9) two_routes.rows (update (route_over 2 9) two_routes).rows
update_cases_example = update_cases (route_over 2 9) two_routes

-- A node announces itself and another one, and is silent from then on.
abbrev calls : List Call
calls =
    received (record { adapters = ([], adapter) ∷ []; signals = [] })
      (record {
        identifier = 1011;
        nodes = record { identifier = 1012; address = 9; jumps = 256 ∷ [] } ∷ [];
      })
      (record { adapter = 1; sender = 8; receiver = 7; reception_time = 5 })
    ∷ updated_at 500
    ∷ []
  where
    adapter : Adapter
    adapter = record {
      guid = 65 ∷ [];
      mac_address = [];
      index = 1;
      name = [];
      description = [];
      loopback = false;
      enabled = true;
      address_list = (1, 255) ∷ [];
      gateway = 0;
      mtu = 1500;
    }

run-IsListed_example : IsListed (run 1 calls new_manager)
run-IsListed_example = run-IsListed 1 calls
