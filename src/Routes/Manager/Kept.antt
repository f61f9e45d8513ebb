-- ===== src/Routes/Manager/Kept.antt =====
-- route_manager.cpp: the update keeps the identifiers of the routes.
use discnet.Common.{ℕ, ◌≡◌, ◌≢◌, refl, sym, ◌∙◌, Bool, true, false, List, [], ◌∷◌, All}
use discnet.Routes.{RouteIdentifier, Route}
use discnet.Routes.Manager.{
  AdapterRoutes, RouteManager, set_online, change_state, update_route, update_routes,
  update_adapters, update,
}
use discnet.Routes.Manager.Unique.{Unique, AllUnique}

change_state-identifier :
    (on was : Bool) (r : Route) → (change_state on was r).0.identifier ≡ r.identifier
unfolding change_state set_online
change_state-identifier true true r = refl
change_state-identifier true false r = refl
change_state-identifier false true r = refl
change_state-identifier false false r = refl

pub update_route-identifier :
    (second now : ℕ) (r : Route) → (update_route second now r).0.identifier ≡ r.identifier
unfolding update_route
update_route-identifier second now r = change_state-identifier _ r.status.online r

update_routes-All :
    (second now : ℕ) (id : RouteIdentifier) (rs : List Route)
    → All (λ r. r.identifier ≢ id) rs
    → All (λ r. r.identifier ≢ id) (update_routes second now rs).0
unfolding update_routes
update_routes-All second now id [] all = tt
update_routes-All second now id (r ∷ rs) (this, others) = (
  λ e. this (sym (update_route-identifier second now r) ∙ e),
  update_routes-All second now id rs others,
)

update_routes-Unique :
    (second now : ℕ) (rs : List Route) → Unique rs → Unique (update_routes second now rs).0
unfolding update_routes
update_routes-Unique second now [] unique = tt
update_routes-Unique second now (r ∷ rs) (this, others) = (
  rw (update_route-identifier second now r) (update_routes-All second now r.identifier rs this),
  update_routes-Unique second now rs others,
)

update_adapters-AllUnique :
    (second now : ℕ) (m : AdapterRoutes) → AllUnique m → AllUnique (update_adapters second now m).0
unfolding update_adapters
update_adapters-AllUnique second now [] unique = tt
update_adapters-AllUnique second now ((guid, rs) ∷ m) (this, others) =
    (update_routes-Unique second now rs this, update_adapters-AllUnique second now m others)

-- An update keeps the identifiers of the routes of every adapter different.
pub update-AllUnique :
    (second now : ℕ) (m : RouteManager)
    → AllUnique m.adapter_routes
    → AllUnique (update second now m).adapter_routes
unfolding update
update-AllUnique second now m unique = update_adapters-AllUnique second now m.adapter_routes unique
