-- ===== src/Routes/Manager/Online.antt =====
-- What `route_manager::update` does with the state of the routes.
use discnet.Common.{
  ℕ, ◌≡◌, refl, sym, ap, ◌∙◌, Bool, true, false, List, [], ◌∷◌, ◌++◌, append-nil, All, ◌-◌, ◌*◌,
  ◌<◌, ◌⊎◌, ◌↔◌, inl, inr, Bool-cases, arith,
}
use discnet.Routes.{Route, is_route_online}
use discnet.Routes.Manager.{
  AdapterRoutes, RouteManager, set_online, change_state, update_route, update_routes,
  update_adapters, update,
}

-- A route whose flag agrees with its age.
abbrev IsCurrent : ℕ → ℕ → Route → Type 0
IsCurrent second now r = r.status.online ≡ is_route_online second r now

abbrev AllCurrent : ℕ → ℕ → AdapterRoutes → Type 0
AllCurrent second now = All (λ e. All (IsCurrent second now) e.1)

change_state-online :
    (on was : Bool) (r : Route)
    → r.status.online ≡ was
    → (change_state on was r).0.status.online ≡ on
unfolding change_state set_online
change_state-online true true r e = e
change_state-online true false r e = refl
change_state-online false true r e = refl
change_state-online false false r e = e

change_state-age :
    (second now : ℕ) (on was : Bool) (r : Route)
    → is_route_online second (change_state on was r).0 now ≡ is_route_online second r now
unfolding is_route_online change_state set_online
change_state-age second now true true r = refl
change_state-age second now true false r = refl
change_state-age second now false true r = refl
change_state-age second now false false r = refl

change_state-stable : (on was : Bool) (r : Route) → was ≡ on → change_state on was r ≡ (r, [])
unfolding change_state
change_state-stable true true r e = refl
change_state-stable true false r e = absurd (cc e)
change_state-stable false true r e = absurd (cc e)
change_state-stable false false r e = refl

update_route-IsCurrent :
    (second now : ℕ) (r : Route) → IsCurrent second now (update_route second now r).0
unfolding update_route
update_route-IsCurrent second now r =
    change_state-online (is_route_online second r now) r.status.online r refl
    ∙ sym (change_state-age second now (is_route_online second r now) r.status.online r)

update_route-stable :
    (second now : ℕ) (r : Route) → IsCurrent second now r → update_route second now r ≡ (r, [])
unfolding update_route
update_route-stable second now r current =
    change_state-stable (is_route_online second r now) r.status.online r current

update_routes-IsCurrent :
    (second now : ℕ) (rs : List Route) → All (IsCurrent second now) (update_routes second now rs).0
unfolding update_routes
update_routes-IsCurrent second now [] = tt
update_routes-IsCurrent second now (r ∷ rs) =
    (update_route-IsCurrent second now r, update_routes-IsCurrent second now rs)

update_adapters-AllCurrent :
    (second now : ℕ) (m : AdapterRoutes) → AllCurrent second now (update_adapters second now m).0
unfolding update_adapters
update_adapters-AllCurrent second now [] = tt
update_adapters-AllCurrent second now ((guid, rs) ∷ m) =
    (update_routes-IsCurrent second now rs, update_adapters-AllCurrent second now m)

update_routes-stable :
    (second now : ℕ) (rs : List Route)
    → All (IsCurrent second now) rs
    → update_routes second now rs ≡ (rs, [])
unfolding update_routes
update_routes-stable second now [] h = refl
update_routes-stable second now (r ∷ rs) (current, others) =
    rw (update_route-stable second now r current, update_routes-stable second now rs others) refl

update_adapters-stable :
    (second now : ℕ) (m : AdapterRoutes)
    → AllCurrent second now m
    → update_adapters second now m ≡ (m, [])
unfolding update_adapters
update_adapters-stable second now [] h = refl
update_adapters-stable second now ((guid, rs) ∷ m) (current, others) =
    rw (update_routes-stable second now rs current, update_adapters-stable second now m others) refl

update-AllCurrent :
    (second now : ℕ) (m : RouteManager) → AllCurrent second now (update second now m).adapter_routes
unfolding update
update-AllCurrent second now m = update_adapters-AllCurrent second now m.adapter_routes

-- A persistent route is online, and any other one if it was discovered or sent data within the last
-- 90 seconds.
abbrev pub IsAlive : ℕ → ℕ → Route → Type 0
IsAlive second now r =
    (r.status.persistent ≡ true)
    ⊎ ((now - 90 * second < r.last_discovery) ⊎ (now - 90 * second < r.last_data_message))

abbrev pub AllMarked : ℕ → ℕ → AdapterRoutes → Type 0
AllMarked second now = All (λ e. All (λ r. (r.status.online ≡ true) ↔ IsAlive second now r) e.1)

is_route_online_iff :
    (second now : ℕ) (r : Route) → (is_route_online second r now ≡ true) ↔ IsAlive second now r
unfolding is_route_online
is_route_online_iff second now r = elim (Bool-cases r.status.persistent) [
  | inl kept ↦ rw kept ((λ e. inl refl), (λ alive. refl))
  | inr aging ↦ rw aging (ground arith)
]

routes-AllMarked :
    (second now : ℕ) (rs : List Route)
    → All (IsCurrent second now) rs
    → All (λ r. (r.status.online ≡ true) ↔ IsAlive second now r) rs
routes-AllMarked second now [] all = tt
routes-AllMarked second now (r ∷ rs) (this, others) = (
  (
    (λ e. (is_route_online_iff second now r).0 (sym this ∙ e)),
    (λ alive. this ∙ (is_route_online_iff second now r).1 alive),
  ),
  routes-AllMarked second now rs others,
)

adapters-AllMarked :
    (second now : ℕ) (m : AdapterRoutes) → AllCurrent second now m → AllMarked second now m
adapters-AllMarked second now [] all = tt
adapters-AllMarked second now ((guid, rs) ∷ m) (this, others) =
    (routes-AllMarked second now rs this, adapters-AllMarked second now m others)

-- After an update every route is marked online exactly when it is persistent, or its last discovery
-- or its last data message is later than 90 seconds before the time of the update; where that would
-- be before the first time of the clock, the first time is taken.
pub update-AllMarked :
    (second now : ℕ) (m : RouteManager) → AllMarked second now (update second now m).adapter_routes
update-AllMarked second now m = adapters-AllMarked second now _ (update-AllCurrent second now m)

-- A second update at the same time changes nothing and sends no signal.
pub update-update :
    (second now : ℕ) (m : RouteManager)
    → update second now (update second now m) ≡ update second now m
unfolding update
update-update second now m = λ i. record {
  adapter_routes = (again i).0;
  signals = (ap (λ s. (update second now m).signals ++ s) (ap (λ r. r.1) again) ∙ append-nil _) i;
}
  where
    again :
        update_adapters second now (update second now m).adapter_routes
        ≡ ((update second now m).adapter_routes, [])
    again =
        update_adapters-stable second now _ (update_adapters-AllCurrent second now m.adapter_routes)
