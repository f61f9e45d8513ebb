-- ===== src/Routes.antt =====
-- route.hpp and route.cpp: a route to a node, over an adapter and as a reporter told it.
pub mod Manager
use discnet.Common.{
  ℕ, ◌+◌, ◌*◌, ◌-◌, ◌≡◌, ◌==◌, ltb, Bool, true, false, ◌&&◌, ◌||◌, if◌then◌else◌, List, [], ◌∷◌,
  IsEquality, ==-IsEquality, both_true, refl,
}

-- `node_identifier_t`.
pub record NodeIdentifier : Type 0 where
  pub id : ℕ
  pub address : ℕ

pub record RouteIdentifier : Type 0 where
  pub node : NodeIdentifier
  pub adapter : ℕ
  pub reporter : ℕ

pub record RouteStatus : Type 0 where
  pub online : Bool
  pub persistent : Bool
  pub silent : Bool
  pub jumps : List ℕ
  pub mtu : ℕ

-- A time point is its distance from `time_point_t::min()`, that is 0, in ticks of the clock.
pub record Route : Type 0 where
  pub identifier : RouteIdentifier
  pub last_discovery : ℕ
  pub last_data_message : ℕ
  pub status : RouteStatus

pub record PersistentRoute : Type 0 where
  pub identifier : RouteIdentifier
  pub gateway : ℕ
  pub metric : ℕ
  pub enabled : Bool

-- `operator==` of the two identifiers.
unfoldable pub same_node : NodeIdentifier → NodeIdentifier → Bool
same_node a b = (a.id == b.id) && (a.address == b.address)

unfoldable pub same_route : RouteIdentifier → RouteIdentifier → Bool
same_route a b = same_node a.node b.node && (a.adapter == b.adapter) && (a.reporter == b.reporter)

-- `std::accumulate` over the jumps, from 0; the sum of the `uint16_t` stays far below 2 ^ 31.
unfoldable pub accumulate : List ℕ → ℕ → ℕ
accumulate [] total = total
accumulate (j ∷ js) total = accumulate js (total + j)

unfoldable pub is_shorter_route : Route → Route → Bool
is_shorter_route lhs rhs = ltb (accumulate lhs.status.jumps 0) (accumulate rhs.status.jumps 0)

-- `second` is the number of ticks in a second. The source's clock is never within 90 seconds of
-- `min()`, so that the subtraction does not stop at 0.
unfoldable pub is_route_online : ℕ → Route → ℕ → Bool
is_route_online second route current_time =
    let timeout_limit = current_time - 90 * second in
    if route.status.persistent
    then true
    else if ltb timeout_limit route.last_discovery || ltb timeout_limit route.last_data_message
    then true
    else false

unfoldable pub is_direct_node : RouteIdentifier → Bool
is_direct_node route = if route.node.address == route.reporter then true else false

unfoldable pub contains : List RouteIdentifier → RouteIdentifier → Bool
contains [] val = false
contains (route ∷ routes) val =
    let rest = contains routes val in
    if (route.node.id == val.node.id) && (route.node.address == val.node.address)
    then (if (route.adapter == val.adapter) && (route.reporter == val.reporter) then true else rest)
    else rest

pub same_route-IsEquality : IsEquality same_route
unfolding same_route same_node
same_route-IsEquality = record { reflexive = reflexive; sound = sound }
  where
    reflexive : (a : RouteIdentifier) → same_route a a ≡ true
    reflexive a =
        rw
          (
            ==-IsEquality.reflexive a.node.id,
            ==-IsEquality.reflexive a.node.address,
            ==-IsEquality.reflexive a.adapter,
            ==-IsEquality.reflexive a.reporter,
          )
          refl

    sound : (a b : RouteIdentifier) → same_route a b ≡ true → a ≡ b
    sound a b h =
        let (h1, reporter) = both_true _ (a.reporter == b.reporter) h in
        let (node, adapter) = both_true (same_node a.node b.node) _ h1 in
        let (id, address) = both_true (a.node.id == b.node.id) _ node in
        λ i. record {
          node = record {
            id = ==-IsEquality.sound _ _ id i;
            address = ==-IsEquality.sound _ _ address i;
          };
          adapter = ==-IsEquality.sound _ _ adapter i;
          reporter = ==-IsEquality.sound _ _ reporter i;
        }
