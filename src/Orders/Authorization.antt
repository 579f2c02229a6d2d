-- ===== src/Orders/Authorization.antt =====
-- Who may do what to an order, and what a refused request leaves behind.
use food_delivery_system.Base.{
  ℕ, ◌≡◌, Bool, not, Option, none, some, Result, ok, err, Session, find, ◌==◌, ◌||◌, if◌then◌else◌,
  arith,
}
use food_delivery_system.Shared.Identity.{Identity, is_admin}
use food_delivery_system.Orders.Models.{
  OrderStatus, restaurant_accepted, rejected, Reason, Order, RestaurantSnapshot, OrdersDb,
}
use food_delivery_system.Orders.StateMachine.{allowed, is_pre_prep}
use food_delivery_system.Orders.Store.{
  Entity, AppException, illegal_transition, cancel_not_allowed, not_found, forbidden_restaurant,
  forbidden_order, Call, order_key, restaurant_key,
}
use food_delivery_system.Orders.Actions.{manages}
use food_delivery_system.Orders.Lifecycle.{
  get_order_for_user, cancel_as_read, cancel_by_customer, accept_by_restaurant,
  reject_by_restaurant, advance_status, may_manage,
}

-- Why a restaurant's request on an order is refused, in the order of the checks: 404 before 403, and
-- both before the state machine.
abbrev pub refusal_of :
    Identity → OrderStatus → Order → Option RestaurantSnapshot → Option AppException
refusal_of user to o none = some (not_found Entity.restaurant o.restaurant_id)
refusal_of user to o (some r) =
    if not (manages user r)
    then some forbidden_restaurant
    else if allowed o.status to
    then none
    else some (illegal_transition o.status to)

abbrev pub Refused :
    {A : Type 0}
    → Session OrdersDb Call
    → AppException
    → Result AppException A × Session OrdersDb Call
    → Type 0
Refused s e r = (r.0 ≡ err e) × (r.1 ≡ s)

-- Who may read an order: its customer, an admin, and the owner of its restaurant.
abbrev pub may_read : Identity → Order → Option RestaurantSnapshot → Bool
may_read user o r = user.user_id == o.customer_id || is_admin user.role || may_manage user r

-- Who may cancel it as its customer, or why not.
abbrev pub cancel_refusal : Identity → Order → Option RestaurantSnapshot → Option AppException
cancel_refusal user o r =
    if not (may_read user o r)
    then some forbidden_order
    else if is_pre_prep o.status
    then none
    else some cancel_not_allowed

module _ (user : Identity) (id : ℕ) (s : Session OrdersDb Call) (o : Order)
    (found : find order_key id s.current.orders ≡ some o) where
  abbrev house : Option RestaurantSnapshot
  house = find restaurant_key o.restaurant_id s.current.restaurants

  -- A restaurant's acceptance of an order that is there is refused with a 404 if its restaurant is
  -- unknown, a 403 if the caller neither owns it nor is an admin, and an illegal transition if the
  -- state machine has none, in this order; a refused request writes and commits nothing.
  pub accept_by_restaurant-Refused :
      (e : AppException)
      → refusal_of user restaurant_accepted o house ≡ some e
      → Refused s e (accept_by_restaurant user id s)
  unfolding accept_by_restaurant
  accept_by_restaurant-Refused e h = ground arith

  -- A restaurant's rejection of an order that is there is refused for the same reasons, and then
  -- writes nothing, commits nothing and releases no stock.
  pub reject_by_restaurant-Refused :
      (reason : Option Reason) (e : AppException)
      → refusal_of user rejected o house ≡ some e
      → Refused s e (reject_by_restaurant user id reason s)
  unfolding reject_by_restaurant
  reject_by_restaurant-Refused reason e h = ground arith

  -- A restaurant's change of the status of an order that is there, to whatever status, is refused for
  -- the same reasons, and then writes nothing, commits nothing and releases no stock.
  pub advance_status-Refused :
      (to : OrderStatus) (e : AppException)
      → refusal_of user to o house ≡ some e
      → Refused s e (advance_status user id to s)
  unfolding advance_status
  advance_status-Refused to e h = ground arith

  -- An order that is there is shown to its customer, to an admin and to the owner of its restaurant,
  -- and refused with a 403 to anyone else.
  pub get_order_for_user-shows :
      (get_order_for_user user id s).0
      ≡ (if may_read user o house then ok o else err forbidden_order)
  unfolding get_order_for_user
  get_order_for_user-shows = ground arith

  -- A customer's cancellation of an order that is there is refused with a 403 to anyone who may not
  -- read the order, and then with a 409 once it is being prepared; a refused cancellation writes
  -- nothing, commits nothing, releases no stock and asks for no refund.
  pub cancel_by_customer-Refused :
      (e : AppException)
      → cancel_refusal user o house ≡ some e
      → Refused s e (cancel_by_customer user id s)
  unfolding get_order_for_user cancel_by_customer cancel_as_read
  cancel_by_customer-Refused e h = ground arith
