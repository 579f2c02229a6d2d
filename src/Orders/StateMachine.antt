-- ===== src/Orders/StateMachine.antt =====
-- services/orders/app/state_machine.py: the legal transitions and the refund rules.
pub mod Graph
use food_delivery_system.Base.{Bool, true, false, if◌then◌else◌}
use food_delivery_system.Orders.Models.{
  OrderStatus, created, payment_pending, payment_success, restaurant_accepted, preparing,
  ready_for_pickup, out_for_delivery, delivered, completed, cancelled, rejected, RefundStatus,
  no_refund, full, Actor,
}

-- `to in ALLOWED[current]`
unfoldable pub allowed : OrderStatus → OrderStatus → Bool
allowed created payment_pending = true
allowed created cancelled = true
allowed payment_pending payment_success = true
allowed payment_pending cancelled = true
allowed payment_success restaurant_accepted = true
allowed payment_success cancelled = true
allowed payment_success rejected = true
allowed restaurant_accepted preparing = true
allowed restaurant_accepted cancelled = true
allowed preparing ready_for_pickup = true
allowed preparing cancelled = true
allowed ready_for_pickup out_for_delivery = true
allowed ready_for_pickup cancelled = true
allowed out_for_delivery delivered = true
allowed out_for_delivery cancelled = true
allowed delivered completed = true
allowed _ _ = false

-- `status in PRE_PREP_STATES`
abbrev pub is_pre_prep : OrderStatus → Bool
is_pre_prep created = true
is_pre_prep payment_pending = true
is_pre_prep payment_success = true
is_pre_prep restaurant_accepted = true
is_pre_prep _ = false

-- `status in UNPAID_STATES`
abbrev pub is_unpaid : OrderStatus → Bool
is_unpaid created = true
is_unpaid payment_pending = true
is_unpaid _ = false

abbrev pub customer_cancel_allowed : OrderStatus → Bool
customer_cancel_allowed current = is_pre_prep current

-- `actor in (Actor.SYSTEM, Actor.CUSTOMER)`
abbrev is_system_or_customer : Actor → Bool
is_system_or_customer Actor.system = true
is_system_or_customer Actor.customer = true
is_system_or_customer _ = false

unfoldable pub refund_on_cancel : OrderStatus → Actor → RefundStatus
refund_on_cancel current actor =
    if is_unpaid current
    then no_refund
    else if is_system_or_customer actor
    then full
    else if is_pre_prep current
    then full
    else no_refund
