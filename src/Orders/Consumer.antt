-- ===== src/Orders/Consumer.antt =====
-- services/orders/app/consumer.py: the events of the other services. A payload is a record of the
-- fields that the handler reads, `none` where the event does not carry one.
use Prim.Native.String.{String, ◌++◌}
use text.Mathlib.Text.{◌==◌ as str_eq}
use food_delivery_system.Base.{
  ℕ, Bool, true, false, Option, none, some, or_else, ok, err, pure, modify, commit, rollback, ◌>>=◌,
  ◌>>◌, save, if◌then◌else◌,
}
use food_delivery_system.Orders.Models.{
  OrderStatus, out_for_delivery, delivered, AddressSnapshot, RestaurantSnapshot,
}
use food_delivery_system.Orders.Store.{
  Act, address_key, customer_key, restaurant_key, get_address, get_restaurant,
}
use food_delivery_system.Orders.Lifecycle.{mark_paid, driver_advance}

pub record PaymentEvent : Type 0 where
  pub order_id : Option ℕ
  pub payment_status : Option String

abbrev pub is_succeeded : Option String → Bool
is_succeeded none = false
is_succeeded (some s) = str_eq s "SUCCEEDED"

-- A handler's result is dropped.
abbrev pub ignore : {A : Type 0} → Act A → Act (Unit {0})
ignore m = m >>= λ _. pure tt

abbrev pub pay_for : Option ℕ → Bool → Act (Unit {0})
pay_for (some order_id) true = ignore (mark_paid order_id)
pay_for _ _ = pure tt

-- `_apply_payment_event`
unfoldable pub apply_payment_event : PaymentEvent → Act (Unit {0})
apply_payment_event p = pay_for p.order_id (is_succeeded p.payment_status)

pub record DeliveryEvent : Type 0 where
  pub order_id : Option ℕ
  pub status : Option String

-- the dict from a delivery's status to the order's
abbrev pub delivery_target : Option String → Option OrderStatus
delivery_target none = none
delivery_target (some s) =
    if str_eq s "PICKED_UP"
    then some out_for_delivery
    else if str_eq s "DELIVERED"
    then some delivered
    else none

-- `try: … except Exception: rollback`
abbrev pub or_rollback : {A : Type 0} → Act A → Act (Unit {0})
or_rollback m s = let (r, s') = m s in elim r [ ok _ ↦ (ok tt, s') | err _ ↦ rollback s' ]

abbrev pub deliver_to : Option ℕ → Option OrderStatus → Act (Unit {0})
deliver_to (some order_id) (some target) = or_rollback (driver_advance order_id target)
deliver_to _ _ = pure tt

-- `_apply_delivery_event`
unfoldable pub apply_delivery_event : DeliveryEvent → Act (Unit {0})
apply_delivery_event p = deliver_to p.order_id (delivery_target p.status)

pub record AddressEvent : Type 0 where
  pub address_id : Option ℕ
  pub user_id : Option ℕ
  pub city : Option String
  pub latitude : Option ℕ
  pub longitude : Option ℕ

abbrev pub old_user : Option AddressSnapshot → ℕ
old_user none = 0
old_user (some a) = a.user_id

-- The point is taken over even when it is null.
abbrev pub address_row : ℕ → Option AddressSnapshot → AddressEvent → AddressSnapshot
address_row id old p = record {
  address_id = id;
  user_id = or_else p.user_id (old_user old);
  city = or_else p.city "";
  latitude = p.latitude;
  longitude = p.longitude;
}

abbrev pub copy_address : Option ℕ → AddressEvent → Act (Unit {0})
copy_address none p = pure tt
copy_address (some id) p = do
  old ← get_address id
  modify (λ db. record db { addresses = save address_key (address_row id old p) db.addresses })
  commit

-- `_apply_address_event`
unfoldable pub apply_address_event : AddressEvent → Act (Unit {0})
apply_address_event p = copy_address p.address_id p

pub record RestaurantEvent : Type 0 where
  pub restaurant_id : Option ℕ
  pub owner_id : Option ℕ
  pub name : Option String

abbrev pub old_owner : Option RestaurantSnapshot → ℕ
old_owner none = 0
old_owner (some r) = r.owner_id

abbrev pub old_name : Option RestaurantSnapshot → String
old_name none = ""
old_name (some r) = r.name

-- A field that the event does not carry stays.
abbrev pub restaurant_row : ℕ → Option RestaurantSnapshot → RestaurantEvent → RestaurantSnapshot
restaurant_row id old p = record {
  restaurant_id = id;
  owner_id = or_else p.owner_id (old_owner old);
  name = or_else p.name (old_name old);
}

abbrev pub copy_restaurant : Option ℕ → RestaurantEvent → Act (Unit {0})
copy_restaurant none p = pure tt
copy_restaurant (some id) p = do
  old ← get_restaurant id
  modify (λ db. record db {
    restaurants = save restaurant_key (restaurant_row id old p) db.restaurants;
  })
  commit

-- `_apply_restaurant_event`
unfoldable pub apply_restaurant_event : RestaurantEvent → Act (Unit {0})
apply_restaurant_event p = copy_restaurant p.restaurant_id p

pub record UserEvent : Type 0 where
  pub user_id : Option ℕ
  pub role : Option String
  pub first_name : Option String
  pub last_name : Option String

abbrev pub is_customer : Option String → Bool
is_customer none = false
is_customer (some r) = str_eq r "customer"

-- `f"{first} {last[0]}." if last else first`
abbrev pub with_initial : String → String → String
with_initial first String.[] = first
with_initial first (String.◌∷◌ c _) = first ++ (" " ++ (String.◌∷◌ c "."))

-- `str.strip` is Python's.
module _ (strip : String → String) where
  -- `_display_name`
  unfoldable pub display_name : Option String → Option String → String
  display_name first last =
      let f = strip (or_else first "") in
      if str_eq f "" then "" else with_initial f (strip (or_else last ""))

  abbrev pub copy_customer : Option ℕ → UserEvent → Act (Unit {0})
  copy_customer none p = pure tt
  copy_customer (some id) p = do
    modify (λ db. record db {
      customers =
          save customer_key
            (record { user_id = id; display_name = display_name p.first_name p.last_name })
            db.customers;
    })
    commit

  -- `_apply_user_event`
  unfoldable pub apply_user_event : UserEvent → Act (Unit {0})
  apply_user_event p = if is_customer p.role then copy_customer p.user_id p else pure tt
