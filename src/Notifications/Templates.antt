-- ===== src/Notifications/Templates.antt =====
-- services/notifications/app/templates.py. `digits` writes a number.
use Prim.Native.String.{String, ◌++◌}
use text.Mathlib.Text.{◌==◌ as str_eq}
use food_delivery_system.Base.{
  ℕ, Bool, true, false, Option, none, some, List, [], ◌∷◌, or_else, any, if◌then◌else◌,
}
use food_delivery_system.Notifications.Models.{Channel, push, sms, email}

abbrev lookup : String → List (String × String) → Option String
lookup k [] = none
lookup k ((key, v) ∷ rest) = if str_eq key k then some v else lookup k rest

abbrev status_copy : List (String × String)
status_copy =
    ("PAYMENT_SUCCESS", "Your order is confirmed and awaiting the restaurant.")
    ∷ ("RESTAURANT_ACCEPTED", "The restaurant accepted your order.")
    ∷ ("PREPARING", "Your order is being prepared.")
    ∷ ("READY_FOR_PICKUP", "Your order is ready and awaiting a driver.")
    ∷ ("OUT_FOR_DELIVERY", "Your order is on the way!")
    ∷ ("DELIVERED", "Your order has been delivered. Enjoy!")
    ∷ ("COMPLETED", "Your order is complete.")
    ∷ ("CANCELLED", "Your order was cancelled.")
    ∷ ("REJECTED", "The restaurant could not accept your order.")
    ∷ []

-- `EMAIL_SUBJECT`: what stands around the order's number
abbrev email_subject : (ℕ → String) → ℕ → List (String × String)
email_subject digits order_id =
    ("PAYMENT_SUCCESS", "Order #" ++ digits order_id ++ " confirmed")
    ∷ ("DELIVERED", "Order #" ++ digits order_id ++ " delivered")
    ∷ ("CANCELLED", "Order #" ++ digits order_id ++ " cancelled")
    ∷ ("REJECTED", "Order #" ++ digits order_id ++ " could not be accepted")
    ∷ []

abbrev sms_statuses : List String
sms_statuses = "OUT_FOR_DELIVERY" ∷ "DELIVERED" ∷ "CANCELLED" ∷ "REJECTED" ∷ []

abbrev emailed_statuses : List String
emailed_statuses = "PAYMENT_SUCCESS" ∷ "DELIVERED" ∷ "CANCELLED" ∷ "REJECTED" ∷ []

abbrev is_in : String → List String → Bool
is_in status statuses = any (str_eq status) statuses

unfoldable pub short_copy : String → String
short_copy status = or_else (lookup status status_copy) ("Order status: " ++ status)

abbrev cons_if {ℓ} : {A : Type ℓ} → Bool → A → List A → List A
cons_if test x xs = if test then x ∷ xs else xs

abbrev is_known : Option String → Bool
is_known none = false
is_known (some _) = true

-- `_CHANNELS_BY_STATUS.get(status, ())`
unfoldable pub channels_for : String → List Channel
channels_for status =
    if is_known (lookup status status_copy)
    then push
      ∷ cons_if (is_in status sms_statuses) sms (cons_if (is_in status emailed_statuses) email [])
    else []

pub record Rendered : Type 0 where
  pub channel : Channel
  pub subject : Option String
  pub body : String

unfoldable pub render : (ℕ → String) → Channel → String → ℕ → Rendered
render digits email status order_id = record {
  channel = email;
  subject = some (or_else (lookup status (email_subject digits order_id)) "Order update");
  body = short_copy status ++ "\n\nOrder #" ++ digits order_id;
}
render digits channel status order_id = record {
  channel = channel;
  subject = none;
  body = "Order #" ++ digits order_id ++ ": " ++ short_copy status;
}

-- `RESTAURANT_DECISION`, by `restaurant_decision`
unfoldable pub restaurant_decision : String → String → Option (String × String)
restaurant_decision status name =
    if str_eq status "approved"
    then some (
      "Your restaurant is approved",
      name
          ++ " has been approved. You can now sign in and start setting up your menu — customers will see you as soon as you open the kitchen.",
    )
    else if str_eq status "rejected"
    then some (
      "About your restaurant registration",
      name
          ++ " was not approved, so it will not appear to customers and you cannot sign in yet. If you think this is a mistake, reply to this email and we will take another look.",
    )
    else none
