-- ===== src/Notifications/Service.antt =====
-- services/notifications/app/service.py. What a sender answers, `none` where it raises, is an argument, and so is how a
-- number is written.
use Prim.Native.String.{String, ◌++◌}
use food_delivery_system.Base.{
  ℕ, suc, Bool, true, false, not, Option, none, some, List, [], ◌∷◌, gets, send, commit, when,
  for_each, or_raise, ok, err, ◌>>=◌, ◌>>◌, find, select, ◌==◌, ◌&&◌,
}
use food_delivery_system.Notifications.Models.{
  Channel, log, push, sms, email, Notification, NotificationPreference, NotificationsDb, Contact,
  contact_key, Message, sender_error, Act, add_row,
}
use food_delivery_system.Notifications.Templates.{short_copy, channels_for, Rendered, render}
use food_delivery_system.Notifications.Preferences.{get_preferences, allows, device_tokens}

pub record OrderStatusEvent : Type 0 where
  pub order_id : ℕ
  pub status : String
  pub customer_id : ℕ

-- `add_notification`
abbrev pub feed_row : ℕ → String → String → Option ℕ → Notification
feed_row user_id type message order_id = record {
  user_id = user_id;
  channel = log;
  type = type;
  message = message;
  order_id = order_id;
  delivered = true;
}

abbrev address_of : Channel → Option Contact → Option ℕ
address_of email (some c) = c.email
address_of sms (some c) = c.phone
address_of _ _ = none

abbrev to_list {ℓ} : {A : Type ℓ} → Option A → List A
to_list none = []
to_list (some a) = a ∷ []

-- `_recipients`
unfoldable pub recipients : Channel → ℕ → NotificationsDb → List ℕ
recipients push user_id db = device_tokens user_id db
recipients email user_id db = to_list (address_of email (find contact_key user_id db.contacts))
recipients sms user_id db = to_list (address_of sms (find contact_key user_id db.contacts))
recipients log user_id db = []

abbrev pub message_to : Rendered → ℕ → Message
message_to r to = record { channel = r.channel; to = to; body = r.body; subject = r.subject }

-- The row that records the sending of a message.
abbrev pub audit_row : OrderStatusEvent → Message → Bool → Notification
audit_row event m delivered = record {
  user_id = event.customer_id;
  channel = m.channel;
  type = "order." ++ event.status;
  message = m.body;
  order_id = some event.order_id;
  delivered = delivered;
}

-- `senders.dispatch`, which may raise
abbrev pub call_sender : (Message → Option Bool) → Message → Act Bool
call_sender dispatch m = do send m; or_raise (dispatch m) sender_error

-- `except Exception: ok = False`
abbrev pub or_false : Act Bool → Act Bool
or_false m s = let (r, s') = m s in elim r [ ok b ↦ (ok b, s') | err e ↦ (ok false, s') ]

module _ (digits : ℕ → String) (dispatch : Message → Option Bool) where
  -- `_send_one`
  abbrev pub send_one : OrderStatusEvent → Rendered → ℕ → Act (Unit {0})
  send_one event r to = do
    delivered ← or_false (call_sender dispatch (message_to r to))
    add_row (audit_row event (message_to r to) delivered)

  -- One channel, under the customer's preferences.
  abbrev pub send_on : OrderStatusEvent → NotificationPreference → Channel → Act (Unit {0})
  send_on event p channel = do
    tos ← gets (recipients channel event.customer_id)
    when (allows p channel)
        (for_each (send_one event (render digits channel event.status event.order_id)) tos)

  unfoldable pub handle_order_status : OrderStatusEvent → Act (Unit {0})
  handle_order_status event = do
    add_row (
        feed_row event.customer_id ("order." ++ event.status) (short_copy event.status)
          (some event.order_id))
    p ← gets (get_preferences event.customer_id)
    for_each (send_on event p) (channels_for event.status)
    commit

abbrev pub is_log : Channel → Bool
is_log log = true
is_log _ = false

unfoldable pub take {ℓ} : {A : Type ℓ} → ℕ → List A → List A
take n [] = []
take Prim.Native.Nat.zero (x ∷ xs) = []
take (suc n) (x ∷ xs) = x ∷ take n xs

-- `list_for_user`
unfoldable pub list_for_user : ℕ → ℕ → NotificationsDb → List Notification
list_for_user user_id limit db =
    take limit (select (λ n. n.user_id == user_id && is_log n.channel) db.notifications)

-- `list_deliveries`
unfoldable pub list_deliveries : ℕ → ℕ → NotificationsDb → List Notification
list_deliveries user_id limit db =
    take limit (select (λ n. n.user_id == user_id && not (is_log n.channel)) db.notifications)
