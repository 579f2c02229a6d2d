-- ===== src/Notifications/Expected.antt =====
-- What a status change of an order should send and record, said of the tables and not by the helpers of the service.
use Prim.Native.String.{String, ◌++◌ as str_append}
use food_delivery_system.Base.{
  ℕ, ◌≡◌, refl, ap, ◌∙◌, Bool, true, false, Option, none, some, List, [], ◌∷◌, map, find, ◌==◌,
  if◌then◌else◌, Option-cases, inl, inr, arith,
}
use food_delivery_system.Notifications.Models.{
  NotificationPreference, Contact, DeviceToken, Channel, log, push, sms, email, Notification,
  NotificationsDb, Message, preference_key, contact_key,
}
use food_delivery_system.Notifications.Templates.{render, short_copy}
use food_delivery_system.Notifications.Preferences.{
  allows, get_preferences, list_devices, device_tokens,
}
use food_delivery_system.Notifications.Service.{OrderStatusEvent, recipients, message_to}

-- Whether a customer is written to on a channel: as they chose, and who chose nothing by email and push.
unfoldable pub consents : Option NotificationPreference → Channel → Bool
consents (some p) email = p.email_enabled
consents (some p) sms = p.sms_enabled
consents (some p) push = p.push_enabled
consents none email = true
consents none push = true
consents none sms = false
consents _ log = false

-- The tokens of the devices that are a customer's own.
unfoldable pub tokens_of : ℕ → List DeviceToken → List ℕ
tokens_of customer [] = []
tokens_of customer (d ∷ ds) =
    let rest = tokens_of customer ds in if d.user_id == customer then d.token ∷ rest else rest

unfoldable pub single : Option ℕ → List ℕ
single none = []
single (some a) = a ∷ []

unfoldable pub mail_of : Option Contact → List ℕ
mail_of none = []
mail_of (some c) = single c.email

unfoldable pub phone_of : Option Contact → List ℕ
phone_of none = []
phone_of (some c) = single c.phone

-- Where a channel reaches a customer.
unfoldable pub reached_at : Channel → ℕ → NotificationsDb → List ℕ
reached_at push customer db = tokens_of customer db.devices
reached_at email customer db = mail_of (find contact_key customer db.contacts)
reached_at sms customer db = phone_of (find contact_key customer db.contacts)
reached_at log customer db = []

-- The row of the feed.
abbrev pub announced : OrderStatusEvent → Notification
announced event = record {
  user_id = event.customer_id;
  channel = log;
  type = str_append "order." event.status;
  message = short_copy event.status;
  order_id = some event.order_id;
  delivered = true;
}

-- A sender that raises did not deliver.
abbrev pub was_delivered : Option Bool → Bool
was_delivered (some true) = true
was_delivered _ = false

-- The row of a message that was sent.
abbrev pub recorded : (Message → Option Bool) → OrderStatusEvent → Message → Notification
recorded dispatch event m = record {
  user_id = event.customer_id;
  channel = m.channel;
  type = str_append "order." event.status;
  message = m.body;
  order_id = some event.order_id;
  delivered = was_delivered (dispatch m);
}

unfoldable pub join {ℓ} : {A : Type ℓ} → List A → List A → List A
join [] ys = ys
join (x ∷ xs) ys = x ∷ join xs ys

module _ (digits : ℕ → String) (event : OrderStatusEvent) (db : NotificationsDb) where
  -- A message of a channel to one address.
  abbrev pub written : Channel → ℕ → Message
  written channel to =
      let r = render digits channel event.status event.order_id in
      record { channel = channel; to = to; body = r.body; subject = r.subject }

  -- The messages of a status change: on each channel that the customer consents to, one to each address at which it
  -- reaches them.
  unfoldable pub expected : List Channel → List Message
  expected [] = []
  expected (channel ∷ channels) =
      let rest = expected channels in
      if consents (find preference_key event.customer_id db.preferences) channel
      then join (map (written channel) (reached_at channel event.customer_id db)) rest
      else rest

pub allows-consents :
    (customer : ℕ) (db : NotificationsDb) (channel : Channel)
    → allows (get_preferences customer db) channel
      ≡ consents (find preference_key customer db.preferences) channel
unfolding allows get_preferences consents
allows-consents customer db channel =
    elim (Option-cases (find preference_key customer db.preferences)) [
      | inl unset ↦ ground (arith, unset)
      | inr (p, chosen) ↦ ground (arith, chosen)
    ]

device_tokens-tokens_of :
    (customer : ℕ) (db : NotificationsDb) (ds : List DeviceToken)
    → device_tokens customer (record db { devices = ds }) ≡ tokens_of customer ds
unfolding device_tokens list_devices tokens_of
device_tokens-tokens_of customer db [] = refl
device_tokens-tokens_of customer db (d ∷ ds) =
    ground (arith, device_tokens-tokens_of customer db ds)

pub recipients-reached_at :
    (channel : Channel) (customer : ℕ) (db : NotificationsDb)
    → recipients channel customer db ≡ reached_at channel customer db
unfolding recipients reached_at single mail_of phone_of
recipients-reached_at log customer db = refl
recipients-reached_at push customer db = device_tokens-tokens_of customer db db.devices
recipients-reached_at email customer db =
    elim (Option-cases (find contact_key customer db.contacts)) [
      | inl stranger ↦ ground (arith, stranger)
      | inr (c, known) ↦ ground (arith, known)
    ]
recipients-reached_at sms customer db =
    elim (Option-cases (find contact_key customer db.contacts)) [
      | inl stranger ↦ ground (arith, stranger)
      | inr (c, known) ↦ ground (arith, known)
    ]

module _ (digits : ℕ → String) (event : OrderStatusEvent) (db : NotificationsDb) where
  render-written :
      (channel : Channel) (to : ℕ)
      → message_to (render digits channel event.status event.order_id) to
        ≡ written digits event db channel to
  unfolding render
  render-written log to = refl
  render-written push to = refl
  render-written sms to = refl
  render-written email to = refl

  pub message_to-written :
      (channel : Channel) (tos : List ℕ)
      → map (message_to (render digits channel event.status event.order_id)) tos
        ≡ map (written digits event db channel) tos
  message_to-written channel [] = refl
  message_to-written channel (to ∷ tos) =
      ap (λ m. m ∷ map (message_to (render digits channel event.status event.order_id)) tos)
        (render-written channel to)
      ∙ ap (λ ms. written digits event db channel to ∷ ms) (message_to-written channel tos)
