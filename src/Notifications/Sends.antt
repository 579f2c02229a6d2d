-- ===== src/Notifications/Sends.antt =====
-- What one status change of an order sends and records, against what is expected.
use Prim.Native.String.{String}
use food_delivery_system.Base.{
  ℕ, ◌≡◌, refl, ◌∙◌, ap, Bool, Option, List, find, if◌then◌else◌, [], ◌∷◌, map, begin, commit, ok,
  err,
}
use food_delivery_system.Notifications.Models.{Channel, NotificationsDb, Message, preference_key}
use food_delivery_system.Notifications.Templates.{render, channels_for}
use food_delivery_system.Notifications.Preferences.{get_preferences}
use food_delivery_system.Notifications.Service.{
  OrderStatusEvent, recipients, message_to, handle_order_status,
}
use food_delivery_system.Notifications.Expected.{
  join, recorded, announced, consents, reached_at, written, expected, allows-consents,
  recipients-reached_at, message_to-written,
}
use food_delivery_system.Notifications.Plan.{
  reverse_onto, planned, after_sending, planned-rows, channels-send,
}

module _ (digits : ℕ → String) (dispatch : Message → Option Bool) (event : OrderStatusEvent)
    (db : NotificationsDb) where
  -- One channel, with what is tested, where it goes, what is written and what comes after it.
  abbrev one_channel : Bool → List Message → List Message → List Message
  one_channel test messages rest = if test then join messages rest else rest

  -- What the loops send is what is expected.
  planned-expected :
      (channels : List Channel)
      → planned digits dispatch event (get_preferences event.customer_id db) db channels
        ≡ expected digits event db channels
  unfolding planned expected
  planned-expected [] = refl
  planned-expected (channel ∷ channels) =
      let p = get_preferences event.customer_id db in
      let to_each = map (message_to (render digits channel event.status event.order_id)) in
      let test = consents (find preference_key event.customer_id db.preferences) channel in
      let rest = planned digits dispatch event p db channels in
      ap (λ b. one_channel b (to_each (recipients channel event.customer_id db)) rest)
        (allows-consents event.customer_id db channel)
      ∙ ap (λ tos. one_channel test (to_each tos) rest)
          (recipients-reached_at channel event.customer_id db)
      ∙ ap (λ ms. one_channel test ms rest)
          (message_to-written digits event db channel (reached_at channel event.customer_id db))
      ∙ ap
          (one_channel test
            (map (written digits event db channel) (reached_at channel event.customer_id db)))
          (planned-expected channels)

-- A status change never fails, whatever the senders do. It leaves one row in the feed, and sends and records, committed,
-- on each channel of the status that the customer consents to (by email and push, and not by text message, who chose
-- nothing) one message to each address at which the channel reaches them: their own devices, and the email and the phone
-- of their contact. A message whose sender raised is recorded as not delivered.
pub handle_order_status-refines :
    (digits : ℕ → String) (dispatch : Message → Option Bool) (event : OrderStatusEvent)
    (db : NotificationsDb) (now : ℕ)
    → let messages = expected digits event db (channels_for event.status) in
      let after = record db {
        notifications =
            reverse_onto
              (map (recorded dispatch event) messages)
              (announced event ∷ db.notifications);
      } in
      handle_order_status digits dispatch event (begin db now) ≡ (
        ok tt,
        record { current = after; durable = after; now = now; sent = reverse_onto messages [] },
      )
unfolding handle_order_status after_sending get_preferences
handle_order_status-refines digits dispatch event db now =
    let p = get_preferences event.customer_id db in
    let rows = announced event ∷ db.notifications in
    let start = (record (begin db now) { current = record db { notifications = rows } }) in
    let sent =
      channels-send digits dispatch event p (channels_for event.status) start
      ∙ ap (λ x. (ok tt, after_sending digits dispatch event p x start))
          (planned-rows digits dispatch event p db rows (channels_for event.status)
            ∙ planned-expected digits dispatch event db (channels_for event.status)) in
    ap (λ r. elim r.0 [ ok _ ↦ commit r.1 | err e ↦ (err e, r.1) ]) sent
