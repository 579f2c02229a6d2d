-- ===== src/Notifications/Plan.antt =====
-- The messages that the loops of a status change send, written without the session.
use Prim.Native.String.{String}
use food_delivery_system.Base.{
  ℕ, ◌≡◌, refl, sym, ◌∙◌, ap, Bool, true, false, Option, Option-cases, List, [], ◌∷◌, map,
  Bool-cases, inl, inr, Session, ok, err, for_each, if◌then◌else◌,
}
use food_delivery_system.Notifications.Models.{
  NotificationPreference, Channel, log, push, sms, email, Notification, NotificationsDb, Message,
}
use food_delivery_system.Notifications.Templates.{Rendered, render}
use food_delivery_system.Notifications.Preferences.{allows, list_devices, device_tokens}
use food_delivery_system.Notifications.Expected.{join, recorded}
use food_delivery_system.Notifications.Service.{
  OrderStatusEvent, recipients, message_to, send_one, send_on,
}

-- A list in reverse, before another one: what a log with the newest entry first becomes.
unfoldable pub reverse_onto {ℓ} : {A : Type ℓ} → List A → List A → List A
reverse_onto [] ys = ys
reverse_onto (x ∷ xs) ys = reverse_onto xs (x ∷ ys)

module _ (digits : ℕ → String) (dispatch : Message → Option Bool) (event : OrderStatusEvent)
    (p : NotificationPreference) where
  -- The messages of a status change: on each channel that the customer allows, one to each of their addresses.
  unfoldable pub planned : NotificationsDb → List Channel → List Message
  planned db [] = []
  planned db (channel ∷ channels) =
      let to_all =
        map (message_to (render digits channel event.status event.order_id))
          (recipients channel event.customer_id db) in
      let rest = planned db channels in if allows p channel then join to_all rest else rest

  -- The session once messages have been sent, and recorded, in order.
  unfoldable pub after_sending :
      List Message → Session NotificationsDb Message → Session NotificationsDb Message
  after_sending ms s = record s {
    current = record s.current {
      notifications = reverse_onto (map (recorded dispatch event) ms) s.current.notifications;
    };
    sent = reverse_onto ms s.sent;
  }

  after_sending-join :
      (ms ns : List Message) (s : Session NotificationsDb Message)
      → after_sending (join ms ns) s ≡ after_sending ns (after_sending ms s)
  unfolding join reverse_onto after_sending
  after_sending-join [] ns s = refl
  after_sending-join (m ∷ ms) ns s = after_sending-join ms ns (after_sending (m ∷ []) s)

  send_one-sends :
      (r : Rendered) (to : ℕ) (s : Session NotificationsDb Message)
      → send_one digits dispatch event r to s ≡ (ok tt, after_sending (message_to r to ∷ []) s)
  unfolding reverse_onto after_sending
  send_one-sends r to s = elim (Option-cases (dispatch (message_to r to))) [
    | inl raised ↦ rw raised refl
    | inr (true, sent) ↦ rw sent refl
    | inr (false, failed) ↦ rw failed refl
  ]

  sends-all :
      (r : Rendered) (tos : List ℕ) (s : Session NotificationsDb Message)
      → for_each (send_one digits dispatch event r) tos s
        ≡ (ok tt, after_sending (map (message_to r) tos) s)
  unfolding for_each reverse_onto after_sending
  sends-all r [] s = refl
  sends-all r (to ∷ tos) s =
      ap
        (λ x. elim x.0 [
          | ok _ ↦ for_each (send_one digits dispatch event r) tos x.1
          | err e ↦ (err e, x.1)
        ])
        (send_one-sends r to s)
      ∙ sends-all r tos (after_sending (message_to r to ∷ []) s)

  -- One channel, as the plan has it.
  channel-sends :
      (channel : Channel) (channels : List Channel) (s : Session NotificationsDb Message)
      → (ms : List Message)
      → for_each (send_on digits dispatch event p) channels (after_sending ms s)
        ≡ (ok tt, after_sending (planned s.current channels) (after_sending ms s))
      → send_on digits dispatch event p channel s ≡ (ok tt, after_sending ms s)
      → for_each (send_on digits dispatch event p) (channel ∷ channels) s
        ≡ (ok tt, after_sending (join ms (planned s.current channels)) s)
  unfolding for_each
  channel-sends channel channels s ms later first =
      ap
        (λ r. elim r.0 [
          | ok _ ↦ for_each (send_on digits dispatch event p) channels r.1
          | err e ↦ (err e, r.1)
        ])
        first
      ∙ later
      ∙ ap (λ x. (ok tt, x)) (sym (after_sending-join ms (planned s.current channels) s))

  recipients-rows :
      (db : NotificationsDb) (rows : List Notification) (channel : Channel)
      → recipients channel event.customer_id (record db { notifications = rows })
        ≡ recipients channel event.customer_id db
  unfolding recipients device_tokens list_devices
  recipients-rows db rows log = refl
  recipients-rows db rows push = refl
  recipients-rows db rows sms = refl
  recipients-rows db rows email = refl

  -- The messages of one channel, before those of the later ones.
  abbrev one_channel : NotificationsDb → Channel → List ℕ → List Message → List Message
  one_channel db channel tos rest =
      if allows p channel
      then join (map (message_to (render digits channel event.status event.order_id)) tos) rest
      else rest

  -- The plan does not depend on what is recorded.
  pub planned-rows :
      (db : NotificationsDb) (rows : List Notification) (channels : List Channel)
      → planned (record db { notifications = rows }) channels ≡ planned db channels
  unfolding planned
  planned-rows db rows [] = refl
  planned-rows db rows (channel ∷ channels) =
      ap (λ tos. one_channel db channel tos (planned (record db { notifications = rows }) channels))
        (recipients-rows db rows channel)
      ∙ ap (one_channel db channel (recipients channel event.customer_id db))
          (planned-rows db rows channels)

  planned-allows :
      (db : NotificationsDb) (channel : Channel) (channels : List Channel) (b : Bool)
      → allows p channel ≡ b
      → planned db (channel ∷ channels) ≡ (
          if b
          then join
              (map
                (message_to (render digits channel event.status event.order_id))
                (recipients channel event.customer_id db))
              (planned db channels)
          else planned db channels)
  unfolding planned
  planned-allows db channel channels b e = rw e refl

  pub channels-send :
      (channels : List Channel) (s : Session NotificationsDb Message)
      → for_each (send_on digits dispatch event p) channels s
        ≡ (ok tt, after_sending (planned s.current channels) s)
  unfolding for_each after_sending reverse_onto planned join
  channels-send [] s = refl
  channels-send (channel ∷ channels) s = elim (Bool-cases (allows p channel)) [
    | inl allowed ↦
        let r = render digits channel event.status event.order_id in
        let ms = map (message_to r) (recipients channel event.customer_id s.current) in
        let rows = reverse_onto (map (recorded dispatch event) ms) s.current.notifications in
        let later =
          channels-send channels (after_sending ms s)
          ∙ ap (λ x. (ok tt, after_sending x (after_sending ms s)))
              (planned-rows s.current rows channels) in
        channel-sends channel channels s ms later
          (rw allowed (sends-all r (recipients channel event.customer_id s.current) s))
        ∙ ap (λ x. (ok tt, after_sending x s))
            (sym (planned-allows s.current channel channels true allowed))
    | inr refused ↦
        channel-sends channel channels s [] (channels-send channels s) (rw refused refl)
        ∙ ap (λ x. (ok tt, after_sending x s))
            (sym (planned-allows s.current channel channels false refused))
  ]
