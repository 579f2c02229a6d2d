-- ===== src/Notifications/Tests.antt =====
-- The theorems of the notifications service for one customer who allows text messages and has two devices.
use Prim.Native.String.{String}
use food_delivery_system.Base.{
  ℕ, ◌≡◌, ◌≤◌, refl, Bool, true, false, not, Option, none, some, find, List, [], ◌∷◌, map, begin,
  ok, any, select, count_if,
}
use food_delivery_system.Notifications.Models.{push, sms, NotificationsDb, Message}
use food_delivery_system.Notifications.Templates.{channels_for}
use food_delivery_system.Notifications.Preferences.{
  max_devices_per_user, has_token, register_device,
}
use food_delivery_system.Notifications.Service.{OrderStatusEvent, handle_order_status}
use food_delivery_system.Notifications.Plan.{reverse_onto}
use food_delivery_system.Notifications.Expected.{
  expected, consents, reached_at, tokens_of, phone_of, single, join, recorded, announced,
}
use food_delivery_system.Notifications.Sends.{handle_order_status-refines}
use food_delivery_system.Notifications.Devices.{is_mine, register_device-bounds}

abbrev sample : NotificationsDb
sample = record {
  notifications = [];
  preferences =
      record { user_id = 1; email_enabled = false; sms_enabled = true; push_enabled = true } ∷ [];
  devices =
      record { user_id = 1; token = 5 }
      ∷ record { user_id = 2; token = 6 }
      ∷ record { user_id = 1; token = 4 }
      ∷ [];
  contacts = record { user_id = 1; email = some 100; phone = some 200 } ∷ [];
}

abbrev delivered : OrderStatusEvent
delivered = record { order_id = 7; status = "DELIVERED"; customer_id = 1 }

abbrev seven : ℕ → String
seven _ = "7"

-- The sender of text messages raises, and the others but push answer that they failed.
abbrev only_push : Message → Option Bool
only_push m = elim m.channel [ push ↦ some true | sms ↦ none | _ ↦ some false ]

abbrev sent_messages : List Message
sent_messages = expected seven delivered sample (channels_for "DELIVERED")

-- The customer's two devices and their phone, and no mail.
sent_messages-to : map (λ m. m.to) sent_messages ≡ 5 ∷ 4 ∷ 200 ∷ []
unfolding channels_for expected consents reached_at tokens_of phone_of single join find any
sent_messages-to = refl

abbrev after_delivery : NotificationsDb
after_delivery = record sample {
  notifications =
      reverse_onto (map (recorded only_push delivered) sent_messages) (announced delivered ∷ []);
}

handle_order_status-refines_example :
    handle_order_status seven only_push delivered (begin sample 9) ≡ (
      ok tt,
      record {
        current = after_delivery;
        durable = after_delivery;
        now = 9;
        sent = reverse_onto sent_messages [];
      },
    )
handle_order_status-refines_example = handle_order_status-refines seven only_push delivered sample 9

register_device-bounds_example :
    let after = (register_device 1 8 (begin sample 9)).1.durable.devices in
    (count_if (is_mine 1) after ≤ max_devices_per_user)
    × ((any (has_token 8) after ≡ true)
        × (select (λ d. not (is_mine 1 d)) after ≡ select (λ d. not (is_mine 1 d)) sample.devices))
unfolding any
register_device-bounds_example = register_device-bounds 1 8 9 sample new_token
  where
    new_token : any (has_token 8) sample.devices ≡ false
    new_token = refl
