-- ===== src/Notifications/Consumer.antt =====
-- services/notifications/app/consumer.py: one handler a topic.
use Prim.Native.String.{String, ◌++◌}
use food_delivery_system.Base.{
  ℕ, Bool, Option, none, some, or_else, gets, modify, commit, pure, ◌>>=◌, ◌>>◌, find, save,
}
use food_delivery_system.Notifications.Models.{
  Channel, email, Contact, contact_key, Message, Act, add_row,
}
use food_delivery_system.Notifications.Templates.{restaurant_decision}
use food_delivery_system.Notifications.Service.{
  OrderStatusEvent, feed_row, call_sender, or_false, handle_order_status,
}

pub record ContactEvent : Type 0 where
  pub user_id : Option ℕ
  pub email : Option ℕ
  pub phone : Option ℕ

abbrev pub first_some {ℓ} : {A : Type ℓ} → Option A → Option A → Option A
first_some none o = o
first_some (some a) o = some a

abbrev pub known_contact : ℕ → Option Contact → Contact
known_contact user_id found =
    or_else found (record { user_id = user_id; email = none; phone = none })

abbrev pub merged : ContactEvent → Contact → Contact
merged e c = record c { email = first_some e.email c.email; phone = first_some e.phone c.phone }

abbrev save_contact : ContactEvent → ℕ → Act (Unit {0})
save_contact e user_id = do
  c ← gets (λ db. known_contact user_id (find contact_key user_id db.contacts))
  modify (λ db. record db { contacts = save contact_key (merged e c) db.contacts })
  commit

abbrev contact_for : ContactEvent → Option ℕ → Act (Unit {0})
contact_for e none = pure tt
contact_for e (some user_id) = save_contact e user_id

unfoldable pub handle_contact : ContactEvent → Act (Unit {0})
handle_contact e = contact_for e e.user_id

-- The channel of a direct message is one of the four that have a sender.
pub record DirectEvent : Type 0 where
  pub user_id : Option ℕ
  pub channel : Option Channel
  pub to : Option ℕ
  pub type : Option String
  pub message : String
  pub subject : Option String
  pub order_id : Option ℕ

pub record RestaurantEvent : Type 0 where
  pub owner_id : Option ℕ
  pub approval_status : Option String
  pub name : Option String

abbrev email_of : Option Contact → Option ℕ
email_of none = none
email_of (some c) = c.email

module _ (digits : ℕ → String) (dispatch : Message → Option Bool) where
  -- `_handle_order`
  unfoldable pub handle_order : OrderStatusEvent → Act (Unit {0})
  handle_order event = handle_order_status digits dispatch event

  abbrev send_direct : DirectEvent → Channel → ℕ → Act (Unit {0})
  send_direct e channel to =
      let m : Message = record {
        channel = channel;
        to = to;
        body = e.message;
        subject = e.subject;
      } in
      or_false (call_sender dispatch m) >>= λ delivered. add_row (record {
        user_id = or_else e.user_id 0;
        channel = channel;
        type = or_else e.type "account";
        message = e.message;
        order_id = e.order_id;
        delivered = delivered;
      })

  abbrev feed_direct : DirectEvent → Option ℕ → Act (Unit {0})
  feed_direct e none = pure tt
  feed_direct e (some user_id) =
      add_row (feed_row user_id (or_else e.type "info") e.message e.order_id)

  abbrev direct_for : DirectEvent → Option Channel → Option ℕ → Act (Unit {0})
  direct_for e (some channel) (some to) = send_direct e channel to
  direct_for e _ _ = feed_direct e e.user_id

  unfoldable pub handle_direct : DirectEvent → Act (Unit {0})
  handle_direct e = do direct_for e e.channel e.to; commit

  abbrev mail : ℕ → String → String × String → Option ℕ → Act (Unit {0})
  mail owner_id status wording none = pure tt
  mail owner_id status wording (some to) = do
    let m : Message = record {
      channel = email;
      to = to;
      body = wording.1;
      subject = some wording.0;
    }
    delivered ← or_false (call_sender dispatch m)
    add_row (record {
      user_id = owner_id;
      channel = email;
      type = "restaurant." ++ status;
      message = wording.1;
      order_id = none;
      delivered = delivered;
    })
    commit

  abbrev announce : ℕ → String → Option (String × String) → Act (Unit {0})
  announce owner_id status none = pure tt
  announce owner_id status (some wording) = do
    to ← gets (λ db. email_of (find contact_key owner_id db.contacts))
    mail owner_id status wording to

  abbrev decide_for : Option String → Option ℕ → Option String → Act (Unit {0})
  decide_for name (some owner_id) (some status) =
      announce owner_id status (restaurant_decision status (or_else name "Your restaurant"))
  decide_for name _ _ = pure tt

  -- `_handle_restaurant`
  unfoldable pub handle_restaurant : RestaurantEvent → Act (Unit {0})
  handle_restaurant e = decide_for e.name e.owner_id e.approval_status
