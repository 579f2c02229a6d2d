-- ===== src/Admin/Redelivery.antt =====
-- What a message that comes twice, and two topics that come in either order, do to the copies.
use Prim.Native.String.{String}
use text.Mathlib.Text.{◌==◌ as str_eq}
use food_delivery_system.Base.{
  ℕ, ◌≡◌, refl, sym, ◌∙◌, ap, Option, none, some, List, or_else, begin, find, find-save, find-key,
  save, save-save, arith, Option-cases, Bool-cases, inl, inr,
}
use food_delivery_system.Admin.Models.{UserRow, OrderRow, AdminDb, user_key, order_key}
use food_delivery_system.Admin.Consumer.{
  OrderEvent, UserEvent, ContactEvent, with_order, with_user, with_contact, new_order, new_user,
  kept_status, put_order, apply_order_event, apply_user_event, apply_contact_event, put_user,
}

-- The row of an id, or a new one.
abbrev current_row : ℕ → ℕ → List UserRow → UserRow
current_row id now users = or_else (find user_key id users) (new_user id now)

current_row-id : (id now : ℕ) (users : List UserRow) → (current_row id now users).id ≡ id
current_row-id id now users = elim (Option-cases (find user_key id users)) [
  | inl none_yet ↦ rw none_yet refl
  | inr (u, found) ↦ rw found (find-key user_key id u users found)
]

module _ (f g : UserRow → UserRow) (f-id : (u : UserRow) → (f u).id ≡ u.id)
    (g-id : (u : UserRow) → (g u).id ≡ u.id) where
  -- Two changes of one row, one after the other, as one.
  put_user-twice :
      (id now later : ℕ) (db : AdminDb)
      → (put_user g id later (put_user f id now db)).users
        ≡ save user_key (g (f (current_row id now db.users))) db.users
  put_user-twice id now later db =
      let row = f (current_row id now db.users) in
      let here : row.id ≡ id =
        f-id (current_row id now db.users) ∙ current_row-id id now db.users in
      let found : find user_key id (save user_key row db.users) ≡ some row =
        ground (arith, find-save user_key id row db.users, here) in
      ap (λ o. save user_key (g (or_else o (new_user id later))) (save user_key row db.users)) found
      ∙ save-save user_key row (g row) db.users (sym (g-id row))

-- The event of a user's name and the event of their contact come on two topics: for a user that is known, the copy is
-- the same in whichever order they arrive, at whatever times.
pub user_events-commute :
    (e : UserEvent) (c : ContactEvent) (id now later : ℕ) (db : AdminDb)
    → e.user_id ≡ some id
    → c.user_id ≡ some id
    → (u : UserRow) → find user_key id db.users ≡ some u
    → let first = (apply_user_event e (begin db now)).1.durable in
      let other = (apply_contact_event c (begin db now)).1.durable in
      (apply_contact_event c (begin first later)).1.durable.users
      ≡ (apply_user_event e (begin other later)).1.durable.users
unfolding apply_user_event apply_contact_event
user_events-commute e c id now later db for_user for_contact u known =
    rw (for_user, for_contact)
      (put_user-twice (with_user e) (with_contact c) (λ _. refl) (λ _. refl) id now later db
        ∙ sym
            (put_user-twice (with_contact c) (with_user e) (λ _. refl) (λ _. refl) id now later db))

or_else-twice {ℓ} : {A : Type ℓ} (o : Option A) (a : A) → or_else o (or_else o a) ≡ or_else o a
or_else-twice none a = refl
or_else-twice (some b) a = refl

kept_status-twice :
    (o : Option String) (old : String) → kept_status o (kept_status o old) ≡ kept_status o old
kept_status-twice none old = refl
kept_status-twice (some s) old = elim (Bool-cases (str_eq s "")) [
  | inl blank ↦ rw blank refl
  | inr given ↦ rw given refl
]

with_order-twice :
    (e : OrderEvent) (row : OrderRow) → with_order e (with_order e row) ≡ with_order e row
with_order-twice e row =
    rw
      (
        or_else-twice e.customer_id row.customer_id,
        or_else-twice e.restaurant_id row.restaurant_id,
        kept_status-twice e.status row.status,
        or_else-twice e.payment_status row.payment_status,
        or_else-twice e.total row.total,
      )
      refl

order_row-id :
    (e : OrderEvent) (id now : ℕ) (orders : List OrderRow)
    → (or_else (find order_key id orders) (new_order e id now)).id ≡ id
order_row-id e id now orders = elim (Option-cases (find order_key id orders)) [
  | inl none_yet ↦ rw none_yet refl
  | inr (o, found) ↦ rw found (find-key order_key id o orders found)
]

put_order-twice :
    (e : OrderEvent) (id now later : ℕ) (db : AdminDb)
    → put_order e id later (put_order e id now db) ≡ put_order e id now db
put_order-twice e id now later db =
    let old = or_else (find order_key id db.orders) (new_order e id now) in
    let row = with_order e old in
    let here : row.id ≡ id = order_row-id e id now db.orders in
    let found : find order_key id (save order_key row db.orders) ≡ some row =
      ground (arith, find-save order_key id row db.orders, here) in
    ap (λ rows. record db { orders = rows })
      (ap
          (λ o.
            save order_key (with_order e (or_else o (new_order e id later)))
              (save order_key row db.orders))
          found
        ∙ ap (λ x. save order_key x (save order_key row db.orders)) (with_order-twice e old)
        ∙ save-save order_key row row db.orders refl)

-- An order's event that is delivered a second time, at whatever time, changes nothing.
pub apply_order_event-twice :
    (e : OrderEvent) (now later : ℕ) (db : AdminDb)
    → let once = (apply_order_event e (begin db now)).1.durable in
      (apply_order_event e (begin once later)).1.durable ≡ once
unfolding apply_order_event
apply_order_event-twice e now later db = elim (Option-cases e.order_id) [
  | inl none_given ↦ rw none_given refl
  | inr (id, given) ↦ rw given (put_order-twice (record e { order_id = some id }) id now later db)
]
