-- ===== src/Notifications/Devices.antt =====
-- How many devices a user can register.
use food_delivery_system.Base.{
  ℕ, suc, ◌+◌, ◌≡◌, ◌≤◌, refl, ltb, Bool, true, false, not, List, [], ◌∷◌, any, select, count_if,
  ◌==◌, arith, Bool-cases, inl, inr, begin,
}
use food_delivery_system.Notifications.Models.{DeviceToken, NotificationsDb}
use food_delivery_system.Notifications.Preferences.{
  max_devices_per_user, keep_newest, has_token, register_device,
}

abbrev pub is_mine : ℕ → DeviceToken → Bool
is_mine user_id d = d.user_id == user_id

keep_newest-count :
    (user_id seen : ℕ) (ds : List DeviceToken)
    → seen + 1 ≤ max_devices_per_user
    → count_if (is_mine user_id) (keep_newest user_id seen ds) + seen + 1 ≤ max_devices_per_user
unfolding keep_newest
keep_newest-count user_id seen [] h = omega (arith, h)
keep_newest-count user_id seen (d ∷ ds) h = elim (Bool-cases (d.user_id == user_id)) [
  | inr other ↦ ground (arith, other, keep_newest-count user_id seen ds h)
  | inl mine ↦ elim (Bool-cases (ltb (seen + 1) max_devices_per_user)) [
    | inr full ↦ ground (arith, mine, full, keep_newest-count user_id seen ds h)
    | inl room ↦
        let more : suc seen + 1 ≤ max_devices_per_user = ground (arith, room) in
        ground (arith, mine, room, keep_newest-count user_id (suc seen) ds more)
  ]
]

keep_newest-others :
    (user_id seen : ℕ) (ds : List DeviceToken)
    → select (λ d. not (is_mine user_id d)) (keep_newest user_id seen ds)
      ≡ select (λ d. not (is_mine user_id d)) ds
unfolding keep_newest
keep_newest-others user_id seen [] = refl
keep_newest-others user_id seen (d ∷ ds) =
    ground (arith, keep_newest-others user_id seen ds, keep_newest-others user_id (suc seen) ds)

-- A token that nobody has registered yet leaves its user with at most ten devices, the new one among them, and
-- every other user's devices as they were.
pub register_device-bounds :
    (user_id token now : ℕ) (db : NotificationsDb)
    → any (has_token token) db.devices ≡ false
    → let after = (register_device user_id token (begin db now)).1.durable.devices in
      (count_if (is_mine user_id) after ≤ max_devices_per_user)
      × ((any (has_token token) after ≡ true)
          × (select (λ d. not (is_mine user_id d)) after
              ≡ select (λ d. not (is_mine user_id d)) db.devices))
unfolding register_device any
register_device-bounds user_id token now db new = (
  ground (arith, new, keep_newest-count user_id 0 db.devices (omega arith)),
  (ground (arith, new), ground (arith, new, keep_newest-others user_id 0 db.devices)),
)
