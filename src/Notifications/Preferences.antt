-- ===== src/Notifications/Preferences.antt =====
-- services/notifications/app/preferences.py
use food_delivery_system.Base.{
  ℕ, suc, ◌+◌, ltb, Bool, true, false, not, Option, List, [], ◌∷◌, or_else, any, map, gets, modify,
  commit, pure, ◌>>=◌, ◌>>◌, find, save, select, ◌==◌, ◌&&◌, if◌then◌else◌,
}
use food_delivery_system.Notifications.Models.{
  Channel, log, push, sms, email, NotificationPreference, DeviceToken, NotificationsDb,
  preference_key, Act,
}

abbrev pub max_devices_per_user : ℕ
max_devices_per_user = 10

abbrev pub default_preference : ℕ → NotificationPreference
default_preference user_id = record {
  user_id = user_id;
  email_enabled = true;
  sms_enabled = false;
  push_enabled = true;
}

unfoldable pub get_preferences : ℕ → NotificationsDb → NotificationPreference
get_preferences user_id db =
    or_else (find preference_key user_id db.preferences) (default_preference user_id)

pub record PreferenceUpdate : Type 0 where
  pub email_enabled : Option Bool
  pub sms_enabled : Option Bool
  pub push_enabled : Option Bool

abbrev pub preferred : PreferenceUpdate → NotificationPreference → NotificationPreference
preferred d p = record p {
  email_enabled = or_else d.email_enabled p.email_enabled;
  sms_enabled = or_else d.sms_enabled p.sms_enabled;
  push_enabled = or_else d.push_enabled p.push_enabled;
}

-- A new row takes the columns' defaults, which are those of `get_preferences`.
unfoldable pub update_preferences : ℕ → PreferenceUpdate → Act NotificationPreference
update_preferences user_id d = do
  p ← gets (get_preferences user_id)
  modify (λ db. record db { preferences = save preference_key (preferred d p) db.preferences })
  commit
  pure (preferred d p)

unfoldable pub allows : NotificationPreference → Channel → Bool
allows p email = p.email_enabled
allows p sms = p.sms_enabled
allows p push = p.push_enabled
allows p log = false

-- `_evict_oldest_beyond_cap`: with the newest row first, the user's rows after the first nine go.
unfoldable pub keep_newest : ℕ → ℕ → List DeviceToken → List DeviceToken
keep_newest user_id seen [] = []
keep_newest user_id seen (d ∷ ds) =
    let later = keep_newest user_id (suc seen) ds in
    let rest = keep_newest user_id seen ds in
    if d.user_id == user_id
    then if ltb (seen + 1) max_devices_per_user then d ∷ later else rest
    else d ∷ rest

abbrev pub has_token : ℕ → DeviceToken → Bool
has_token token d = d.token == token

abbrev pub repoint : ℕ → ℕ → DeviceToken → DeviceToken
repoint user_id token d = if has_token token d then record d { user_id = user_id } else d

abbrev pub new_device : ℕ → ℕ → DeviceToken
new_device user_id token = record { user_id = user_id; token = token }

abbrev pub registered : ℕ → ℕ → List DeviceToken → List DeviceToken
registered user_id token ds =
    if any (has_token token) ds
    then map (repoint user_id token) ds
    else new_device user_id token ∷ keep_newest user_id 0 ds

unfoldable pub register_device : ℕ → ℕ → Act (Unit {0})
register_device user_id token = do
  modify (λ db. record db { devices = registered user_id token db.devices })
  commit

abbrev pub is_device : ℕ → ℕ → DeviceToken → Bool
is_device user_id token d = d.user_id == user_id && d.token == token

unfoldable pub unregister_device : ℕ → ℕ → Act Bool
unregister_device user_id token = do
  removed ← gets (λ db. any (is_device user_id token) db.devices)
  modify (λ db. record db { devices = select (λ d. not (is_device user_id token d)) db.devices })
  commit
  pure removed

unfoldable pub list_devices : ℕ → NotificationsDb → List DeviceToken
list_devices user_id db = select (λ d. d.user_id == user_id) db.devices

unfoldable pub device_tokens : ℕ → NotificationsDb → List ℕ
device_tokens user_id db = map (λ d. d.token) (list_devices user_id db)
