-- ===== src/Users/Redis.antt =====
-- services/users/app/tokens.py, and the blocklist of service.py: the keys of Redis that the users service
-- writes, each with the time at which it expires. A reset token stands under its SHA-256 digest, an argument.
use food_delivery_system.Base.{
  ℕ, Bool, false, not, Option, none, some, List, ◌+◌, find, save, select, ltb, ◌==◌, if◌then◌else◌,
}

-- `jwt:blocklist:{jti}`
pub record Revoked : Type 0 where
  pub jti : ℕ
  pub expires_at : ℕ

-- `pwd_reset:{sha256}`
pub record ResetToken : Type 0 where
  pub digest : ℕ
  pub user_id : ℕ
  pub expires_at : ℕ

pub record Redis : Type 0 where
  pub blocklist : List Revoked
  pub resets : List ResetToken

abbrev pub revoked_key : Revoked → ℕ
revoked_key r = r.jti

abbrev pub reset_key : ResetToken → ℕ
reset_key r = r.digest

-- SET with EX: the key, until `now + ttl`
unfoldable pub blocklist_jti : ℕ → ℕ → ℕ → Redis → Redis
blocklist_jti now jti ttl_seconds r = record r {
  blocklist = save revoked_key (record { jti = jti; expires_at = now + ttl_seconds }) r.blocklist;
}

abbrev pub is_live_entry : ℕ → Option Revoked → Bool
is_live_entry now none = false
is_live_entry now (some e) = ltb now e.expires_at

-- `is_revoked`
unfoldable pub is_revoked : ℕ → ℕ → Redis → Bool
is_revoked now jti r = is_live_entry now (find revoked_key jti r.blocklist)

unfoldable pub issue_single_use : ℕ → ℕ → ℕ → ℕ → Redis → Redis
issue_single_use now digest user_id ttl_seconds r = record r {
  resets =
      save reset_key (record { digest = digest; user_id = user_id; expires_at = now + ttl_seconds })
        r.resets;
}

abbrev pub live_user : ℕ → Option ResetToken → Option ℕ
live_user now none = none
live_user now (some t) = if ltb now t.expires_at then some t.user_id else none

-- GETDEL: the value of a key that has not expired, and the store without it
unfoldable pub consume_single_use : ℕ → ℕ → Redis → Option ℕ × Redis
consume_single_use now digest r = (
  live_user now (find reset_key digest r.resets),
  record r { resets = select (λ t. not (t.digest == digest)) r.resets },
)
