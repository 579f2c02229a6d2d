-- ===== src/Shared/Identity.antt =====
-- shared/identity.py: who is calling, from the claims of an access token. The roles are those that
-- the services test for.
use food_delivery_system.Base.{ℕ, Bool, true, false}

pub data Role : Type 0 where
  customer restaurant driver admin : Role

pub record Identity : Type 0 where
  pub user_id : ℕ
  pub role : Role

-- `user.role == "admin"`
abbrev pub is_admin : Role → Bool
is_admin Role.admin = true
is_admin _ = false
