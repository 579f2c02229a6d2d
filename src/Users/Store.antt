-- ===== src/Users/Store.antt =====
-- The state of a handler of the users service: a database session, and Redis, which no rollback undoes.
use food_delivery_system.Base.{ℕ, Option, ◌∷◌, Action, Session, begin, save}
use food_delivery_system.Shared.OutboxEvent.{Topic, outbox_event}
use food_delivery_system.Users.Models.{User, Payload, UsersDb, Error, user_key}
use food_delivery_system.Users.Redis.{Redis}
use food_delivery_system.Base.{ok}

-- No handler of this service calls another system.
pub data Call : Type 0 where
  no_call : Call

pub record State : Type 0 where
  pub session : Session UsersDb Call
  pub redis : Redis

abbrev pub Act : Type 0 → Type 0
Act A = Action Error State A

abbrev pub get_db : {A : Type 0} → (UsersDb → A) → Act A
get_db f s = (ok (f s.session.current), s)

abbrev pub set_db : (UsersDb → UsersDb) → Act (Unit {0})
set_db f s = (ok tt, record s { session = record s.session { current = f s.session.current } })

-- `session.commit`
abbrev pub commit_db : Act (Unit {0})
commit_db s = (ok tt, record s { session = record s.session { durable = s.session.current } })

-- `session.rollback`
abbrev pub rollback_db : Act (Unit {0})
rollback_db s = (ok tt, record s { session = record s.session { current = s.session.durable } })

abbrev pub read_clock : Act ℕ
read_clock s = (ok s.session.now, s)

abbrev pub get_redis : {A : Type 0} → (Redis → A) → Act A
get_redis f s = (ok (f s.redis), s)

-- A command that Redis carries out at once.
abbrev pub set_redis : (Redis → Redis) → Act (Unit {0})
set_redis f s = (ok tt, record s { redis = f s.redis })

abbrev pub open_at : UsersDb → Redis → ℕ → State
open_at db redis now = record { session = begin db now; redis = redis }

abbrev pub put_user : User → Act (Unit {0})
put_user u = set_db (λ db. record db { users = save user_key u db.users })

-- `outbox.record_event`
abbrev pub record_event : Topic → Option ℕ → Payload → Act (Unit {0})
record_event topic key payload =
    set_db (λ db. record db { outbox = outbox_event topic key payload ∷ db.outbox })
