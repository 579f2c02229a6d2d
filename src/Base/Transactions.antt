-- ===== src/Base/Transactions.antt =====
-- A database session of SQLAlchemy. A handler reads and writes `current`; only `commit` moves it to
-- `durable`, and what is in `current` when the handler ends is dropped. `sent` are the calls made to
-- other systems, newest first: they are not undone by a rollback.
use Prim.Native.Nat.{ℕ}
use mathlib.Core.Path.{◌≡◌, refl}
use mathlib.Core.Logic.{◌⊎◌, inl, inr}
use mathlib.Core.Bool.{Bool, true, false}
use mathlib.Core.Option.{Option, none, some}
use mathlib.Core.List.{List, [], ◌∷◌}

pub data Result (E : Type 0) (A : Type 0) : Type 0 where
  ok : A → Result E A
  err : E → Result E A

pub Result-cases :
    {E A : Type 0} (r : Result E A) → ((a : A) × (r ≡ ok a)) ⊎ ((e : E) × (r ≡ err e))
Result-cases (ok a) = inl (a, refl)
Result-cases (err e) = inr (e, refl)

pub record Session (Db Call : Type 0) : Type 0 where
  pub current : Db
  pub durable : Db
  pub now : ℕ
  pub sent : List Call

abbrev pub Action : Type 0 → Type 0 → Type 0 → Type 0
Action E S A = S → Result E A × S

module _ {E S : Type 0} where
  abbrev pub pure : {A : Type 0} → A → Action E S A
  pure a s = (ok a, s)

  abbrev pub raise : {A : Type 0} → E → Action E S A
  raise e s = (err e, s)

  infixl 5 ◌>>=◌ ◌>>◌
  abbrev pub ◌>>=◌ : {A B : Type 0} → Action E S A → (A → Action E S B) → Action E S B
  ◌>>=◌ m f s = let (r, s') = m s in elim r [ ok a ↦ f a s' | err e ↦ (err e, s') ]

  abbrev pub ◌>>◌ : {A B : Type 0} → Action E S A → Action E S B → Action E S B
  m >> k = m >>= λ _. k

  abbrev pub raise_if : Bool → E → Action E S (Unit {0})
  raise_if true e = raise e
  raise_if false e = pure tt

  -- `if test: action`
  abbrev pub when : Bool → Action E S (Unit {0}) → Action E S (Unit {0})
  when true m = m
  when false m = pure tt

  -- `if x is None: raise e`
  abbrev pub or_raise : {A : Type 0} → Option A → E → Action E S A
  or_raise none e = raise e
  or_raise (some a) e = pure a

  -- `for x in xs: body(x)`
  unfoldable pub for_each :
      {A : Type 0} → (A → Action E S (Unit {0})) → List A → Action E S (Unit {0})
  for_each body [] = pure tt
  for_each body (x ∷ xs) = body x >> for_each body xs

module _ {E Db Call : Type 0} where
  abbrev pub gets : {A : Type 0} → (Db → A) → Action E (Session Db Call) A
  gets f s = (ok (f s.current), s)

  abbrev pub modify : (Db → Db) → Action E (Session Db Call) (Unit {0})
  modify f s = (ok tt, record s { current = f s.current })

  abbrev pub get_now : Action E (Session Db Call) ℕ
  get_now s = (ok s.now, s)

  abbrev pub send : Call → Action E (Session Db Call) (Unit {0})
  send c s = (ok tt, record s { sent = c ∷ s.sent })

  abbrev pub commit : Action E (Session Db Call) (Unit {0})
  commit s = (ok tt, record s { durable = s.current })

  abbrev pub rollback : Action E (Session Db Call) (Unit {0})
  rollback s = (ok tt, record s { current = s.durable })

module _ {Db Call : Type 0} where
  -- A session that has written nothing yet, and has sent some calls.
  abbrev pub opened : Db → ℕ → List Call → Session Db Call
  opened db now sent = record { current = db; durable = db; now = now; sent = sent }

  -- A session that opens on a database at a time.
  abbrev pub begin : Db → ℕ → Session Db Call
  begin db now = opened db now []
