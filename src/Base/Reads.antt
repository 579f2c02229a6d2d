-- ===== src/Base/Reads.antt =====
-- A handler whose first part only reads the state.
use mathlib.Core.Path.{◌≡◌, refl, sym, subst}
use native.Mathlib.Omega.{arith}
use food_delivery_system.Base.Transactions.{Result, ok, err, Action, ◌>>=◌}

module _ {E S : Type 0} where
  -- What comes after a result, in the state that it left.
  abbrev continue : {A B : Type 0} → (A → Action E S B) → Result E A × S → Result E B × S
  continue k r = elim r.0 [ ok a ↦ k a r.1 | err e ↦ (err e, r.1) ]

  after_result :
      {A B : Type 0} (P : S → Type 0) (k : A → Action E S B) (s : S) (r : Result E A × S)
      → r.1 ≡ s
      → P s
      → ((a : A) → r.0 ≡ ok a → P (k a s).1)
      → P (continue k r).1
  after_result P k s (ok a, s') same here later = subst (λ x. P (k a x).1) (sym same) (later a refl)
  after_result P k s (err e, s') same here later = subst P (sym same) here

  -- After an action that only reads, what holds of the state as it was and of what follows a success.
  pub after_read :
      {A B : Type 0} (P : S → Type 0) (m : Action E S A) (k : A → Action E S B) (s : S)
      → (m s).1 ≡ s
      → P s
      → ((a : A) → (m s).0 ≡ ok a → P (k a s).1)
      → P ((m >>= k) s).1
  after_read P m k s = after_result P k s (m s)

  result_ok :
      {A B : Type 0} (k : A → Action E S B) (s : S) (r : Result E A × S) (a : A)
      → r.1 ≡ s
      → r.0 ≡ ok a
      → continue k r ≡ k a s
  result_ok k s (ok b, t) a same won = ground (arith, same, won)
  result_ok k s (err e, t) a same won = cc

  -- After an action that only reads and succeeds, what follows runs on the state as it was.
  pub read_ok :
      {A B : Type 0} (m : Action E S A) (k : A → Action E S B) (s : S) (a : A)
      → (m s).1 ≡ s
      → (m s).0 ≡ ok a
      → (m >>= k) s ≡ k a s
  read_ok m k s a = result_ok k s (m s) a

  result_keeps :
      {A B : Type 0} (P : S → Type 0) (k : A → Action E S B) (r : Result E A × S)
      → P r.1
      → ((a : A) (t : S) → P t → P (k a t).1)
      → P (continue k r).1
  result_keeps P k (ok a, t) here later = later a t here
  result_keeps P k (err e, t) here later = here

  -- What an action leaves true, and what follows keeps true.
  pub bind_keeps :
      {A B : Type 0} (P : S → Type 0) (m : Action E S A) (k : A → Action E S B) (s : S)
      → P (m s).1
      → ((a : A) (t : S) → P t → P (k a t).1)
      → P ((m >>= k) s).1
  bind_keeps P m k s = result_keeps P k (m s)
