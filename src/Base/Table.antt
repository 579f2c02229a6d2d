-- ===== src/Base/Table.antt =====
-- A database table as a list of rows, found by a key column. `find` is `session.get`, and `save`
-- writes a row: over the row of its key, or as a new row.
use Prim.Native.Nat.{ℕ}
use mathlib.Core.Path.{◌≡◌, refl, sym, ◌∙◌, subst}
use mathlib.Core.Logic.{inl, inr}
use mathlib.Core.Option.{Option, none, some}
use mathlib.Core.List.{List, [], ◌∷◌}
use native.Mathlib.Omega.{arith}
use food_delivery_system.Base.Tests.{◌==◌, if◌then◌else◌, Bool-cases}
use mathlib.Core.Bool.{Bool, true, false}
use food_delivery_system.Base.Lists.{All, All-map, All-zip, All-select, select}

module _ {ℓ} {A : Type ℓ} (key : A → ℕ) where
  unfoldable pub find : ℕ → List A → Option A
  find k [] = none
  find k (x ∷ xs) = if key x == k then some x else find k xs

  unfoldable pub save : A → List A → List A
  save v [] = v ∷ []
  save v (x ∷ xs) = if key x == key v then v ∷ xs else x ∷ save v xs

module _ {ℓ} {A : Type ℓ} (key : A → ℕ) where
  pub find-save :
      (k : ℕ) (v : A) (rows : List A)
      → find key k (save key v rows) ≡ (if key v == k then some v else find key k rows)
  unfolding find save
  find-save k v [] = refl
  find-save k v (x ∷ xs) = ground (arith, find-save k v xs)

  -- What is found carries the key that was asked for.
  pub find-key : (k : ℕ) (v : A) (rows : List A) → find key k rows ≡ some v → key v ≡ k
  unfolding find
  find-key k v [] e = cc
  find-key k v (x ∷ xs) e = ground (arith, find-key k v xs)

  pub All-find {κ} :
      (P : A → Type κ) (k : ℕ) (v : A) (rows : List A) → All P rows → find key k rows ≡ some v → P v
  unfolding find
  All-find P k v [] h e = cc
  All-find P k v (x ∷ xs) h e = elim (Bool-cases (key x == k)) [
    | inl here ↦ let same : x ≡ v = ground arith in subst P same h.0
    | inr there ↦ All-find P k v xs h.1 (rw there at e)
  ]

  pub All-save {κ} :
      (P : A → Type κ) (v : A) (rows : List A) → All P rows → P v → All P (save key v rows)
  unfolding save
  All-save P v [] h p = (p, tt)
  All-save P v (x ∷ xs) h p = elim (Bool-cases (key x == key v)) [
    | inl here ↦ rw here (p, h.1)
    | inr there ↦ rw there (h.0, All-save P v xs h.1 p)
  ]

  -- A second write of one row covers the first.
  pub save-save :
      (v w : A) (rows : List A) → key v ≡ key w → save key w (save key v rows) ≡ save key w rows
  unfolding save
  save-save v w [] h = ground arith
  save-save v w (x ∷ xs) h = ground (arith, save-save v w xs h)

-- The key is a primary key: no row's key stands in a later row.
abbrev pub IsKeyed {ℓ} : {A : Type ℓ} → (A → ℕ) → List A → Type ℓ
IsKeyed key [] = Unit
IsKeyed key (x ∷ xs) = (find key (key x) xs ≡ none) × IsKeyed key xs

module _ {ℓ} {A : Type ℓ} (key : A → ℕ) where
  pub save-IsKeyed : (v : A) (rows : List A) → IsKeyed key rows → IsKeyed key (save key v rows)
  unfolding find save
  save-IsKeyed v [] h = (refl, tt)
  save-IsKeyed v (x ∷ xs) h = elim (Bool-cases (key x == key v)) [
    | inl here ↦ rw here (ground arith, h.1)
    | inr there ↦ rw there (ground (arith, find-save key (key x) v xs), save-IsKeyed v xs h.1)
  ]

-- `where(p)` of a query, on one row.
abbrev pub keep_if {ℓ} : {A : Type ℓ} → (A → Bool) → Option A → Option A
keep_if p none = none
keep_if p (some v) = if p v then some v else none

module _ {ℓ} {A : Type ℓ} (key : A → ℕ) (p : A → Bool) where
  pub find-select :
      (k : ℕ) (rows : List A)
      → IsKeyed key rows
      → find key k (select p rows) ≡ keep_if p (find key k rows)
  unfolding find
  find-select k [] h = refl
  find-select k (x ∷ xs) h = ground (arith, find-select k xs h.1)

  pub select-IsKeyed : (rows : List A) → IsKeyed key rows → IsKeyed key (select p rows)
  select-IsKeyed [] h = tt
  select-IsKeyed (x ∷ xs) h = elim (Bool-cases (p x)) [
    | inl in_it ↦ rw in_it (ground (arith, find-select (key x) xs h.1), select-IsKeyed xs h.1)
    | inr out ↦ rw out (select-IsKeyed xs h.1)
  ]

module _ {ℓ} {A : Type ℓ} (key : A → ℕ) where
  -- A row of a table is what its key finds.
  pub find-IsKeyed :
      (rows : List A) → IsKeyed key rows → All (λ v. find key (key v) rows ≡ some v) rows
  unfolding find
  find-IsKeyed [] h = tt
  find-IsKeyed (x ∷ xs) h = (ground arith, All-map (λ v e. ground arith) xs (find-IsKeyed xs h.1))

module _ {ℓ} {A : Type ℓ} (key : A → ℕ) (p : A → Bool) where
  pub keep_if-some : (o : Option A) (v : A) → keep_if p o ≡ some v → o ≡ some v
  keep_if-some o v e = ground arith

  -- What a query selects is in the table and passes its test.
  pub select-finds :
      (rows : List A)
      → IsKeyed key rows
      → All (λ v. (find key (key v) rows ≡ some v) × (p v ≡ true)) (select p rows)
  select-finds rows h =
      All-map
        (λ v e. (
          keep_if-some (find key (key v) rows) v (sym (find-select key p (key v) rows h) ∙ e.0),
          e.1,
        ))
        (select p rows)
        (All-zip _ _ (select p rows)
          (find-IsKeyed key (select p rows) (select-IsKeyed key p rows h)) (All-select p rows))

-- A column beside the key that is unique as well, through a write.
module _ {ℓ} {A : Type ℓ} (key other : A → ℕ) where
  find-save-other :
      (k : ℕ) (v : A) (rows : List A)
      → find other k rows ≡ none
      → (other v == k) ≡ false
      → find other k (save key v rows) ≡ none
  unfolding find save
  find-save-other k v [] e d = ground arith
  find-save-other k v (x ∷ xs) e d = ground (arith, find-save-other k v xs, e, d)

  -- A row whose value no row has.
  pub save-IsKeyed_new :
      (v : A) (rows : List A)
      → IsKeyed other rows
      → find other (other v) rows ≡ none
      → IsKeyed other (save key v rows)
  unfolding find save
  save-IsKeyed_new v [] h e = (refl, tt)
  save-IsKeyed_new v (x ∷ xs) h e = elim (Bool-cases (key x == key v)) [
    | inl here ↦ rw here (ground (arith, e), h.1)
    | inr there ↦ rw there (
      find-save-other (other x) v xs h.0 (ground (arith, e)),
      save-IsKeyed_new v xs h.1 (ground (arith, e)),
    )
  ]

  find-differs :
      (k o : ℕ) (r : A) (rows : List A)
      → find key k rows ≡ some r
      → find other o rows ≡ none
      → (other r == o) ≡ false
  unfolding find
  find-differs k o r [] e f = cc
  find-differs k o r (x ∷ xs) e f = ground (arith, find-differs k o r xs, e, f)

  -- A row that keeps the value of the row it covers.
  pub save-IsKeyed_kept :
      (v r : A) (rows : List A)
      → IsKeyed other rows
      → find key (key v) rows ≡ some r
      → other r ≡ other v
      → IsKeyed other (save key v rows)
  unfolding find save
  save-IsKeyed_kept v r [] h e d = cc
  save-IsKeyed_kept v r (x ∷ xs) h e d = elim (Bool-cases (key x == key v)) [
    | inl here ↦ rw here (ground (arith, here, e, d, h.0), h.1)
    | inr there ↦
        let later : find key (key v) xs ≡ some r = ground (arith, there, e) in
        rw there (
          find-save-other (other x) v xs h.0
              (ground (arith, d, find-differs (key v) (other x) r xs later h.0)),
          save-IsKeyed_kept v r xs h.1 later d,
        )
  ]
