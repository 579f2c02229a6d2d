-- ===== src/Shared/Relay.antt =====
-- shared/outbox.py, `drain`: one batch of the unpublished rows, in the order of their ids. Whether a
-- publish succeeds is a function of the row here; a row that fails stays for the next round.
use Prim.Native.Nat.{◌-◌}
use food_delivery_system.Base.{
  ℕ, suc, ◌+◌, ◌≡◌, refl, Bool, true, false, not, map, Option, none, some, List, [], ◌∷◌, select,
  count_if, ltb, if◌then◌else◌, ◌&&◌, ◌==◌, arith, Option-cases, Bool-cases, inl, inr,
}
use food_delivery_system.Shared.OutboxEvent.{OutboxEvent, Topic}

module _ {Payload : Type 0} where
  -- `published_at.is_(None)`
  abbrev pub is_unpublished : OutboxEvent Payload → Bool
  is_unpublished e = elim e.published_at [ none ↦ true | some _ ↦ false ]

  module _ (send : OutboxEvent Payload → Bool) (now : ℕ) where
    -- the loop body of `drain`
    abbrev pub publish : OutboxEvent Payload → OutboxEvent Payload
    publish e =
        if send e
        then record e { published_at = some now }
        else record e { attempts = e.attempts + 1 }

    -- The rows afterwards, and how many went out.
    unfoldable pub drain : ℕ → List (OutboxEvent Payload) → List (OutboxEvent Payload) × ℕ
    drain batch_size [] = ([], 0)
    drain batch_size (e ∷ es) =
        let in_batch = is_unpublished e && ltb 0 batch_size in
        let rest = drain (if in_batch then batch_size - 1 else batch_size) es in
        if in_batch
        then (publish e ∷ rest.0, if send e then suc rest.1 else rest.1)
        else (e ∷ rest.0, rest.1)

  -- The first elements of a list, and those after them.
  abbrev pub take : ℕ → List (OutboxEvent Payload) → List (OutboxEvent Payload)
  take n [] = []
  take n (e ∷ es) = let rest = take (n - 1) es in if ltb 0 n then e ∷ rest else []

  abbrev pub skip : ℕ → List (OutboxEvent Payload) → List (OutboxEvent Payload)
  skip n [] = []
  skip n (e ∷ es) = let rest = skip (n - 1) es in if ltb 0 n then rest else e ∷ es

  take-empty : (n : ℕ) (es : List (OutboxEvent Payload)) → ltb 0 n ≡ false → take n es ≡ []
  take-empty n [] h = refl
  take-empty n (e ∷ es) h = ground arith

  skip-empty : (n : ℕ) (es : List (OutboxEvent Payload)) → ltb 0 n ≡ false → skip n es ≡ es
  skip-empty n [] h = refl
  skip-empty n (e ∷ es) h = ground arith

  abbrev pub join :
      List (OutboxEvent Payload) → List (OutboxEvent Payload) → List (OutboxEvent Payload)
  join [] fs = fs
  join (e ∷ es) fs = e ∷ join es fs

  -- A row after an attempt that failed.
  abbrev pub tried_again : OutboxEvent Payload → OutboxEvent Payload
  tried_again e = record e { attempts = e.attempts + 1 }

  -- `published_at` is a time.
  abbrev pub is_sent_at : ℕ → OutboxEvent Payload → Bool
  is_sent_at t e = elim e.published_at [ none ↦ false | some u ↦ u == t ]

  -- What no round changes of a row.
  abbrev pub content : OutboxEvent Payload → Topic × Option ℕ × Payload
  content e = (e.topic, e.key, e.payload)

  module _ (send : OutboxEvent Payload → Bool) (now : ℕ) where
    -- A round takes the oldest unpublished rows, up to the size of a batch. Those of them whose publish
    -- fails stay unpublished with one more attempt, before the rows behind the batch, which stay as they
    -- are: so exactly those whose publish succeeds are marked, and their number is returned. No row is
    -- lost, moved or changed in what it says, and only those that were sent get the time of the round.
    pub drain-published :
        (n : ℕ) (rows : List (OutboxEvent Payload))
        → let (after, sent) = drain send now n rows in
          let backlog = select is_unpublished rows in
          (select is_unpublished after
            ≡ join (map tried_again (select (λ e. not (send e)) (take n backlog))) (skip n backlog))
          × (sent ≡ count_if send (take n backlog))
          × (map content after ≡ map content rows)
          × ((t : ℕ)
              → count_if (is_sent_at t) after
                ≡ count_if (is_sent_at t) rows + (if now == t then sent else 0))
    unfolding drain
    drain-published n [] = (refl, refl, refl, λ t. ground arith)
    drain-published n (e ∷ es) =
        let same = drain-published n es in
        let less = drain-published (n - 1) es in
        elim (Option-cases e.published_at) [
          | inr (t, p) ↦ (
            ground (arith, p, same.0),
            ground (arith, p, same.1),
            ground (arith, p, same.2),
            λ t. ground (arith, p, same.3 t),
          )
          | inl p ↦ elim (Bool-cases (ltb 0 n)) [
            | inr full ↦ (
              ground (
                arith,
                p,
                same.0,
                take-empty n (select is_unpublished es) full,
                skip-empty n (select is_unpublished es) full,
              ),
              ground (arith, p, same.1, take-empty n (select is_unpublished es) full),
              ground (arith, p, same.2),
              λ t. ground (arith, p, same.3 t),
            )
            | inl room ↦ (
              ground (arith, p, room, less.0),
              ground (arith, p, room, less.1),
              ground (arith, p, room, less.2),
              λ t. ground (arith, p, room, less.3 t),
            )
          ]
        ]
