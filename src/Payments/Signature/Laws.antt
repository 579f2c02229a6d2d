-- ===== src/Payments/Signature/Laws.antt =====
-- What a signature that is accepted shows, and which are accepted.
use text.Mathlib.Text.{◌==◌ as str_eq}
use food_delivery_system.Base.{
  ℕ, ◌≡◌, refl, Bool, true, false, Option, none, some, List, [], ◌∷◌, String, ok, All, Bool-cases,
  inl, inr, ◌||◌, arith,
}
use food_delivery_system.Payments.Signature.{
  ℤ, is_recent, Parsed, parse_parts, match_any, verify_parsed, verify_signature,
}

-- A text stands in a list.
unfoldable pub is_listed : String → List String → Bool
is_listed t [] = false
is_listed t (x ∷ xs) = str_eq t x || is_listed t xs

match_any-listed :
    (is_ascii : String → Bool) (e : String) (cs : List String)
    → match_any is_ascii e cs ≡ ok tt
    → is_listed e cs ≡ true
unfolding match_any is_listed
match_any-listed is_ascii e [] h = ground arith
match_any-listed is_ascii e (c ∷ cs) h = elim (Bool-cases (str_eq e c)) [
  | inl same ↦ ground (arith, same)
  | inr other ↦ ground (arith, other, match_any-listed is_ascii e cs)
]

match_any-finds :
    (is_ascii : String → Bool) (e : String) (cs : List String)
    → All (λ c. is_ascii c ≡ true) cs
    → is_listed e cs ≡ true
    → match_any is_ascii e cs ≡ ok tt
unfolding match_any is_listed
match_any-finds is_ascii e [] a h = ground arith
match_any-finds is_ascii e (c ∷ cs) a h = elim (Bool-cases (str_eq e c)) [
  | inl same ↦ ground (arith, same, a.0)
  | inr other ↦ ground (arith, other, a.0, match_any-finds is_ascii e cs a.1)
]

module _ (parts : String → List (String × String)) (to_int : String → Option ℤ)
    (digest : String → ℤ → String → String) (is_ascii : String → Bool)
    (payload header secret : String) (now tolerance : ℕ) where
  parsed_sound :
      (read : Parsed)
      → verify_parsed parts to_int digest is_ascii payload secret now tolerance read ≡ ok tt
      → (t : ℤ) × (read.0 ≡ some t)
        × (is_recent now tolerance t ≡ true)
        × (is_listed (digest secret t payload) read.1 ≡ true)
  unfolding verify_parsed
  parsed_sound (none, signatures) h = cc
  parsed_sound (some t, signatures) h = (
    t,
    refl,
    ground arith,
    match_any-listed is_ascii (digest secret t payload) signatures (ground arith),
  )

  -- An accepted request carries a timestamp within the tolerance of the clock, and among its signatures the
  -- digest of that timestamp and this payload under the secret.
  pub verify_signature_sound :
      verify_signature parts to_int digest is_ascii payload
          (some header)
          (some secret)
          now
          tolerance
        ≡ ok tt
      → let (timestamp, signatures) = parse_parts to_int (parts header) (none, []) in
        (t : ℤ) × (timestamp ≡ some t)
        × (is_recent now tolerance t ≡ true)
        × (is_listed (digest secret t payload) signatures ≡ true)
  unfolding verify_signature
  verify_signature_sound h = parsed_sound (parse_parts to_int (parts header) (none, [])) h

  -- A header of ASCII signatures is accepted as soon as its timestamp is within the tolerance and one of
  -- its signatures is the digest under the secret, wherever it stands among them.
  pub verify_signature_complete :
      (t : ℤ) (signatures : List String)
      → parse_parts to_int (parts header) (none, []) ≡ (some t, signatures)
      → is_recent now tolerance t ≡ true
      → All (λ c. is_ascii c ≡ true) signatures
      → is_listed (digest secret t payload) signatures ≡ true
      → verify_signature parts to_int digest is_ascii payload
          (some header)
          (some secret)
          now
          tolerance
        ≡ ok tt
  unfolding verify_signature verify_parsed is_listed
  verify_signature_complete t signatures read recent ascii listed = ground (
    arith,
    read,
    recent,
    listed,
    match_any-finds is_ascii (digest secret t payload) signatures ascii listed,
  )
