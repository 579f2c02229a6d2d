-- ===== src/Payments/Signature.antt =====
-- services/payments/app/webhook.py: `_parse` and `verify_signature`. What Python's library does is a
-- parameter: `parts` splits a header at its commas and each part, stripped, at its first `=`; `to_int` is
-- `int`, none where it raises ValueError; `digest` is the hex digest of HMAC-SHA256 over the timestamp, a
-- dot and the payload; `is_ascii` tells the texts that `hmac.compare_digest` takes: it raises TypeError on
-- any other. A secret or a header that is empty counts as absent.
pub mod Laws
use text.Mathlib.Text.{◌==◌ as str_eq}
use food_delivery_system.Base.{
  ℕ, suc, ◌+◌, ◌≤◌, ◌≡◌, refl, Bool, true, false, not, Option, none, some, List, [], ◌∷◌, ◌++◌,
  String, Result, ok, err, ltb, leb, if◌then◌else◌, ◌&&◌,
}

pub data ℤ : Type 0 where
  pos negsuc : ℕ → ℤ

-- `abs(now - timestamp) > tolerance`, negated
abbrev pub is_recent : ℕ → ℕ → ℤ → Bool
is_recent now tolerance (pos t) = leb t (now + tolerance) && leb now (t + tolerance)
is_recent now tolerance (negsuc t) = leb (now + suc t) tolerance

-- The five texts of WebhookError, and what `compare_digest` raises.
pub data SignatureError : Type 0 where
  no_secret no_header malformed_header outside_tolerance mismatch type_error : SignatureError

abbrev pub Parsed : Type 0
Parsed = Option ℤ × List String

module _ (to_int : String → Option ℤ) where
  -- The loop of `_parse`, from what it has read so far.
  unfoldable pub parse_parts : List (String × String) → Parsed → Parsed
  parse_parts [] read = read
  parse_parts ((key, value) ∷ rest) (t, signatures) =
      let timed : Parsed = elim (to_int value) [
        | none ↦ (none, [])
        | some u ↦ parse_parts rest (some u, signatures)
      ] in
      let signed = parse_parts rest (t, signatures ++ (value ∷ [])) in
      let skipped = parse_parts rest (t, signatures) in
      if str_eq key "t" then timed else if str_eq key "v1" then signed else skipped

module _ (is_ascii : String → Bool) where
  -- `if not any(compare_digest(expected, c) for c in signatures): raise`
  unfoldable pub match_any : String → List String → Result SignatureError (Unit {0})
  match_any expected [] = err mismatch
  match_any expected (c ∷ cs) =
      let rest = match_any expected cs in
      if not (is_ascii c) then err type_error else if str_eq expected c then ok tt else rest

abbrev pub is_nil : List String → Bool
is_nil [] = true
is_nil (_ ∷ _) = false

module _ (parts : String → List (String × String)) (to_int : String → Option ℤ)
    (digest : String → ℤ → String → String) (is_ascii : String → Bool) where
  -- `verify_signature` from the parsed header.
  unfoldable pub verify_parsed : String → String → ℕ → ℕ → Parsed → Result SignatureError (Unit {0})
  verify_parsed payload secret now tolerance (none, signatures) = err malformed_header
  verify_parsed payload secret now tolerance (some t, signatures) =
      if is_nil signatures
      then err malformed_header
      else if not (is_recent now tolerance t)
      then err outside_tolerance
      else match_any is_ascii (digest secret t payload) signatures

  unfoldable pub verify_signature :
      String → Option String → Option String → ℕ → ℕ → Result SignatureError (Unit {0})
  verify_signature payload header none now tolerance = err no_secret
  verify_signature payload none (some secret) now tolerance = err no_header
  verify_signature payload (some header) (some secret) now tolerance =
      verify_parsed payload secret now tolerance (parse_parts to_int (parts header) (none, []))
