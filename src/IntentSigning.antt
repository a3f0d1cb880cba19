-- ===== src/IntentSigning.antt =====
-- src/beam_agents/intent_signing.py, `verify_intent`. The HMAC-SHA256 of an intent's signing input
-- under a key is the parameter `digest`, and the keyring a table from the key's identifier.
use beam_agents.Base.{
  ◌≡◌, refl, String, true, false, Option, none, some, [], is_empty, bytes_eq, bytes_eq_refl,
  eq_of_bytes_eq, Bool-cases, inl, inr, if◌then◌else◌, arith,
}
use beam_agents.Wire.{Bytes, ToolIntent, SignatureScheme, hmac_sha256}

pub data VerificationResult : Type 0 where
  ok unsigned bad_signature unknown_signing_key : VerificationResult

-- the values of the enumeration
unfoldable pub reason_of : VerificationResult → String
reason_of ok = "ok"
reason_of unsigned = "unsigned_intent"
reason_of bad_signature = "bad_signature"
reason_of unknown_signing_key = "unknown_signing_key"

-- the intent with its `_SIGNATURE_FIELDS` cleared
unfoldable pub cleared : ToolIntent → ToolIntent
cleared intent = record intent {
  signature_scheme = SignatureScheme.scheme_unspecified;
  signing_key_id = "";
  signature = [];
}

module _ (hmac : (key message : Bytes) → Bytes) (serialize : ToolIntent → Bytes) where
  -- `signing_input`
  unfoldable pub signing_input : ToolIntent → Bytes
  unfolding cleared
  signing_input intent = serialize (cleared intent)

  -- `sign_intent`
  unfoldable pub sign_intent : (key_id : String) → (key : Bytes) → ToolIntent → ToolIntent
  unfolding signing_input
  sign_intent key_id key intent = record intent {
    signature_scheme = hmac_sha256;
    signing_key_id = key_id;
    signature = hmac key (signing_input intent);
  }

  -- the comparison under the key that the intent names
  unfoldable pub compare_under : ToolIntent → Option Bytes → VerificationResult
  unfolding signing_input
  compare_under intent none = unknown_signing_key
  compare_under intent (some key) =
      if bytes_eq (hmac key (signing_input intent)) intent.signature then ok else bad_signature

  module _ (keyring : String → Option Bytes) where
    unfoldable pub checked : ToolIntent → SignatureScheme → VerificationResult
    unfolding compare_under
    checked intent SignatureScheme.scheme_unspecified = bad_signature
    checked intent hmac_sha256 = compare_under intent (keyring intent.signing_key_id)

    -- `verify_intent`
    unfoldable pub verify_intent : ToolIntent → VerificationResult
    unfolding checked
    verify_intent intent =
        if is_empty intent.signature then unsigned else checked intent intent.signature_scheme

    -- A signed intent verifies under a keyring that holds its key, when the HMAC is not empty.
    pub verify-sign :
        (key_id : String) (key : Bytes) (intent : ToolIntent)
        → keyring key_id ≡ some key
        → is_empty (hmac key (signing_input intent)) ≡ false
        → verify_intent (sign_intent key_id key intent) ≡ ok
    unfolding verify_intent sign_intent cleared
    verify-sign key_id key intent held nonempty =
        rw (nonempty, held, compare_under, bytes_eq_refl (hmac key (signing_input intent))) refl

    compare_sound :
        (intent : ToolIntent) (o : Option Bytes)
        → compare_under intent o ≡ ok
        → (key : Bytes) × (o ≡ some key) × (hmac key (signing_input intent) ≡ intent.signature)
    unfolding compare_under
    compare_sound intent none e = cc
    compare_sound intent (some key) e =
        elim (Bool-cases (bytes_eq (hmac key (signing_input intent)) intent.signature)) [
          | inl same ↦ (key, refl, eq_of_bytes_eq _ _ same)
          | inr other ↦ ground (arith, e, other)
        ]

    checked_sound :
        (intent : ToolIntent) (scheme : SignatureScheme)
        → checked intent scheme ≡ ok
        → (key : Bytes) × (keyring intent.signing_key_id ≡ some key)
          × (scheme ≡ hmac_sha256)
          × (hmac key (signing_input intent) ≡ intent.signature)
    unfolding checked
    checked_sound intent SignatureScheme.scheme_unspecified e = cc
    checked_sound intent hmac_sha256 e =
        let (key, named, matches) = compare_sound intent (keyring intent.signing_key_id) e in
        (key, named, refl, matches)

    bare_refused :
        (intent : ToolIntent)
        → is_empty intent.signature ≡ true
        → verify_intent intent ≡ ok
        → (key : Bytes) × (keyring intent.signing_key_id ≡ some key)
          × (intent.signature_scheme ≡ hmac_sha256)
          × (hmac key (signing_input intent) ≡ intent.signature)
    unfolding verify_intent
    bare_refused intent bare e = ground (arith, e, bare)

    -- An intent that verifies carries the HMAC of its own signing input, under the key that the
    -- keyring holds for the identifier that it names.
    pub verify_sound :
        (intent : ToolIntent)
        → verify_intent intent ≡ ok
        → (key : Bytes) × (keyring intent.signing_key_id ≡ some key)
          × (intent.signature_scheme ≡ hmac_sha256)
          × (hmac key (signing_input intent) ≡ intent.signature)
    unfolding verify_intent
    verify_sound intent e = elim (Bool-cases (is_empty intent.signature)) [
      | inl bare ↦ bare_refused intent bare e
      | inr signed ↦ checked_sound intent intent.signature_scheme (rw signed at e)
    ]
