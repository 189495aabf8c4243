-- ===== src/Approvals.antt =====
-- aisecure/approvals.py: approvals that an external identity service has signed. A file is what
-- `read_json` made of it, or `none` where reading raised.
pub mod Claims
pub mod Verified
use aisecure.Prelude.{
  ℕ, ◌+◌, ◌%◌, ◌-◌, String, List, [], ◌∷◌, Option, none, some, Bool, true, false, ◌&&◌, ◌||◌, not,
  ◌==◌, ltb, leb, eqb, all, length, lookup, put, text_eq, if◌then◌else◌,
}
use Prim.Native.String.{◌++◌ as text_append}
use aisecure.Result.{Result, ok, err, validation, type_error, require, refuse, ◌>>=◌, ◌>>◌}
use aisecure.Json.{
  Value, Fields, pos, finite, null, bool, int, float, str, arr, obj, end, field, get, at_key,
}
use aisecure.Text.{codes, text_length, length_within, has_control}
use aisecure.Platform.{Platform, Bytes}
use aisecure.Rules.{one}
use aisecure.Schema.{alphanumeric, identifier, object_keys, parse_time}
use aisecure.Store.Approvals.{holds}

-- `[A-Za-z0-9_-]`
abbrev url_char : ℕ → Bool
url_char c = alphanumeric c || eqb c 95 || eqb c 45

-- `"=" * (-n % 4)`
abbrev padding : ℕ → String
padding n = if eqb n 0 then "" else if eqb n 1 then "===" else if eqb n 2 then "==" else "="

unfoldable pub of_length : ℕ → Option Bytes → Result Bytes
of_length n none = err validation
of_length n (some raw) = if eqb (length raw) n then ok raw else err validation

-- what `v == 1` tests
unfoldable pub equals_one : Option Value → Bool
equals_one (some (int (pos n))) = eqb n 1
equals_one (some (bool b)) = b
equals_one (some (float (finite (pos k)))) = eqb k one
equals_one _ = false

-- a text of so many characters, none of them a control character
unfoldable pub plain_text : ℕ → ℕ → Option Value → Bool
plain_text low high (some (str s)) = length_within low high s && not (has_control s)
plain_text low high _ = false

-- `payload["role"] not in ROLES`; a value that cannot be hashed makes it raise TypeError
unfoldable pub known_role : Option Value → Result (Unit {0})
known_role (some (str s)) = require (s == "primary" || s == "secondary") validation
known_role (some (arr xs)) = err type_error
known_role (some (obj fs)) = err type_error
known_role _ = err validation

unfoldable pub known_action : Option Value → Bool
known_action (some (str s)) =
    s == "revoke_session" || s == "restrict_remote_access" || s == "review_evidence"
known_action _ = false

-- the window of an approval, in microseconds
unfoldable pub in_window : ℕ → ℕ → ℕ → Bool
in_window now issued expires =
    not (ltb (issued + 300000000) now)
    && leb issued (now + 120000000)
    && ltb now expires
    && leb expires (issued + 900000000)

-- the key of the approver that a claim names
abbrev pub key_of : List (String × Bytes) → Option Value → Option Bytes
key_of keys (some (str s)) = lookup s keys
key_of keys _ = none

-- the text at a key, where the check of the claim has found one
abbrev pub text_of : Option Value → String
text_of (some (str s)) = s
text_of _ = ""

abbrev pub text_at : String → Fields → String
text_at k fs = text_of (get k fs)

abbrev pub claim_keys : List String
claim_keys =
    "schema_version" ∷ "proposal_id" ∷ "snapshot_id" ∷ "action" ∷ "approver" ∷ "role" ∷ "decision"
    ∷ "issued_at" ∷ "expires_at" ∷ "nonce" ∷ []

abbrev operator_fits : String → Bool
operator_fits operator = length_within 1 120 operator && not (has_control operator)

module _ (os : Platform) where
  -- `_b64url`
  unfoldable pub b64url : ℕ → Value → Result Bytes
  b64url n (str s) =
      if length_within 1 512 s && all url_char (codes s)
      then of_length n (os.urlsafe_b64decode (text_append s (padding (text_length s % 4))))
      else err validation
  b64url n _ = err validation

  -- the loop of `load_public_keys`
  unfoldable pub keys_of : List (String × Bytes) → Fields → Result (List (String × Bytes))
  keys_of keys end = ok keys
  keys_of keys (field operator encoded fs) = do
    require (operator_fits operator) validation
    key ← b64url 32 encoded
    keys_of (put operator key keys) fs

  abbrev pub field_count : Fields → ℕ
  field_count end = 0
  field_count (field k v fs) = 1 + field_count fs

  unfoldable pub load_public_keys : Option Value → Result (List (String × Bytes))
  load_public_keys (some (obj fs)) = do
    require (leb 1 (field_count fs) && leb (field_count fs) 1000) validation
    keys_of [] fs
  load_public_keys _ = err validation

  module _ (pid sid : String) where
    -- `_validate_claim`, at the time now
    unfoldable pub validate_claim : ℕ → Value → Result Fields
    validate_claim now payload = do
      fs ← object_keys claim_keys [] payload
      require (equals_one (get "schema_version" fs) && holds "approve" (get "decision" fs))
          validation
      known_role (get "role" fs)
      require (holds pid (get "proposal_id" fs) && holds sid (get "snapshot_id" fs)) validation
      _ ← identifier (at_key "proposal_id" fs)
      _ ← identifier (at_key "snapshot_id" fs)
      require (known_action (get "action" fs)) validation
      require (plain_text 1 120 (get "approver" fs)) validation
      require (plain_text 16 256 (get "nonce" fs)) validation
      issued ← parse_time os (at_key "issued_at" fs)
      expires ← parse_time os (at_key "expires_at" fs)
      require (in_window now issued expires) validation
      ok fs

    -- `Ed25519PublicKey.verify` under the approver's key
    unfoldable pub signed : Option Bytes → Bytes → Fields → Result Fields
    signed none signature claim = err validation
    signed (some key) signature claim =
        if os.ed25519 key signature (os.dumps (obj claim)) then ok claim else err validation

    abbrev pub key_known : Option Bytes → Bool
    key_known none = false
    key_known (some key) = true

    unfoldable pub verify_approval :
        List (String × Bytes) → String → ℕ → Option Value → Result Fields
    verify_approval keys role now none = err validation
    verify_approval keys role now (some document) = do
      require (role == "primary" || role == "secondary") validation
      fs ← object_keys ("payload" ∷ "signature" ∷ []) [] document
      claim ← validate_claim now (at_key "payload" fs)
      require (holds role (get "role" claim) && key_known (key_of keys (get "approver" claim)))
          validation
      signature ← b64url 64 (at_key "signature" fs)
      signed (key_of keys (get "approver" claim)) signature claim

    -- `verify_pair`; the clock answers twice
    unfoldable pub verify_pair :
        ℕ → ℕ → Option Value → Option Value → Option Value → Result (Fields × Fields)
    verify_pair now soon primary_file secondary_file keys_file = do
      keys ← load_public_keys keys_file
      primary ← verify_approval keys "primary" now primary_file
      secondary ← verify_approval keys "secondary" soon secondary_file
      refuse (text_at "approver" primary == text_at "approver" secondary) validation
      refuse (not (text_at "action" primary == text_at "action" secondary)) validation
      ok (primary, secondary)
