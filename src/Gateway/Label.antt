-- ===== src/Gateway/Label.antt =====
-- `wire_body`, `valid_text`, `unb64` and `verify_label` of aisecure/gateway.py.
pub mod Signed
use aisecure.Prelude.{
  ℕ, suc, ◌+◌, ◌%◌, String, List, [], ◌∷◌, Option, none, some, Bool, true, false, ◌&&◌, ◌||◌, ◌==◌,
  ltb, leb, eqb, all, length, mem, if◌then◌else◌,
}
use Prim.Native.String.{◌++◌ as text_append}
use aisecure.Result.{Result, ok, err, gateway, require, refuse, ◌>>=◌, ◌>>◌}
use aisecure.Json.{
  Value, Fields, pos, negsuc, int, arr, obj, end, field, items, fields, num, str, bool, get,
  is_text,
}
use aisecure.Text.{codes, strip, text_length, length_within}
use aisecure.Preflight.{
  DataClass, public, internal, confidential, restricted, unknown, byte_length, max_text_bytes,
}
use aisecure.Platform.{Platform, Bytes}

abbrev pub endpoint : String
endpoint = "https://api.openai.com/v1/responses"

-- `[a-f0-9]{32}`
hex_digit : ℕ → Bool
hex_digit c = (leb 97 c && leb c 102) || (leb 48 c && leb c 57)

unfoldable pub is_request_id : String → Bool
unfolding hex_digit
is_request_id s = eqb (text_length s) 32 && all hex_digit (codes s)

unfoldable pub valid_text : String → String → Result (Unit {0})
valid_text text rid = do
  require (is_request_id rid) gateway
  refuse (strip text == "") gateway
  refuse (ltb max_text_bytes (byte_length (codes text))) gateway

-- `[A-Za-z0-9_-]{1,100}`
base64_char : ℕ → Bool
base64_char c =
    (leb 65 c && leb c 90)
    || (leb 97 c && leb c 122)
    || (leb 48 c && leb c 57)
    || eqb c 95
    || eqb c 45

-- `'=' * (-len(value) % 4)`
padding : ℕ → String
padding n = if eqb n 1 then "===" else if eqb n 2 then "==" else if eqb n 3 then "=" else ""

abbrev has_length : ℕ → Option Bytes → Result Bytes
has_length n none = err gateway
has_length n (some raw) = if eqb (length raw) n then ok raw else err gateway

abbrev class_of : Option Value → Option DataClass
class_of (some (str s)) =
    if s == "public"
    then some public
    else if s == "internal"
    then some internal
    else if s == "confidential"
    then some confidential
    else if s == "restricted"
    then some restricted
    else none
class_of _ = none

-- `not now - 300 <= issued <= now + 15` and `not now < expires <= issued + 300`, for integers
abbrev in_time : ℕ → Option Value → Option Value → Bool
in_time now (some (int (pos issued))) (some (int (pos expires))) =
    leb now (issued + 300) && leb issued (now + 15) && ltb now expires && leb expires (issued + 300)
in_time now (some (int (negsuc k))) (some (int (pos expires))) =
    leb (now + suc k) 300 && ltb now expires && leb (expires + suc k) 300
in_time now _ _ = false

-- `set(value) == names`: every key is a name, and every name is a key
abbrev known : List String → Fields → Bool
known names end = true
known names (field k v fs) = mem k names && known names fs

abbrev is_given : Option Value → Bool
is_given none = false
is_given (some v) = true

abbrev pub has_keys : List String → Fields → Bool
has_keys names fs = known names fs && all (λ k. is_given (get k fs)) names

abbrev claim_names : List String
claim_names =
    "request_id" ∷ "sha256" ∷ "model" ∷ "endpoint" ∷ "policy" ∷ "data_class" ∷ "issued_at"
    ∷ "expires_at" ∷ []

module _ (os : Platform) where
  -- `unb64`
  unfoldable pub unb64 : Option Value → ℕ → Result Bytes
  unfolding base64_char padding
  unb64 (some (str value)) n =
      if length_within 1 100 value && all base64_char (codes value)
      then has_length n (os.b64decode (text_append value (padding (text_length value % 4))))
      else err gateway
  unb64 _ n = err gateway

  -- `wire_body`
  unfoldable pub wire_body : String → String → String
  wire_body text model = os.dumps (
      obj (
        fields (
          ("model", str model)
          ∷ ("input", str text)
          ∷ ("store", bool false)
          ∷ ("stream", bool false)
          ∷ ("tools", arr (items []))
          ∷ ("max_output_tokens", num 512)
          ∷ [])))

  module _ (public_key : Bytes) (text rid model : String) (now : ℕ) where
    -- the claim names this request, its exact wire body, the model, the endpoint and the policy
    unfoldable pub bound : Fields → Bool
    bound claim =
        is_text rid (get "request_id" claim)
        && is_text (os.sha256 (wire_body text model)) (get "sha256" claim)
        && is_text model (get "model" claim)
        && is_text endpoint (get "endpoint" claim)
        && is_text "managed-text-v1" (get "policy" claim)

    or_gateway : Option DataClass → Result DataClass
    or_gateway none = err gateway
    or_gateway (some c) = ok c

    check_claim : Fields → Fields → Result DataClass
    unfolding or_gateway
    check_claim label claim = do
      require (has_keys claim_names claim) gateway
      require (bound claim) gateway
      class ← or_gateway (class_of (get "data_class" claim))
      require (in_time now (get "issued_at" claim) (get "expires_at" claim)) gateway
      signature ← unb64 (get "signature" label) 64
      require (os.ed25519 public_key signature (os.dumps (obj claim))) gateway
      ok class

    claim_of : Fields → Option Value → Result DataClass
    claim_of label (some (obj claim)) = check_claim label claim
    claim_of label _ = err gateway

    -- `verify_label`
    unfoldable pub verify_label : Option Value → Result DataClass
    unfolding check_claim claim_of
    verify_label none = ok unknown
    verify_label (some (obj label)) = do
      require (has_keys ("claim" ∷ "signature" ∷ []) label) gateway
      claim_of label (get "claim" label)
    verify_label (some _) = err gateway
