-- ===== src/AuditSink.antt =====
-- aisecure/audit_sink.py: the count and the tip of the audit chain are published to a separate
-- service, which must repeat both. The network answers the one request of a call.
pub mod Acknowledged
pub mod Checkpoint
use aisecure.Prelude.{
  ℕ, suc, String, List, [], ◌∷◌, Option, none, some, Bool, true, false, ◌&&◌, ◌||◌, not, ◌==◌, ltb,
  leb, length, if◌then◌else◌,
}
use Prim.Native.String.{◌++◌ as text_append}
use aisecure.Result.{
  Result, ok, err, validation, audit_sink, type_error, require, refuse, ◌>>=◌, ◌>>◌,
}
use aisecure.Json.{Value, Fields, Float, pos, int, obj, arr, str, fields, num, get}
use aisecure.Platform.{Platform, Bytes}
use aisecure.Schema.{is_sha256}
use aisecure.Store.Approvals.{holds}
use aisecure.Remote.{
  Url, is_local, has_extras, timeout_fits, Reply, replied, is_success, equals_number,
}

pub record AuditSinkConfig : Type 0 where
  pub url : Option Url
  pub secret : Bytes
  pub timeout : Float
  pub allow_insecure_localhost : Bool

-- `AuditSinkConfig.__post_init__`; a url of `none` is one that `urlsplit` refuses
unfoldable pub check_sink : AuditSinkConfig → Result (Unit {0})
check_sink config = of_url config.url
  where
    of_url : Option Url → Result (Unit {0})
    of_url none = err validation
    of_url (some url) = do
      require
          (url.scheme == "https"
            || (config.allow_insecure_localhost && url.scheme == "http" && is_local url.hostname))
          validation
      refuse (has_extras url) validation
      require (timeout_fits config.timeout) validation
      require (leb 32 (length config.secret)) validation

-- a checkpoint: its count and its tip
unfoldable pub checkpoint_of : Option Value → Option Value → Result (ℕ × String)
checkpoint_of (some (int (pos count))) (some (str tip)) =
    if is_sha256 tip then ok (count, tip) else err validation
checkpoint_of count tip = err validation

-- the checks of `_payload`
unfoldable pub check_payload : Value → Result (ℕ × String)
check_payload (obj fs) = checkpoint_of (get "count" fs) (get "tip" fs)
check_payload checkpoint = err validation

unfoldable pub payload_value : ℕ → String → ℕ → Value
payload_value count tip now = obj (
    fields (
      ("schema_version", num 1)
      ∷ ("count", num count)
      ∷ ("tip", str tip)
      ∷ ("published_at", num now)
      ∷ []))

pub record Publication : Type 0 where
  pub body : String
  pub signature : String
  pub tip : String

-- `result.get("status") not in {"accepted", "verified"}`, which hashes the value
unfoldable pub accepted_status : Option Value → Result String
accepted_status (some (str s)) = if s == "accepted" || s == "verified" then ok s else err audit_sink
accepted_status (some (arr xs)) = err type_error
accepted_status (some (obj fs)) = err type_error
accepted_status _ = err audit_sink

unfoldable pub check_acknowledgement : ℕ → String → Option Value → Result String
check_acknowledgement count tip (some (obj fs)) = do
  status ← accepted_status (get "status" fs)
  require (equals_number count (get "count" fs) && holds tip (get "tip" fs)) audit_sink
  ok status
check_acknowledgement count tip _ = err audit_sink

abbrev max_response_bytes : ℕ
max_response_bytes = 65536

unfoldable pub check_reply : ℕ → String → Reply → Result String
check_reply count tip (replied status size body) =
    if ltb max_response_bytes size
    then err audit_sink
    else if is_success status
    then check_acknowledgement count tip body
    else err audit_sink
check_reply count tip _ = err audit_sink

module _ (os : Platform) (config : AuditSinkConfig) (network : Publication → Reply) where
  unfoldable pub publication : ℕ → String → ℕ → Publication
  publication count tip now = record {
    body = os.dumps (payload_value count tip now);
    signature =
        text_append "sha256=" (os.hmac config.secret (os.dumps (payload_value count tip now)));
    tip = tip;
  }

  -- `publish`, at the n-th reading of the clock: the status, the count and the tip
  unfoldable pub publish : ℕ → Value → Result (String × (ℕ × String))
  publish reading checkpoint = do
    given ← check_payload checkpoint
    status ←
        check_reply given.0 given.1 (network (publication given.0 given.1 (os.unix_time reading)))
    ok (status, given)
