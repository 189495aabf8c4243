-- ===== src/Responder.antt =====
-- aisecure/responder.py: an approved action is delivered to a separate responder, as one signed
-- request. The state is the requests sent so far, latest first.
pub mod Bound
pub mod Delivered
use aisecure.Prelude.{
  ℕ, String, List, [], ◌∷◌, map, Option, none, some, Bool, true, false, ◌&&◌, ◌||◌, not, ◌==◌, ltb,
  leb, all, length, mem, sort_by, if◌then◌else◌,
}
use Prim.Native.String.{◌++◌ as text_append}
use aisecure.Result.{Result, Code, ok, err, validation, responder, type_error, require, refuse}
use aisecure.Result as R
use aisecure.Exec.{Exec, pure, lift, ◌>>=◌, ◌>>◌}
use aisecure.Json.{Value, Fields, Float, obj, arr, str, bool, fields, items, num, get}
use aisecure.Text.{text_length, length_within, has_control, text_before}
use aisecure.Policy.{Plan, Mode, real, simulation_only, action_text}
use aisecure.Platform.{Platform, Bytes}
use aisecure.Schema.{identifier}
use aisecure.Store.Execution.{Context}
use aisecure.Store.Approvals.{holds}
use aisecure.Gateway.Safety.{Sentinel, assert_clear}
use aisecure.Remote.{
  Url, is_local, has_extras, timeout_fits, Reply, replied, http_error, unreachable, redirected,
  is_success,
}

pub record ResponderConfig : Type 0 where
  pub url : Option Url
  pub secret : Bytes
  pub timeout : Float
  pub allowed_actions : List String

-- `ResponderConfig.__post_init__`; a url of `none` is one that `urlsplit` refuses
unfoldable pub check_url : Option Url → Result (Unit {0})
check_url none = err validation
check_url (some url) =
    R.◌>>◌
      (require (url.scheme == "https" || (url.scheme == "http" && is_local url.hostname))
        validation)
      (refuse (has_extras url) validation)

abbrev pub known_actions : List String
known_actions = "revoke_session" ∷ "restrict_remote_access" ∷ "review_evidence" ∷ []

unfoldable pub check_config : ResponderConfig → Result (Unit {0})
check_config c = R.◌>>◌ (check_url c.url) (
    R.◌>>◌ (require (timeout_fits c.timeout) validation) (
      R.◌>>◌ (require (leb 32 (length c.secret)) validation) (
        require
          (leb 1 (length c.allowed_actions) && all (λ a. mem a known_actions) c.allowed_actions)
          validation)))

-- `sorted(set(xs))`
abbrev pub distinct : List String → List String
distinct [] = []
distinct (x ∷ xs) = let rest = distinct xs in if mem x rest then rest else x ∷ rest

abbrev evidence_fits : String → Bool
evidence_fits e = length_within 1 160 e

abbrev pub is_real : Mode → Bool
is_real real = true
is_real simulation_only = false

pub record Request : Type 0 where
  pub request_id : String
  pub timestamp : String
  pub signature : String
  pub idempotency_key : String
  pub body : String

-- the dictionary of `_request_payload`
unfoldable pub payload_value : String → ℕ → Plan → Context → Value
payload_value request_id now plan context = obj (
    fields (
      ("schema_version", num 1)
      ∷ ("request_id", str request_id)
      ∷ ("proposal_id", str context.proposal_id)
      ∷ ("snapshot_id", str context.snapshot_id)
      ∷ ("finding_id", str plan.finding_id)
      ∷ ("action", str (action_text plan.action))
      ∷ ("target", str context.provider_target)
      ∷ (
        "evidence_ids",
        arr (items (map (λ e. str e) (sort_by text_before (distinct context.evidence_ids)))),
      )
      ∷ ("requested_at", num now)
      ∷ []))

-- the checks of `_request_payload`, for a plan and a context that hold the keys
unfoldable pub check_payload : Plan → Context → Result (Unit {0})
check_payload plan context = R.◌>>=◌ (identifier (str plan.finding_id)) λ _.
    R.◌>>=◌ (identifier (str context.snapshot_id)) λ _.
      R.◌>>=◌ (identifier (str context.proposal_id)) λ _.
        R.◌>>◌ (require (length_within 1 160 context.provider_target) validation) (
          R.◌>>◌ (refuse (has_control context.provider_target) validation) (
            R.◌>>◌ (refuse (ltb 500 (length context.evidence_ids)) validation)
              (require (all evidence_fits context.evidence_ids) validation)))

-- EmergencyStopError becomes ResponderError
unfoldable pub stop_clear : Sentinel → Result (Unit {0})
stop_clear s = as_responder (assert_clear s)
  where
    as_responder : Result (Unit {0}) → Result (Unit {0})
    as_responder (ok u) = ok u
    as_responder (err c) = err responder

-- `result.get("status") not in {"verified", "failed"}`, which hashes the value
unfoldable pub status_of : Option Value → Result Bool
status_of (some (str s)) =
    if s == "verified" then ok true else if s == "failed" then ok false else err responder
status_of (some (arr xs)) = err type_error
status_of (some (obj fs)) = err type_error
status_of _ = err responder

abbrev pub provider_of : Option Value → Value
provider_of none = str "unknown"
provider_of (some v) = v

-- the dictionary that `execute` returns
unfoldable pub answer_value : Bool → Value → Value
answer_value verified provider = obj (
    fields (
      ("status", str (if verified then "verified" else "failed"))
      ∷ ("executed", bool verified)
      ∷ ("adapter", str "signed-webhook")
      ∷ ("provider", provider)
      ∷ []))

unfoldable pub check_answer : String → String → Option Value → Result Value
check_answer request_id proposal_id (some (obj fs)) =
    R.◌>>=◌ (status_of (get "status" fs)) λ verified.
      R.◌>>◌
        (require
          (holds request_id (get "request_id" fs) && holds proposal_id (get "proposal_id" fs))
          responder)
        (ok (answer_value verified (provider_of (get "provider" fs))))
check_answer request_id proposal_id _ = err responder

unfoldable pub check_reply : String → String → Reply → Result Value
check_reply request_id proposal_id (replied status size body) =
    if is_success status then check_answer request_id proposal_id body else err responder
check_reply request_id proposal_id _ = err responder

module _ (os : Platform) (config : ResponderConfig) (network : Request → Reply) where
  unfoldable pub request_of : String → ℕ → Plan → Context → Request
  request_of request_id now plan context = record {
    request_id = request_id;
    timestamp = os.decimal now;
    signature = text_append "sha256=" (
        os.hmac config.secret (
          text_append (os.decimal now)
            (text_append "." (os.dumps (payload_value request_id now plan context)))));
    idempotency_key = context.proposal_id;
    body = os.dumps (payload_value request_id now plan context);
  }

  -- the call of the network
  unfoldable pub post : Request → Exec (List Request) Reply
  post request sent = (ok (network request), request ∷ sent)

  -- `execute`. The sentinel is looked up twice; `draw` counts the random draws and the readings of
  -- the clock
  unfoldable pub execute : Sentinel → Sentinel → ℕ → Plan → Context → Exec (List Request) Value
  execute early late draw plan context = do
    lift (stop_clear early)
    lift (require (is_real plan.execution_mode) responder)
    lift (require (not plan.automatic_execution) responder)
    lift (require (mem (action_text plan.action) config.allowed_actions) responder)
    lift (check_payload plan context)
    lift (stop_clear late)
    reply ← post (request_of (os.token_hex draw 16) (os.unix_time draw) plan context)
    lift (check_reply (os.token_hex draw 16) context.proposal_id reply)
