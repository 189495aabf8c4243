-- ===== src/Control/Device.antt =====
-- The registered firewall rule of aisecure/control/vpn.py (`FortiOSPolicyAdapter`). The state is the
-- calls sent to the device so far, latest first.
use aisecure.Prelude.{ℕ, String, List, [], ◌∷◌, Option, some, Bool, ◌&&◌, ◌||◌, ◌==◌, if◌then◌else◌}
use aisecure.Result.{Result, ok, err, control, type_error, require}
use aisecure.Result as R
use aisecure.Exec.{Exec, pure, lift, ◌>>=◌, ◌>>◌}
use aisecure.Json.{Value, Fields, arr, obj, nil, cons, items, str, get}
use aisecure.Text.{length_within}
use aisecure.Platform.{Platform}
use aisecure.Remote.{equals_number}
use aisecure.Store.Approvals.{holds}

pub record PolicyTarget : Type 0 where
  pub id : String
  pub policy_id : ℕ
  pub vdom : String
  pub expected_uuid : String

-- a request to the rule's address: GET, or PUT of a status
pub data DeviceCall : Type 0 where
  read : DeviceCall
  write : String → DeviceCall

abbrev method_of : DeviceCall → String
method_of read = "GET"
method_of (write status) = "PUT"

-- what `read_state` returns of the rule
pub record RuleState : Type 0 where
  pub status : String
  pub state_hash : String

-- the checks of `_request`; `none` is a reply that is not there, not 200 or not JSON
unfoldable pub check_device : PolicyTarget → DeviceCall → Option Value → Result Fields
check_device target call (some (obj fs)) =
    if holds "success" (get "status" fs)
      && holds (method_of call) (get "http_method" fs)
      && holds target.vdom (get "vdom" fs)
    then ok fs
    else err control
check_device target call _ = err control

-- `policy.get('status') not in {…}`, which hashes the value
unfoldable pub rule_status : Option Value → Result String
rule_status (some (str s)) = if s == "enable" || s == "disable" then ok s else err control
rule_status (some (arr xs)) = err type_error
rule_status (some (obj fs)) = err type_error
rule_status _ = err control

unfoldable pub revision_of : Option Value → Result String
revision_of (some (str s)) = if length_within 0 128 s then ok s else err control
revision_of _ = err control

-- `expected`
abbrev pub expected_status : String → String
expected_status operation = if operation == "disable_registered_rule" then "disable" else "enable"

abbrev pub known_operation : String → Bool
known_operation operation =
    operation == "disable_registered_rule" || operation == "restore_registered_rule"

module _ (os : Platform) (target : PolicyTarget) where
  -- the one rule of the results; a rule that is no object has no `get`
  unfoldable pub state_of : Option Value → Option Value → Result RuleState
  state_of (some (arr (cons (obj fs) nil))) revision =
      R.◌>>◌
        (require
          (equals_number target.policy_id (get "policyid" fs)
            && holds target.expected_uuid (get "uuid" fs)
            && holds "accept" (get "action" fs))
          control)
        (R.◌>>=◌ (rule_status (get "status" fs)) λ status. R.◌>>=◌ (revision_of revision) λ version.
          ok (record {
            status = status;
            state_hash =
                os.sha256 (os.dumps (arr (items (str target.id ∷ str version ∷ obj fs ∷ []))));
          }))
  state_of (some (arr (cons v nil))) revision = err type_error
  state_of _ revision = err control

  module _ (network : List DeviceCall → DeviceCall → Option Value)
      (deployment_verified : Bool) where
    -- `_request`
    unfoldable pub request : DeviceCall → Exec (List DeviceCall) Fields
    request call calls = (check_device target call (network calls call), call ∷ calls)

    unfoldable pub read_state : Exec (List DeviceCall) RuleState
    read_state = do fs ← request read; lift (state_of (get "results" fs) (get "revision" fs))

    -- `apply`
    unfoldable pub apply_operation : String → Exec (List DeviceCall) (Unit {0})
    apply_operation operation = do
      lift (require deployment_verified control)
      lift (require (known_operation operation) control)
      fs ← request (write (expected_status operation))
      pure tt
