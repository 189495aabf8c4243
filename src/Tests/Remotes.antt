-- ===== src/Tests/Remotes.antt =====
-- A request to the responder, and an executed plan.
use aisecure.Prelude.{[], ◌∷◌, ◌≡◌, ◌*◌, refl, some, none, true, false, Bool}
use aisecure.Json.{Value, obj, fields, str, finite, pos}
use aisecure.Result.{ok}
use aisecure.Rules.{one}
use aisecure.Schema.{identifier, is_id}
use aisecure.Policy.{Plan, revoke_session, real}
use aisecure.Store.State.{State}
use aisecure.Store.Execution.{Context, execute_approved, after_response, interleave}
use aisecure.Store.Checks.{Checked}
use aisecure.Gateway.Safety.{absent, assert_clear}
use aisecure.Remote.{Url, Reply, replied, is_local, has_extras, timeout_fits}
use aisecure.Responder.{
  ResponderConfig, Request, check_url, check_config, check_payload, stop_clear, status_of,
  answer_value, check_answer, check_reply, payload_value, request_of, post, execute,
}
use aisecure.Responder.Bound.{Bound, the_request, SentOnce, execute-SentOnce, execute-Bound}
use aisecure.Responder.Delivered.{webhook, execute_approved-Bound}
use aisecure.Tests.Chains.{program, os, self, approved_state, snapshot_name, proposal_name}

unfoldable calls : Unit {0}
unfolding identifier is_id assert_clear is_local has_extras timeout_fits check_url check_config
    check_payload stop_clear status_of answer_value check_answer check_reply payload_value
    request_of post execute webhook execute_approved after_response interleave
calls = tt

abbrev address : Url
address = record {
  scheme = "https";
  hostname = some "soar.example";
  username = none;
  password = none;
  query = "";
  fragment = "";
}

abbrev config : ResponderConfig
config = record {
  url = some address;
  secret = [];
  timeout = finite (pos (5 * one));
  allowed_actions = "revoke_session" ∷ "restrict_remote_access" ∷ "review_evidence" ∷ [];
}

abbrev network : Request → Reply
network request = replied 200 90 (
    some (
      obj (
        fields (
          ("status", str "verified")
          ∷ ("request_id", str request.request_id)
          ∷ ("proposal_id", str request.idempotency_key)
          ∷ []))))

abbrev plan : Plan
plan = record {
  action = revoke_session;
  finding_id = "f-1";
  target = "actor-1";
  requires_approval = true;
  execution_mode = real;
  automatic_execution = false;
}

abbrev context : Context
context = record {
  proposal_id = "p-1";
  snapshot_id = "s-1";
  evidence_ids = "e-1" ∷ "e-1" ∷ [];
  provider_target = "u1";
}

execute-SentOnce_example :
    SentOnce os config network absent absent 3 plan context []
      (execute os config network absent absent 3 plan context []).1
execute-SentOnce_example = execute-SentOnce os config network absent absent 3 plan context []

delivered :
    (execute os config network absent absent 3 plan context []).0
    ≡ ok (answer_value true (str "unknown"))
unfolding calls program
delivered = refl

execute-Bound_example :
    (verified : Bool) × Bound
      (os.token_hex 3 16)
      "p-1"
      (network (the_request os config network absent absent 3 plan context []))
      verified
      (answer_value true (str "unknown"))
    × ((execute os config network absent absent 3 plan context []).1
        ≡ the_request os config network absent absent 3 plan context [] ∷ [])
execute-Bound_example =
    execute-Bound os config network absent absent 3 plan context []
      (answer_value true (str "unknown")) delivered

abbrev quiet : State → State
quiet s = s

executed :
    (execute_approved os self "signed-webhook"
      (webhook os self config network absent absent 3 [])
      quiet
      proposal_name
      snapshot_name
      (some "u1")
      approved_state).0
    ≡ ok true
unfolding calls program approved_state
executed = refl

execute_approved-Bound_example :
    (plan : Plan) × (context : Context) × (v : Value) × Checked os self proposal_name snapshot_name
      (some "u1")
      approved_state
      (plan, context)
    × Bound
        (os.token_hex 3 16)
        proposal_name
        (network (the_request os config network absent absent 3 plan context []))
        true
        v
execute_approved-Bound_example =
    execute_approved-Bound os self config network absent absent 3 [] quiet proposal_name
      snapshot_name (some "u1") approved_state executed
