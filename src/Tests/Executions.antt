-- ===== src/Tests/Executions.antt =====
-- An execution that is verified, a call that fails, and claims that are accepted.
use aisecure.Prelude.{◌≡◌, ◌≢◌, ◌⊎◌, refl, String, List, [], ◌∷◌, some, true}
use aisecure.Json.{Value, obj, fields, str, bool}
use aisecure.Result.{ok, responder}
use aisecure.Policy.{Plan}
use aisecure.Store.State.{State}
use aisecure.Store.Execution.{
  Context, Outcome, answered, claims_verified, begin_execution, after_response, execute_approved,
  interleave, record_failure, fail_execution,
}
use aisecure.Text.{strip}
use aisecure.Store.Approvals.{validate_assertions, check_claim}
use aisecure.Store.Calls.{begin_call, fail_call, perform, failure}
use aisecure.Store.Checks.{Checked, begin_execution-Checked}
use aisecure.Store.Answers.{execute_approved-claims}
use aisecure.Store.Atomic.{Reported, failed_call-db}
use aisecure.Store.Attested.{BothAttested, validate_assertions-Attests}
use aisecure.Tests.Chains.{
  program, os, self, approved_state, snapshot_name, proposal_name, handed_over, started_once,
}

begin_execution-Checked_example :
    Checked os self proposal_name snapshot_name (some "u1") approved_state handed_over
begin_execution-Checked_example =
    begin_execution-Checked os self "hook" proposal_name snapshot_name (some "u1") approved_state
      handed_over started_once

abbrev answer : Value
answer = obj (fields (("status", str "verified") ∷ ("executed", bool true) ∷ []))

abbrev respond : Plan → Context → Outcome
respond plan context = answered answer

abbrev quiet : State → State
quiet s = s

executed :
    (execute_approved os self "hook" respond quiet proposal_name snapshot_name
      (some "u1")
      approved_state).0
    ≡ ok true
unfolding program approved_state execute_approved after_response interleave
executed = refl

execute_approved-claims_example :
    (p : Plan × Context) × (result : Value) × ((begin_execution os self "hook" proposal_name
        snapshot_name
        (some "u1")
        approved_state).0
      ≡ ok p)
    × (respond p.0 p.1 ≡ answered result)
    × (claims_verified result ≡ true)
execute_approved-claims_example =
    execute_approved-claims os self "hook" respond quiet proposal_name snapshot_name (some "u1")
      approved_state executed

-- the responder has failed while the proposal was executing
abbrev executing_state : State
executing_state =
    perform os self "hook" (begin_call proposal_name snapshot_name (some "u1")) approved_state

handler_raises :
    failure os self "hook" (fail_call proposal_name "TimeoutError") executing_state ≡ some responder
unfolding program approved_state failure record_failure fail_execution
handler_raises = refl

failed_call-db_example :
    ((perform os self "hook" (fail_call proposal_name "TimeoutError") executing_state).db
      ≡ executing_state.db)
    ⊎ Reported os self "hook" (fail_call proposal_name "TimeoutError") executing_state responder
failed_call-db_example =
    failed_call-db os self "hook" (fail_call proposal_name "TimeoutError") executing_state responder
      handler_raises

abbrev claim : String → String → Value
claim role approver = obj (
    fields (
      ("role", str role)
      ∷ ("approver", str approver)
      ∷ ("proposal_id", str "P-1")
      ∷ ("snapshot_id", str "S-1")
      ∷ ("action", str "revoke_session")
      ∷ ("decision", str "approve")
      ∷ []))

abbrev alice : String
alice = "alice"

abbrev claims : List Value
claims = claim "secondary" "bob" ∷ claim "primary" "alice" ∷ []

claims_accepted :
    validate_assertions "P-1" "S-1" "revoke_session" " alice " "bob" (some claims) ≡ ok tt
unfolding validate_assertions check_claim strip
claims_accepted = refl

validate_assertions-Attests_example :
    (a b : Value) × (claims ≡ a ∷ b ∷ [])
    × BothAttested "P-1" "S-1" "revoke_session" " alice " "bob" a b
    × (strip " alice " ≢ strip "bob")
validate_assertions-Attests_example =
    validate_assertions-Attests "P-1" "S-1" "revoke_session" " alice " "bob" claims claims_accepted
