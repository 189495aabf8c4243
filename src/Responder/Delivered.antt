-- ===== src/Responder/Delivered.antt =====
-- `execute_approved` of the store with this responder: what an executed action rests on.
use aisecure.Prelude.{ℕ, ◌≡◌, refl, sym, ap, ◌∙◌, String, List, Option, Bool, true, false}
use mathlib.Core.Path.{subst₂}
use aisecure.Store.Checks.{Checked, begin_execution-Checked}
use aisecure.Result.{Result, Code, ok, err, validation, type_error}
use aisecure.Json.{Value}
use aisecure.Policy.{Plan}
use aisecure.Platform.{Platform}
use aisecure.Store.State.{State, Store}
use aisecure.Store.Execution.{Context, Outcome, answered, raised, claims_verified, execute_approved}
use aisecure.Store.Answers.{execute_approved-claims}
use aisecure.Gateway.Safety.{Sentinel}
use aisecure.Remote.{Reply}
use aisecure.Responder.{ResponderConfig, Request, answer_value, execute}
use aisecure.Responder.Bound.{Bound, execute-Bound, the_request}

-- `type(exc).__name__`
abbrev class_name : Code → String
class_name validation = "ValidationError"
class_name type_error = "TypeError"
class_name _ = "ResponderError"

abbrev pub outcome_of : Result Value → Outcome
outcome_of (ok v) = answered v
outcome_of (err c) = raised (class_name c)

claims_verified-answer :
    (b : Bool) (provider : Value) → claims_verified (answer_value b provider) ≡ b
unfolding claims_verified answer_value
claims_verified-answer true provider = refl
claims_verified-answer false provider = refl

returned : (r : Result Value) (v : Value) → outcome_of r ≡ answered v → r ≡ ok v
returned (ok w) v h = cc
returned (err c) v h = cc

verified_is :
    {rid pid : String} {reply : Reply} {b : Bool} {v : Value}
    → Bound rid pid reply b v
    → claims_verified v ≡ true
    → b ≡ true
verified_is {b = b} x claim =
    sym (claims_verified-answer b _) ∙ sym (ap claims_verified x.returned) ∙ claim

module _ (os : Platform) (self : Store) (config : ResponderConfig) (network : Request → Reply) where
  module _ (early late : Sentinel) (draw : ℕ) (sent : List Request) where
    -- `responder.execute` as the store calls it
    unfoldable pub webhook : Plan → Context → Outcome
    webhook plan context =
        outcome_of (execute os config network early late draw plan context sent).0

    -- When `execute_approved`, with this responder, reports an executed action, every guard of its
    -- first transaction held, and the reply to the signed request has a status from 200 to 299 and an
    -- object as its body, which repeats the request's identifier and the identifier of the executed
    -- proposal and says verified, whatever other threads did to the store meanwhile.
    pub execute_approved-Bound :
        (others : State → State) (pid sid : String) (provider : Option String) (s : State)
        → (execute_approved os self "signed-webhook" webhook others pid sid provider s).0 ≡ ok true
        → (plan : Plan) × (context : Context) × (v : Value) × Checked os self pid sid provider s
            (plan, context)
          × Bound
              (os.token_hex draw 16)
              pid
              (network (the_request os config network early late draw plan context sent))
              true
              v
    unfolding webhook
    execute_approved-Bound others pid sid provider s h =
        let (p, v, begun, answer, claim) =
          execute_approved-claims os self "signed-webhook" webhook others pid sid provider s h in
        let (verified, x, _) =
          execute-Bound os config network early late draw p.0 p.1 sent v (returned _ v answer) in
        let checked = begin_execution-Checked os self "signed-webhook" pid sid provider s p begun in
        let reply = network (the_request os config network early late draw p.0 p.1 sent) in
        let same : p.1.proposal_id ≡ pid = checked.context.0 in
        let all_right : verified ≡ true = verified_is x claim in
        (
          p.0,
          p.1,
          v,
          checked,
          subst₂ (λ (name : String) (b : Bool). Bound (os.token_hex draw 16) name reply b v) same
              all_right x,
        )
