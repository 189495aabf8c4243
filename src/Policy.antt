-- ===== src/Policy.antt =====
-- aisecure/policy.py: the response plan of a finding. Titles, impacts, checks and recovery notes
-- are fixed texts of the action, and are left out.
use aisecure.Prelude.{String, [], ◌∷◌, Option, none, some, Bool, true, false}
use aisecure.Json.{Value, obj, fields, str, bool}
use aisecure.Engine.{Finding, Kind, exposure, correlation}

pub data Action : Type 0 where
  revoke_session restrict_remote_access review_evidence : Action

pub data Mode : Type 0 where
  simulation_only real : Mode

pub record Plan : Type 0 where
  pub action : Action
  pub finding_id : String
  pub target : String
  pub requires_approval : Bool
  pub execution_mode : Mode
  pub automatic_execution : Bool

-- `PLANS.get(finding["kind"], DEFAULT)`
unfoldable pub action_for : Kind → Action
action_for correlation = revoke_session
action_for exposure = restrict_remote_access
action_for _ = review_evidence

-- `finding.get("actor", finding.get("asset_id", "evidence"))`
unfoldable pub target_of : Option String → Option String → String
target_of (some actor) asset = actor
target_of none (some asset) = asset
target_of none none = "evidence"

unfoldable pub plan_for : Finding → Plan
plan_for f = record {
  action = action_for f.kind;
  finding_id = f.id;
  target = target_of f.actor f.asset_id;
  requires_approval = true;
  execution_mode = simulation_only;
  automatic_execution = false;
}

abbrev pub action_text : Action → String
action_text revoke_session = "revoke_session"
action_text restrict_remote_access = "restrict_remote_access"
action_text review_evidence = "review_evidence"

abbrev mode_text : Mode → String
mode_text simulation_only = "simulation_only"
mode_text real = "real"

-- the plan as a JSON object, for `canonical(plan)`
unfoldable pub plan_value : Plan → Value
plan_value p = obj (
    fields (
      ("action", str (action_text p.action))
      ∷ ("finding_id", str p.finding_id)
      ∷ ("target", str p.target)
      ∷ ("requires_approval", bool p.requires_approval)
      ∷ ("execution_mode", str (mode_text p.execution_mode))
      ∷ ("automatic_execution", bool p.automatic_execution)
      ∷ []))
