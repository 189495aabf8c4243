-- ===== src/Tests/Chains.antt =====
-- Runs of the store, and its theorems at them.
use aisecure.Prelude.{◌≡◌, ◌≢◌, refl, String, List, [], ◌∷◌, none, some, true, false, length}
use aisecure.Exec.{◌>>=◌}
use aisecure.Text.{strip, take_text}
use aisecure.Document.{Document, Asset, vpn, pending, imported}
use aisecure.Platform.{Platform}
use aisecure.Rules.{RuleConfig, Conditions}
use aisecure.Engine.{
  analyze, unsorted_findings, asset_findings, patch_finding, coverage_finding, is_uncertain,
  patch_priority, by_id, exposed_pending, logins, login_findings, all_group_findings, group_reads,
  finding_id,
}
use aisecure.Json.{obj, end}
use aisecure.Result.{ok}
use aisecure.Policy.{
  Plan, restrict_remote_access, real, plan_for, plan_value, action_for, target_of,
}
use aisecure.Store.State.{State, Store, utcnow, protect, unprotect, token_hex}
use aisecure.Store.Audit.{
  walk, walk_row, row_valid, row_mac, audit_payload, audit_aad, verify_audit, audit, insert_row,
  transaction, record_entry,
}
use aisecure.Store.Snapshots.{ingest, store_snapshot, snapshot, snapshot_id, get_finding}
use aisecure.Store.Proposals.{
  propose, new_proposal, proposal_plan, pending_row, proposal_row, insert_proposal, update_proposal,
  update_rows,
}
use aisecure.Store.Approvals.{
  live_row, same_snapshot, same_plan, after, validate_target, validate_assertions,
  approve_for_execution,
}
use aisecure.Store.Execution.{
  Context, begin_execution, finish_execution, claims_verified, settled, stale,
}
use aisecure.Store.Calls.{
  Call, ingest_call, propose_call, approve_call, begin_call, finish_call, perform, perform_all,
}
use aisecure.Store.Integrity.{Chained, perform_all-Chained}
use aisecure.Store.Lifecycle.{Evolves}
use aisecure.Store.Lifecycle.Methods.{perform_all-Evolves}
use aisecure.Store.Dispatch.{dispatch_once}
use aisecure.Tests.Toy.{toy, self_of, toy-Dependable, push, quote}

unfoldable pub program : Unit {0}
unfolding ◌>>=◌ strip take_text analyze unsorted_findings asset_findings patch_finding
    coverage_finding is_uncertain patch_priority by_id exposed_pending logins login_findings
    all_group_findings group_reads finding_id plan_for plan_value action_for target_of utcnow
    protect unprotect token_hex walk walk_row row_valid row_mac audit_payload audit_aad verify_audit
    audit insert_row transaction record_entry ingest store_snapshot snapshot snapshot_id get_finding
    propose new_proposal proposal_plan pending_row proposal_row insert_proposal update_proposal
    update_rows live_row same_snapshot same_plan after validate_target validate_assertions
    approve_for_execution begin_execution finish_execution claims_verified settled stale perform
    perform_all push quote
program = tt

abbrev gateway : Asset
gateway = record {
  id = "vpn-1";
  kind = vpn;
  patch_state = pending;
  observed_at = 0;
  vulnerability = none;
  internet_exposed = some true;
  privileged_path = some true;
  sensitive_path = some true;
}

abbrev pub document : Document
document = record {
  as_of = 10;
  source_mode = imported;
  provenance = [];
  assets = gateway ∷ [];
  events = [];
}

abbrev pub config : RuleConfig
config = record {
  window_seconds = 300;
  distinct_file_threshold = 2;
  login_lookback_seconds = 1800;
  sensitive_file_minimum = 1;
  stale_asset_hours = 24;
  cvss_priority_threshold = 7;
  identity_conditions = Conditions.any;
}

abbrev pub os : Platform
os = toy document

abbrev pub self : Store
self = self_of document config false

abbrev pub empty : State
empty = record {
  db = record { snapshots = []; current = none; proposals = []; audit = [] };
  readings = 0;
  draws = 0;
}

empty-Chained : Chained os self empty
unfolding program
empty-Chained = refl

abbrev pub snapshot_name : String
snapshot_name = "S-d"

abbrev pub finding_name : String
finding_name = "F-"

abbrev pub proposal_name : String
proposal_name = "P-0"

abbrev calls : List Call
calls =
    ingest_call document
    ∷ propose_call snapshot_name finding_name
    ∷ approve_call proposal_name snapshot_name "EXECUTE REAL ACTION" "SECOND APPROVER CONFIRMED"
        "session is stolen" "alice" "bob" (some "u1") none
    ∷ []

unfoldable pub approved_state : State
approved_state = perform_all os self "hook" calls empty

perform_all-Chained_example : Chained os self (perform_all os self "hook" calls empty)
perform_all-Chained_example =
    perform_all-Chained os self (toy-Dependable document self) "hook" calls empty empty-Chained

run_length : length approved_state.db.audit ≡ 3
unfolding program approved_state
run_length = refl

abbrev pub later_calls : List Call
later_calls =
    begin_call proposal_name snapshot_name (some "u1")
    ∷ finish_call proposal_name snapshot_name (obj end)
    ∷ approve_call proposal_name snapshot_name "EXECUTE REAL ACTION" "SECOND APPROVER CONFIRMED"
        "session is stolen" "alice" "bob" (some "u1") none
    ∷ []

perform_all-Evolves_example :
    Evolves approved_state.db.proposals
      (perform_all os self "hook" later_calls approved_state).db.proposals
perform_all-Evolves_example = perform_all-Evolves os self "hook" later_calls approved_state

abbrev pub handed_over : Plan × Context
handed_over = (
  record {
    action = restrict_remote_access;
    finding_id = finding_name;
    target = "vpn-1";
    requires_approval = true;
    execution_mode = real;
    automatic_execution = false;
  },
  record {
    proposal_id = proposal_name;
    snapshot_id = snapshot_name;
    evidence_ids = "asset:vpn-1" ∷ [];
    provider_target = "u1";
  },
)

pub started_once :
    (begin_execution os self "hook" proposal_name snapshot_name (some "u1") approved_state).0
    ≡ ok handed_over
unfolding program approved_state
started_once = refl

dispatch_once_example :
    (begin_execution os self "hook" proposal_name snapshot_name (some "u2") (
      perform_all os self "hook" later_calls
        (begin_execution os self "hook" proposal_name snapshot_name
          (some "u1")
          approved_state).1)).0
    ≢ ok handed_over
dispatch_once_example =
    dispatch_once os self "hook" proposal_name snapshot_name snapshot_name (some "u1") (some "u2")
      approved_state handed_over handed_over later_calls started_once
