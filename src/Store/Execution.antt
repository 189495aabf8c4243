-- ===== src/Store/Execution.antt =====
-- `execute_approved` of the store, in its three parts: the transaction before the responder is
-- called, the handler of an exception, and the transaction after an answer. Other calls may run
-- between the parts, since no lock is held while the responder works.
use aisecure.Prelude.{
  ℕ, String, [], ◌∷◌, ◌++◌, List, Option, none, some, Bool, true, false, ◌&&◌, not, ◌==◌,
  if◌then◌else◌,
}
use aisecure.Result.{Result, ok, err, responder, conflict, require}
use aisecure.Exec.{Exec, pure, lift, reads, ◌>>=◌, ◌>>◌}
use aisecure.Json.{Value, obj, fields, str, bool, get}
use aisecure.Text.{length_within, has_control}
use aisecure.Policy.{Plan, real, plan_for}
use aisecure.Document.{Document}
use aisecure.Platform.{Platform}
use aisecure.Store.State.{ProposalRow, Status, executing, verified, failed, State, Store}
use aisecure.Store.Audit.{audit, transaction}
use aisecure.Store.Snapshots.{snapshot, get_finding}
use aisecure.Store.Proposals.{is_approved, is_executing, update_proposal, set_status}
use aisecure.Store.Approvals.{validate_target, target_hmac, same_plan, live_row}

-- the context that the responder is given
pub record Context : Type 0 where
  pub proposal_id : String
  pub snapshot_id : String
  pub evidence_ids : List String
  pub provider_target : String

-- what `responder.execute` did: an answer, or an exception and the name of its class
pub data Outcome : Type 0 where
  answered : Value → Outcome
  raised : String → Outcome

-- `UPDATE … SET status=? WHERE id=? AND status='executing'`
abbrev pub finish_row : Status → ProposalRow → ProposalRow
finish_row status r = if is_executing r.status then set_status status r else r

abbrev member : String → Value → Option Value
member key (obj fs) = get key fs
member key _ = none

abbrev is_text : String → Option Value → Bool
is_text text (some (str s)) = s == text
is_text text _ = false

abbrev is_True : Option Value → Bool
is_True (some (bool true)) = true
is_True _ = false

-- `safe_result.get("status") == "verified" and safe_result.get("executed") is True`
unfoldable pub claims_verified : Value → Bool
claims_verified result =
    is_text "verified" (member "status" result) && is_True (member "executed" result)

abbrev pub final_status : Bool → Status
final_status true = verified
final_status false = failed

-- an allowlisted text of the answer, if it is short and has no control character
abbrev allowed : String → ℕ → Option Value → List (String × Value)
allowed key limit (some (str s)) =
    if length_within 1 limit s && not (has_control s) then (key, str s) ∷ [] else []
allowed key limit _ = []

abbrev final_action : Bool → String
final_action true = "plan.verified"
final_action false = "plan.failed"

module _ (os : Platform) (self : Store) (adapter : String) where
  abbrev pub same_target : Option String → String → Bool
  same_target none target = false
  same_target (some mac) target = mac == target_hmac os self target

  -- the first transaction: the plan and the context that are handed to the responder
  unfoldable pub begin_execution : String → String → Option String → Exec State (Plan × Context)
  begin_execution pid sid provider = do
    target ← lift (validate_target provider)
    transaction os self (do
      r ← live_row os self is_approved pid sid
      lift (require (same_target r.approved_target_hmac target) conflict)
      f ← reads (λ s. get_finding os self sid r.finding_id s.db)
      lift (same_plan os self r (plan_for f))
      update_proposal pid (set_status executing)
      audit os self "plan.execution_started"
          (obj (fields (("proposal_id", str pid) ∷ ("adapter", str adapter) ∷ [])))
      pure (
        record (plan_for f) { execution_mode = real; automatic_execution = false },
        record {
          proposal_id = pid;
          snapshot_id = sid;
          evidence_ids = f.evidence_ids;
          provider_target = target;
        },
      ))

  -- the transaction of the handler of an exception of the responder
  unfoldable pub record_failure : String → String → Exec State (Unit {0})
  record_failure pid error_type = transaction os self (do
    update_proposal pid (finish_row failed)
    audit os self "plan.failed"
        (obj (fields (("proposal_id", str pid) ∷ ("error_type", str error_type) ∷ []))))

  -- the handler: its transaction, and ResponderError after the commit
  unfoldable pub fail_execution : String → String → Exec State Bool
  fail_execution pid error_type = record_failure pid error_type >>= λ _. lift (err responder)

  abbrev current_is : String → Result (Option (String × Document)) → Result Bool
  current_is sid (err c) = err c
  current_is sid (ok none) = ok false
  current_is sid (ok (some (current, d))) = ok (current == sid)

  unfoldable pub stale : String → Exec State Bool
  stale pid = do
    update_proposal pid (finish_row failed)
    audit os self "plan.failed" (
        obj (
          fields
            (("proposal_id", str pid) ∷ ("error_type", str "stale_snapshot_after_response") ∷ [])))
    pure false

  unfoldable pub settled : String → Value → Exec State Bool
  settled pid result = do
    update_proposal pid (finish_row (final_status (claims_verified result)))
    audit os self (final_action (claims_verified result)) (
        obj (
          fields (
            (("proposal_id", str pid)
              ∷ ("executed", bool (claims_verified result))
              ∷ ("adapter", str adapter)
              ∷ [])
            ++ (allowed "provider" 80 (member "provider" result)
                ++ allowed "verification" 160 (member "verification" result)))))
    pure (claims_verified result)

  -- the last transaction; the answer is `executed` of the returned dictionary
  unfoldable pub finish_execution : String → String → Value → Exec State Bool
  finish_execution pid sid result = transaction os self (do
    fresh ← reads (λ s. current_is sid (snapshot os self s.db))
    if fresh then settled pid result else stale pid)

  -- other calls run first
  unfoldable pub interleave : (State → State) → Exec State Bool → Exec State Bool
  interleave others m s = m (others s)

  -- what follows the call of the responder
  unfoldable pub after_response : String → String → Outcome → Exec State Bool
  after_response pid sid (answered result) = finish_execution pid sid result
  after_response pid sid (raised error_type) = fail_execution pid error_type

  -- `execute_approved`, where `respond` is the responder and `others` is what other threads do to
  -- the store while it works
  unfoldable pub execute_approved :
      (Plan → Context → Outcome)
      → (State → State)
      → String
      → String
      → Option String
      → Exec State Bool
  unfolding interleave
  execute_approved respond others pid sid provider = begin_execution pid sid provider >>= λ p.
      interleave others (after_response pid sid (respond p.0 p.1))
