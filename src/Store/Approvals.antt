-- ===== src/Store/Approvals.antt =====
-- `approve_and_simulate` and `approve_for_execution` of the store.
use aisecure.Prelude.{
  ℕ, String, List, [], ◌∷◌, Option, none, some, Bool, true, false, ◌&&◌, ◌||◌, not, ◌==◌, ltb, mem,
  if◌then◌else◌,
}
use Prim.Native.String.{◌++◌ as text_append}
use aisecure.Result.{Result, ok, err, validation, conflict, integrity, type_error, require, refuse}
use aisecure.Result as R
use aisecure.Exec.{Exec, pure, lift, reads, ◌>>=◌, ◌>>◌}
use aisecure.Json.{Value, Fields, arr, obj, fields, str, bool, get}
use aisecure.Text.{strip, length_within, has_control}
use aisecure.Policy.{Plan, plan_for, plan_value, action_text}
use aisecure.Document.{Document}
use aisecure.Platform.{Platform}
use aisecure.Store.State.{
  ProposalRow, Status, simulated, approved, Db, State, Store, audit_key, utcnow, unprotect,
}
use aisecure.Store.Audit.{audit, transaction}
use aisecure.Store.Snapshots.{snapshot, get_finding}
use aisecure.Store.Proposals.{
  is_pending, proposal_row, update_proposal, set_status, proposal_aad, parse_time,
}

abbrev pub or_unknown : Option ProposalRow → Result ProposalRow
or_unknown none = err validation
or_unknown (some r) = ok r

abbrev names : String → Option (String × Document) → Bool
names sid none = false
names sid (some (current, d)) = current == sid

-- `10 <= len(reason.strip()) <= 500`
abbrev pub reason_fits : String → Bool
reason_fits reason = length_within 10 500 (strip reason)

-- an approver's label
abbrev pub label_fits : String → Bool
label_fits value = length_within 1 120 (strip value) && not (has_control value)

-- `_validate_provider_target`; `None` is no text
unfoldable pub validate_target : Option String → Result String
validate_target none = err validation
validate_target (some target) =
    if length_within 1 160 target && not (has_control target) then ok target else err validation

-- what `claim.get(key) == text` tests
abbrev pub holds : String → Option Value → Bool
holds text (some (str s)) = s == text
holds text _ = false

-- `seen_roles` and `seen_operators`
pub record Seen : Type 0 where
  pub roles : List String
  pub operators : List String

-- `expected[role]` of the stripped labels, where the role is one of the two
abbrev pub expected_of : String → String → String → Option String
expected_of primary secondary role =
    if role == "primary"
    then some (strip primary)
    else if role == "secondary"
    then some (strip secondary)
    else none

module _ (pid sid action primary secondary : String) where
  -- the rest of the round, for a role of the two
  unfoldable pub claim_fits : String → String → Fields → Seen → Result Seen
  claim_fits role operator fs seen =
      if not (holds operator (get "approver" fs)) || mem role seen.roles
      then err validation
      else if mem operator seen.operators
          || not (holds pid (get "proposal_id" fs))
          || not (holds sid (get "snapshot_id" fs))
      then err validation
      else if not (holds action (get "action" fs)) || not (holds "approve" (get "decision" fs))
      then err validation
      else ok (record { roles = role ∷ seen.roles; operators = operator ∷ seen.operators })

  unfoldable pub role_known : String → Option String → Fields → Seen → Result Seen
  role_known role none fs seen = err validation
  role_known role (some operator) fs seen = claim_fits role operator fs seen

  -- a role that cannot be hashed makes `role not in expected` raise TypeError
  unfoldable pub check_role : Option Value → Fields → Seen → Result Seen
  check_role (some (str role)) fs seen =
      role_known role (expected_of primary secondary role) fs seen
  check_role (some (arr xs)) fs seen = err type_error
  check_role (some (obj xs)) fs seen = err type_error
  check_role _ fs seen = err validation

  -- one round of the loop over the claims
  unfoldable pub check_claim : Value → Seen → Result Seen
  unfolding claim_fits role_known check_role
  check_claim (obj fs) seen = check_role (get "role" fs) fs seen
  check_claim _ seen = err validation

  -- `_validate_approval_assertions`
  unfoldable pub validate_assertions : Option (List Value) → Result (Unit {0})
  validate_assertions none = ok tt
  validate_assertions (some (a ∷ b ∷ [])) =
      R.◌>>=◌ (check_claim a (record { roles = []; operators = [] })) λ seen.
        R.◌>>=◌ (check_claim b seen)
          λ both. require (mem "primary" both.roles && mem "secondary" both.roles) validation
  validate_assertions (some _) = err validation

module _ (os : Platform) (self : Store) where
  -- `_target_hmac`
  abbrev pub target_hmac : String → String
  target_hmac target = os.hmac (audit_key os self) (text_append "provider-target\0" target)

  -- hmac of a text under the audit key
  abbrev secret : String → Value
  secret text = str (os.hmac (audit_key os self) text)

  abbrev pub is_current : String → Result (Option (String × Document)) → Result (Unit {0})
  is_current sid (err c) = err c
  is_current sid (ok found) = require (names sid found) conflict

  -- `row["snapshot_id"] != expected or self.snapshot()[0] != expected`
  unfoldable pub same_snapshot : ProposalRow → String → Db → Result (Unit {0})
  same_snapshot r sid db =
      if r.snapshot_id == sid then is_current sid (snapshot os self db) else err conflict

  unfoldable pub after : ℕ → Result ℕ → Result (Unit {0})
  after now (err c) = err c
  after now (ok t) = require (ltb now t) conflict

  abbrev pub body_is : Result String → String → Result (Unit {0})
  body_is (err c) text = err c
  body_is (ok body) text = require (body == text) integrity

  -- the stored plan against the current policy
  unfoldable pub same_plan : ProposalRow → Plan → Result (Unit {0})
  same_plan r plan =
      body_is (unprotect os self r.body (proposal_aad os self r.id)) (os.dumps (plan_value plan))

  -- the checks that the three transactions on a proposal share: the row, its status, its snapshot
  -- and its expiry
  unfoldable pub live_row : (Status → Bool) → String → String → Exec State ProposalRow
  live_row expected pid sid = do
    r ← reads (λ s. or_unknown (proposal_row pid s.db.proposals))
    lift (require (expected r.status) conflict)
    reads (λ s. same_snapshot r sid s.db)
    now ← utcnow os self
    lift (after now (parse_time os self r.expires_at))
    pure r

  -- `approve_and_simulate`
  unfoldable pub approve_and_simulate : String → String → String → String → Exec State (Unit {0})
  approve_and_simulate pid sid confirmation reason = do
    lift (require (confirmation == "SIMULATE ONLY") validation)
    lift (require (reason_fits reason) validation)
    transaction os self (do
      r ← live_row is_pending pid sid
      f ← reads (λ s. get_finding os self sid r.finding_id s.db)
      lift (same_plan r (plan_for f))
      audit os self "plan.approved" (
          obj (
            fields (
              ("proposal_id", str pid)
              ∷ ("operator", str "local-owner")
              ∷ ("reason_hmac", secret (strip reason))
              ∷ ("reason_plaintext_saved", bool false)
              ∷ [])))
      update_proposal pid (set_status simulated)
      audit os self "plan.simulated" (
          obj (
            fields (
              ("proposal_id", str pid)
              ∷ ("executed", bool false)
              ∷ ("adapter", str "simulation-only")
              ∷ []))))

  approved_value : String → String → String → String → String → Bool → Value
  approved_value pid primary secondary reason target attested = obj (
      fields (
        ("proposal_id", str pid)
        ∷ ("execution_mode", str "real")
        ∷ ("primary_operator_hmac", secret (strip primary))
        ∷ ("secondary_operator_hmac", secret (strip secondary))
        ∷ ("reason_hmac", secret (strip reason))
        ∷ ("provider_target_hmac", str (target_hmac target))
        ∷ ("identity_attested", bool attested)
        ∷ ("reason_plaintext_saved", bool false)
        ∷ []))

  abbrev is_given : Option (List Value) → Bool
  is_given none = false
  is_given (some claims) = true

  abbrev pub approve_row : String → ProposalRow → ProposalRow
  approve_row target r = record r {
    status = approved;
    approved_target_hmac = some (target_hmac target);
  }

  -- `approve_for_execution`
  unfoldable pub approve_for_execution :
      String
      → String
      → String
      → String
      → String
      → String
      → String
      → Option String
      → Option (List Value)
      → Exec State (Unit {0})
  unfolding approved_value
  approve_for_execution pid sid confirmation second reason primary secondary provider claims = do
    lift (require (confirmation == "EXECUTE REAL ACTION") validation)
    lift (require (second == "SECOND APPROVER CONFIRMED") validation)
    lift (require (label_fits primary) validation)
    lift (require (label_fits secondary) validation)
    lift (refuse (strip primary == strip secondary) validation)
    lift (require (reason_fits reason) validation)
    target ← lift (validate_target provider)
    transaction os self (do
      r ← live_row is_pending pid sid
      f ← reads (λ s. get_finding os self sid r.finding_id s.db)
      lift (validate_assertions pid sid (action_text (plan_for f).action) primary secondary claims)
      lift (same_plan r (plan_for f))
      audit os self "plan.approved"
          (approved_value pid primary secondary reason target (is_given claims))
      update_proposal pid (approve_row target))
