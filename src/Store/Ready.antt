-- ===== src/Store/Ready.antt =====
-- When the first transaction of `execute_approved` goes through.
use aisecure.Prelude.{
  ◌≡◌, refl, ap, ◌∙◌, String, [], ◌∷◌, none, some, Bool, true, false, eq_iff, lt→ltb, ==_refl,
  last?,
}
use aisecure.Result.{Result, ok, err, require, conflict}
use aisecure.Exec.{Exec, pure, lift, reads, continue, ◌>>=◌, ◌>>◌}
use aisecure.Json.{Value, obj, fields, str}
use aisecure.Engine.{Finding}
use aisecure.Policy.{Plan, real, plan_for, plan_value}
use aisecure.Platform.{Platform}
use aisecure.Store.State.{ProposalRow, Db, State, Store, executing, utcnow, protect, protect_if}
use aisecure.Store.Audit.{verify_audit, audit, transaction, settle, insert_row}
use aisecure.Store.Snapshots.{get_finding}
use aisecure.Store.Proposals.{is_approved, update_proposal, set_status}
use aisecure.Store.Approvals.{
  validate_target, target_hmac, same_snapshot, same_plan, after, live_row,
}
use aisecure.Store.Execution.{Context, same_target, begin_execution}
use aisecure.Store.Lifecycle.{live_ok}
use aisecure.Store.Checks.{Live, Current}

module _ {S A B : Type 0} where
  -- a first step that returns is followed by the rest
  bind-runs :
      (m : Exec S A) (f : A → Exec S B) (s : S) (a : A)
      → (m s).0 ≡ ok a
      → ((m >>= f) s).0 ≡ (f a (m s).1).0
  unfolding ◌>>=◌
  bind-runs m f s a e = ap (λ (r : Result A). (continue r f (m s).1).0) e

  reads-runs :
      (g : S → Result A) (f : A → Exec S B) (s : S) (a : A)
      → g s ≡ ok a
      → ((reads g >>= f) s).0 ≡ (f a s).0
  unfolding ◌>>=◌
  reads-runs g f s a e = ap (λ (r : Result A). (continue r f s).0) e

  lift-runs :
      (r : Result A) (f : A → Exec S B) (s : S) (a : A)
      → r ≡ ok a
      → ((lift r >>= f) s).0 ≡ (f a s).0
  unfolding ◌>>=◌
  lift-runs r f s a e = ap (λ (r : Result A). (continue r f s).0) e

module _ (os : Platform) (self : Store) where
  settle-ok :
      {A : Type 0} (s : State) (x : Result A × State) (a : A) → x.0 ≡ ok a → (settle s x).0 ≡ ok a
  settle-ok s (ok b, t) a e = e
  settle-ok s (err c, t) a e = cc

  transaction-runs :
      {A : Type 0} (body : Exec State A) (s : State) (a : A)
      → (verify_audit os self none s.db.audit).valid ≡ true
      → (body s).0 ≡ ok a
      → (transaction os self body s).0 ≡ ok a
  unfolding transaction
  transaction-runs body s a valid e = rw valid (settle-ok s (body s) a e)

  protect_if-returns :
      (b : Bool) (text aad : String) (s : State)
      → (stored : String) × ((protect_if os self b text aad s).0 ≡ ok stored)
  protect_if-returns true text aad s = (_, refl)
  protect_if-returns false text aad s = (text, refl)

  -- an audit entry is always written
  audit-returns :
      (action : String) (payload : Value) (s : State) → (audit os self action payload s).0 ≡ ok tt
  unfolding audit utcnow protect insert_row
  audit-returns action payload s =
      reads-runs (λ (t : State). ok (last? t.db.audit)) _ s (last? s.db.audit) refl
      ∙ bind-runs (utcnow os self) _ s (os.clock s.readings) refl
      ∙ (let (stored, e) = protect_if-returns self.encrypted _ _ (utcnow os self s).1 in
          bind-runs (protect os self _ _) _ (utcnow os self s).1 stored e)

  same_snapshot-ok :
      {expected : _} (pid sid : String) (s : State) (r : ProposalRow)
      → Live os self expected pid sid s r
      → same_snapshot os self r sid s.db ≡ ok tt
  unfolding same_snapshot
  same_snapshot-ok pid sid s r x =
      rw ((eq_iff r.snapshot_id sid).1 x.of_snapshot, x.current.1, ==_refl sid) refl

  live_row-runs :
      (pid sid : String) (s : State) (r : ProposalRow)
      → Live os self is_approved pid sid s r
      → (live_row os self is_approved pid sid s).0 ≡ ok r
  unfolding live_row ◌>>=◌ utcnow after
  live_row-runs pid sid s r x =
      let (t, expiry, later) = x.in_time in
      rw
        (
          x.found,
          x.status,
          same_snapshot-ok pid sid s r x,
          expiry,
          lt→ltb (os.clock s.readings) t later,
        )
        refl

  same_plan-ok :
      (sid : String) (db : Db) (r : ProposalRow) (f : Finding)
      → Current os self r sid db f
      → same_plan os self r (plan_for f) ≡ ok tt
  unfolding same_plan
  same_plan-ok sid db r f x = rw (x.stored, ==_refl (os.dumps (plan_value (plan_for f)))) refl

  module _ (adapter : String) where
    -- the first transaction, after the row
    abbrev after_row : String → String → String → ProposalRow → Exec State (Plan × Context)
    after_row pid sid target r = do
      lift (require (same_target os self adapter r.approved_target_hmac target) conflict)
      f ← reads (λ s. get_finding os self sid r.finding_id s.db)
      lift (same_plan os self r (plan_for f))
      update_proposal pid (set_status executing)
      audit os self "plan.execution_started"
          (obj (fields (("proposal_id", str pid) ∷ ("adapter", str adapter) ∷ [])))
      pure (
        record (plan_for f) { execution_mode = real; automatic_execution = false },
        record {
          proposal_id = pid;
          snapshot_id = sid;
          evidence_ids = f.evidence_ids;
          provider_target = target;
        },
      )

    updated : (pid : String) (t : State) → (update_proposal pid (set_status executing) t).0 ≡ ok tt
    unfolding update_proposal
    updated pid t = refl

    body-runs :
        (pid sid target : String) (s t : State) (r : ProposalRow) (f : Finding)
        → t.db ≡ s.db
        → r.approved_target_hmac ≡ some (target_hmac os self target)
        → Current os self r sid s.db f
        → (p : Plan × Context) × ((after_row pid sid target r t).0 ≡ ok p)
    unfolding pure
    body-runs pid sid target s t r f same bound current = (
      _,
      lift-runs (require (same_target os self adapter r.approved_target_hmac target) conflict) _ t
            tt (rw (bound, ==_refl (target_hmac os self target)) refl)
          ∙ reads-runs (λ (v : State). get_finding os self sid r.finding_id v.db) _ t f
              (ap (get_finding os self sid r.finding_id) same ∙ current.of_finding)
          ∙ lift-runs (same_plan os self r (plan_for f)) _ t tt (same_plan-ok sid s.db r f current)
          ∙ bind-runs (update_proposal pid (set_status executing)) _ t tt (updated pid t)
          ∙ bind-runs (audit os self "plan.execution_started" _) _
              (update_proposal pid (set_status executing) t).1 tt (audit-returns _ _ _),
    )

    -- An approved proposal can be executed: the first transaction of `execute_approved` returns a plan
    -- when the target is a text of 1 to 160 characters without control characters, the audit chain
    -- verifies, the proposal is there, approved, for the current snapshot and not expired at this
    -- reading of the clock, the target is the one that was approved, and the stored plan is the one
    -- that the policy gives for its finding.
    pub begin_execution-starts :
        (pid sid target : String) (s : State) (r : ProposalRow) (f : Finding)
        → validate_target (some target) ≡ ok target
        → (verify_audit os self none s.db.audit).valid ≡ true
        → Live os self is_approved pid sid s r
        → r.approved_target_hmac ≡ some (target_hmac os self target)
        → Current os self r sid s.db f
        → (p : Plan × Context) × ((begin_execution os self adapter pid sid (some target) s).0
            ≡ ok p)
    unfolding begin_execution
    begin_execution-starts pid sid target s r f fits valid live bound current =
        let row = live_row-runs pid sid s r live in
        let (_, _, db) = live_ok os self is_approved pid sid s r row in
        let t = (live_row os self is_approved pid sid s).1 in
        let (p, runs) = body-runs pid sid target s t r f db bound current in
        (
          p,
          lift-runs (validate_target (some target)) _ s target fits
              ∙ transaction-runs _ s p valid
                  (bind-runs (live_row os self is_approved pid sid) _ s r row ∙ runs),
        )
