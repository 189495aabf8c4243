-- ===== src/Store/Checks.antt =====
-- What a call on a proposal has checked when it returns.
use aisecure.Prelude.{
  ℕ, ◌<◌, ◌≡◌, refl, sym, ap, ◌∙◌, String, Option, none, some, Bool, true, false, ◌==◌, arith,
  eq_iff, Bool-cases, inl, inr,
}
use mathlib.Core.Path.{subst}
use aisecure.Result.{ok_value, Result, ok, err}
use aisecure.Exec.{pure, ◌>>=◌}
use aisecure.Exec.Ensures.{bind-ok, lift-ok, reads-ok, require-ok}
use aisecure.Engine.{Finding}
use aisecure.Policy.{Plan, real, plan_for, plan_value}
use aisecure.Document.{Document}
use aisecure.Platform.{Platform}
use aisecure.Store.State.{ProposalRow, Status, executing, Db, State, Store, unprotect, utcnow}
use aisecure.Store.Audit.{audit, verify_audit}
use aisecure.Store.Snapshots.{snapshot, get_finding}
use aisecure.Store.Proposals.{
  update_proposal, set_status, is_approved, proposal_row, proposal_aad, parse_time,
}
use aisecure.Store.Approvals.{
  validate_target, target_hmac, same_snapshot, same_plan, after, live_row, is_current, body_is,
}
use aisecure.Store.Execution.{same_target, Context, begin_execution}
use aisecure.Store.Lifecycle.{live_ok}
use aisecure.Store.Dispatch.{transaction-ok}

module _ (os : Platform) (self : Store) where
  -- the proposal is there with the status, for the current snapshot, and has not expired
  pub record Live (expected : Status → Bool) (pid sid : String) (s : State) (r : ProposalRow)
      : Type 0 where
    pub found : proposal_row pid s.db.proposals ≡ some r
    pub status : expected r.status ≡ true
    pub of_snapshot : r.snapshot_id ≡ sid
    pub current : (d : Document) × (snapshot os self s.db ≡ ok (some (sid, d)))
    pub in_time : (t : ℕ) × (parse_time os self r.expires_at ≡ ok t) × (os.clock s.readings < t)

  current_names :
      (sid : String) (o : Result (Option (String × Document)))
      → is_current os self sid o ≡ ok tt
      → (d : Document) × (o ≡ ok (some (sid, d)))
  current_names sid (err c) h = cc
  current_names sid (ok none) h = cc
  current_names sid (ok (some (current, d))) h = (d, ground (arith, eq_iff current sid))

  same_current :
      (r : ProposalRow) (sid : String) (db : Db)
      → same_snapshot os self r sid db ≡ ok tt
      → (r.snapshot_id ≡ sid) × (d : Document) × (snapshot os self db ≡ ok (some (sid, d)))
  unfolding same_snapshot
  same_current r sid db h = elim (Bool-cases (r.snapshot_id == sid)) [
    | inl same ↦
        let (d, e) = current_names sid (snapshot os self db) (rw (same, same_snapshot) at h) in
        (ground (arith, eq_iff r.snapshot_id sid), d, e)
    | inr other ↦ cc (rw (other, same_snapshot) at h)
  ]

  later_than :
      (now : ℕ) (o : Result ℕ) → after os self now o ≡ ok tt → (t : ℕ) × (o ≡ ok t) × (now < t)
  unfolding after
  later_than now (err c) h = cc
  later_than now (ok t) h = (t, refl, ground arith)

  live_tests :
      (expected : Status → Bool) (pid sid : String) (s : State) (r : ProposalRow)
      → (live_row os self expected pid sid s).0 ≡ ok r
      → (same_snapshot os self r sid s.db ≡ ok tt)
        × (after os self (os.clock s.readings) (parse_time os self r.expires_at) ≡ ok tt)
  unfolding live_row ◌>>=◌ utcnow
  live_tests expected pid sid s r h = ground arith

  pub live_row-Live :
      (expected : Status → Bool) (pid sid : String) (s : State) (r : ProposalRow)
      → (live_row os self expected pid sid s).0 ≡ ok r
      → Live expected pid sid s r
  live_row-Live expected pid sid s r h =
      let (found, status, _) = live_ok os self expected pid sid s r h in
      let (same, time) = live_tests expected pid sid s r h in
      let (named, d, current) = same_current r sid s.db same in
      record {
        found = found;
        status = status;
        of_snapshot = named;
        current = (d, current);
        in_time = later_than (os.clock s.readings) (parse_time os self r.expires_at) time;
      }

  -- the plan that is stored is the one that the policy gives now
  pub record Current (r : ProposalRow) (sid : String) (db : Db) (f : Finding) : Type 0 where
    pub of_finding : get_finding os self sid r.finding_id db ≡ ok f
    pub stored :
        unprotect os self r.body (proposal_aad os self r.id)
        ≡ ok (os.dumps (plan_value (plan_for f)))

  same_text : (o : Result String) (text : String) → body_is os self o text ≡ ok tt → o ≡ ok text
  same_text (err c) text h = cc
  same_text (ok body) text h = ground (arith, eq_iff body text)

  pub same_plan-Current :
      (r : ProposalRow) (sid : String) (db : Db) (f : Finding)
      → get_finding os self sid r.finding_id db ≡ ok f
      → same_plan os self r (plan_for f) ≡ ok tt
      → Current r sid db f
  unfolding same_plan
  same_plan-Current r sid db f e h = record {
    of_finding = e;
    stored =
        same_text (unprotect os self r.body (proposal_aad os self r.id))
          (os.dumps (plan_value (plan_for f))) h;
  }

  bound_target :
      (o : Option String) (target : String)
      → same_target os self "" o target ≡ true
      → o ≡ some (target_hmac os self target)
  bound_target none target h = cc
  bound_target (some mac) target h = ground (arith, eq_iff mac (target_hmac os self target))

  -- what the first transaction of `execute_approved` has checked, and what it hands over
  pub record Checked (pid sid : String) (provider : Option String) (s : State) (p : Plan × Context)
      : Type 0 where
    pub row : ProposalRow
    pub finding : Finding
    pub live : Live is_approved pid sid s row
    pub current : Current row sid s.db finding
    pub chain : (verify_audit os self none s.db.audit).valid ≡ true
    pub given : provider ≡ some p.1.provider_target
    pub bound : row.approved_target_hmac ≡ some (target_hmac os self p.1.provider_target)
    pub plan :
        p.0 ≡ record (plan_for finding) { execution_mode = real; automatic_execution = false }
    pub context :
        (p.1.proposal_id ≡ pid)
        × (p.1.snapshot_id ≡ sid)
        × (p.1.evidence_ids ≡ finding.evidence_ids)

  module _ (adapter : String) where
    target_given :
        (provider : Option String) (target : String)
        → validate_target provider ≡ ok target
        → provider ≡ some target
    unfolding validate_target
    target_given none target h = cc
    target_given (some given) target h = ground arith

    -- When the first transaction of `execute_approved` returns, the audit chain verified, the
    -- proposal was approved, for the snapshot that is still the current one, and has not expired;
    -- the target given is the one that was approved; the stored plan is the one that the policy
    -- derives now from a finding of that snapshot; and the plan and the context handed over are
    -- those of that finding.
    pub begin_execution-Checked :
        (pid sid : String) (provider : Option String) (s : State) (p : Plan × Context)
        → (begin_execution os self adapter pid sid provider s).0 ≡ ok p
        → Checked pid sid provider s p
    unfolding begin_execution pure
    begin_execution-Checked pid sid provider s p h =
        let (target, given, h1, _) = lift-ok (validate_target provider) _ s p h in
        let (h2, _, chain) = transaction-ok os self _ s p h1 in
        let (r, live, h3, _) = bind-ok (live_row os self is_approved pid sid) _ s p h2 in
        let (_, _, db) = live_ok os self is_approved pid sid s r live in
        let t = (live_row os self is_approved pid sid s).1 in
        let (_, bound, h4, _) = lift-ok _ _ t p h3 in
        let (f, found, h5, _) = reads-ok _ _ t p h4 in
        let (_, same, h6, _) = lift-ok _ _ t p h5 in
        let (_, _, h7, _) = bind-ok (update_proposal pid (set_status executing)) _ t p h6 in
        let (_, _, h8, _) = bind-ok (audit os self _ _) _ _ p h7 in
        subst (Checked pid sid provider s) (ok_value _ p h8) (record {
          row = r;
          finding = f;
          live = live_row-Live is_approved pid sid s r live;
          current =
              same_plan-Current r sid s.db f
                (ap (get_finding os self sid r.finding_id) (sym db) ∙ found) same;
          chain = chain;
          given = target_given provider target given;
          bound = bound_target r.approved_target_hmac target (require-ok _ _ bound);
          plan = refl;
          context = (refl, refl, refl);
        })
