-- ===== src/Store/Lifecycle/Methods.antt =====
-- Every method moves the proposals along their way, or leaves them where they were.
use aisecure.Prelude.{
  ◌≡◌, refl, sym, ◌∙◌, String, List, [], ◌∷◌, Option, none, some, Bool, true, false, ap,
  if◌then◌else◌, Bool-cases, inl, inr, ◌⊎◌, arith,
}
use mathlib.Core.Path.{subst}
use aisecure.Json.{Value, obj}
use aisecure.Result.{Result, ok, err}
use aisecure.Exec.{Exec, continue, ◌>>=◌}
use aisecure.Exec.Keeps.{Keeps, Keeps-lift, Keeps-bind, keeps_rules}
use aisecure.Document.{Document}
use aisecure.Policy.{Plan}
use aisecure.Platform.{Platform}
use aisecure.Prelude.{ℕ}
use aisecure.Store.State.{
  ProposalRow, Status, pending, simulated, approved, executing, Db, State, Store,
}
use aisecure.Store.Audit.{settle, verify_audit, transaction, record_entry}
use aisecure.Store.Snapshots.{ingest}
use aisecure.Store.Proposals.{
  is_pending, is_approved, is_executing, set_status, update_proposal, new_proposal, reuse_or_new,
  propose,
}
use aisecure.Store.Approvals.{live_row, approve_row, approve_and_simulate, approve_for_execution}
use aisecure.Store.Execution.{
  finish_row, final_status, begin_execution, record_failure, fail_execution, finish_execution,
  stale, settled,
}
use aisecure.Store.Calls.{
  Call, record_call, ingest_call, propose_call, simulate_call, approve_call, begin_call, fail_call,
  finish_call, perform, perform_all,
}
use aisecure.Store.Lifecycle.{
  On, Move, Moves, stay, then_move, simulate, approve, begin, verify, fail, Follows, Follows-refl,
  Evolves, Evolves-refl, Evolves-trans, live_ok,
}
use aisecure.Store.Lifecycle.Frame.{
  frame_rules, settle-On, insert-Evolves, Stage, update-Stage, Evolves-update,
}

-- a row that is changed to `new`, if it was at `old` or at `new`
moved_status : (old new a : Status) → Move old new → (a ≡ old) ⊎ (a ≡ new) → Moves a new
moved_status old new a move (inl e) = subst (λ b. Moves b new) (sym e) (then_move stay move)
moved_status old new a move (inr e) = subst (λ b. Moves b new) (sym e) stay

record SamePlan (r q : ProposalRow) : Type 0 where
  pub same_id : q.id ≡ r.id
  pub same_snapshot : q.snapshot_id ≡ r.snapshot_id
  pub same_finding : q.finding_id ≡ r.finding_id
  pub same_body : q.body ≡ r.body
  pub same_expiry : q.expires_at ≡ r.expires_at

moved_row :
    (old new : Status) (q r : ProposalRow)
    → SamePlan q r
    → r.status ≡ new
    → Move old new
    → (q.status ≡ old) ⊎ (q.status ≡ new)
    → Follows q r
moved_row old new q r same e move at = record {
  same_id = same.same_id;
  same_snapshot = same.same_snapshot;
  same_finding = same.same_finding;
  same_body = same.same_body;
  same_expiry = same.same_expiry;
  moves = subst (Moves q.status) (sym e) (moved_status old new q.status move at);
}

set_status-SamePlan : (done : Status) (q : ProposalRow) → SamePlan q (set_status done q)
set_status-SamePlan done q = record {
  same_id = refl;
  same_snapshot = refl;
  same_finding = refl;
  same_body = refl;
  same_expiry = refl;
}

finish_id : (done : Status) (q : ProposalRow) → (finish_row done q).id ≡ q.id
finish_id done q = ground arith

finish_if :
    (b : Bool) (done : Status) (q : ProposalRow)
    → (b ≡ true → q.status ≡ executing)
    → Move executing done
    → Follows q (if b then set_status done q else q)
finish_if true done q at move =
    moved_row executing done q (set_status done q) (set_status-SamePlan done q) refl move
      (inl (at refl))
finish_if false done q at move = Follows-refl q

finish-Follows :
    (done : Status) → Move executing done → (q : ProposalRow) → Follows q (finish_row done q)
finish-Follows done move q = finish_if (is_executing q.status) done q (λ h. ground arith) move

final_move : (b : Bool) → Move executing (final_status b)
final_move true = verify
final_move false = fail

module _ (os : Platform) (self : Store) where
  Stage-start :
      (expected : Status → Bool) (old new : Status) (pid sid : String) (s : State)
      (row : ProposalRow)
      → ((t : Status) → expected t ≡ true → t ≡ old)
      → (live_row os self expected pid sid s).0 ≡ ok row
      → On (Stage s.db.proposals pid old new) (live_row os self expected pid sid s).1
  Stage-start expected old new pid sid s row only e =
      let (found, status, db) = live_ok os self expected pid sid s row e in
      subst (λ (d : Db). Stage s.db.proposals pid old new d.proposals) (sym db)
        (record {
          evolved = Evolves-refl s.db.proposals;
          at_stage = λ q h.
              let same : q ≡ row = cc (h, found) in
              inl (ap (λ (r : ProposalRow). r.status) same ∙ only row.status status);
        })

  settle-Stage :
      {B : Type 0} (old new : Status) (pid : String) (k : ProposalRow → Exec State B) (s : State)
      (r : Result ProposalRow) (t : State)
      → ((row : ProposalRow) → Keeps (On (Stage s.db.proposals pid old new)) (k row))
      → ((row : ProposalRow) → r ≡ ok row → On (Stage s.db.proposals pid old new) t)
      → Evolves s.db.proposals (settle s (continue r k t)).1.db.proposals
  settle-Stage old new pid k s (ok row) t keeps begins =
      settle-On os self (Evolves s.db.proposals) s (k row t).0 (k row t).1
        (Evolves-refl s.db.proposals) ((keeps row).at t (begins row refl)).evolved
  settle-Stage old new pid k s (err c) t keeps begins = Evolves-refl s.db.proposals

  -- a transaction that begins with the checks of `live_row` and then works on that row
  live_body :
      {B : Type 0} (expected : Status → Bool) (old new : Status) (pid sid : String)
      (k : ProposalRow → Exec State B) (s : State)
      → ((t : Status) → expected t ≡ true → t ≡ old)
      → ((r : ProposalRow) → Keeps (On (Stage s.db.proposals pid old new)) (k r))
      → Evolves s.db.proposals
          (transaction os self (live_row os self expected pid sid >>= k) s).1.db.proposals
  unfolding transaction ◌>>=◌
  live_body expected old new pid sid k s only keeps =
      elim (Bool-cases (verify_audit os self none s.db.audit).valid) [
        | inl valid ↦ rw valid (
            settle-Stage old new pid k s (live_row os self expected pid sid s).0
              (live_row os self expected pid sid s).1 keeps
              (λ row e. Stage-start expected old new pid sid s row only e))
        | inr invalid ↦ rw invalid (Evolves-refl s.db.proposals)
      ]

  live-Evolves :
      {B : Type 0} (ps : List ProposalRow) (expected : Status → Bool) (old new : Status)
      (pid sid : String) (k : ProposalRow → Exec State B)
      → ((t : Status) → expected t ≡ true → t ≡ old)
      → ((qs : List ProposalRow) (r : ProposalRow) → Keeps (On (Stage qs pid old new)) (k r))
      → Keeps (On (Evolves ps)) (transaction os self (live_row os self expected pid sid >>= k))
  live-Evolves ps expected old new pid sid k only keeps = record {
    at =
        λ s h. Evolves-trans h (live_body expected old new pid sid k s only (keeps s.db.proposals));
  }

  is_pending_only : (t : Status) → is_pending t ≡ true → t ≡ pending
  is_pending_only t h = ground arith

  is_approved_only : (t : Status) → is_approved t ≡ true → t ≡ approved
  is_approved_only t h = ground arith

  -- the UPDATE statements
  simulated-Stage :
      (ps : List ProposalRow) (pid : String)
      → Keeps (On (Stage ps pid pending simulated)) (update_proposal pid (set_status simulated))
  simulated-Stage ps pid =
      update-Stage ps pid pending simulated (set_status simulated)
        (λ q at. (
          moved_row pending simulated q (set_status simulated q) (set_status-SamePlan simulated q)
              refl simulate at,
          refl,
        ))
        (λ q. refl)

  approve-SamePlan : (target : String) (q : ProposalRow) → SamePlan q (approve_row os self target q)
  approve-SamePlan target q = record {
    same_id = refl;
    same_snapshot = refl;
    same_finding = refl;
    same_body = refl;
    same_expiry = refl;
  }

  approved-Stage :
      (ps : List ProposalRow) (pid target : String)
      → Keeps
          (On (Stage ps pid pending approved))
          (update_proposal pid (approve_row os self target))
  approved-Stage ps pid target =
      update-Stage ps pid pending approved (approve_row os self target)
        (λ q at. (
          moved_row pending approved q (approve_row os self target q) (approve-SamePlan target q)
              refl approve at,
          refl,
        ))
        (λ q. refl)

  executing-Stage :
      (ps : List ProposalRow) (pid : String)
      → Keeps (On (Stage ps pid approved executing)) (update_proposal pid (set_status executing))
  executing-Stage ps pid =
      update-Stage ps pid approved executing (set_status executing)
        (λ q at. (
          moved_row approved executing q (set_status executing q) (set_status-SamePlan executing q)
              refl begin at,
          refl,
        ))
        (λ q. refl)

  -- an UPDATE … AND status='executing' is a move wherever it is made
  finish-Evolves :
      (ps : List ProposalRow) (pid : String) (done : Status)
      → Move executing done
      → Keeps (On (Evolves ps)) (update_proposal pid (finish_row done))
  unfolding update_proposal
  finish-Evolves ps pid done move = record {
    at = λ s h. Evolves-trans h (
        Evolves-update pid (finish_row done) s.db.proposals (finish_id done)
          (λ q _. finish-Follows done move q));
  }

  module _ (ps : List ProposalRow) where
    simulate-Evolves :
        (pid sid confirmation reason : String)
        → Keeps (On (Evolves ps)) (approve_and_simulate os self pid sid confirmation reason)
    unfolding approve_and_simulate
    simulate-Evolves pid sid confirmation reason = Keeps-bind _ _ (Keeps-lift _) λ _.
        Keeps-bind _ _ (Keeps-lift _) λ _.
          live-Evolves ps is_pending pending simulated pid sid _ is_pending_only
            λ qs r. search (frame_rules, simulated-Stage) depth 20

    approve-Evolves :
        (pid sid confirmation second reason primary secondary : String) (provider : Option String)
        (claims : Option (List Value))
        → Keeps (On (Evolves ps)) (
            approve_for_execution os self pid sid confirmation second reason primary secondary
              provider claims)
    unfolding approve_for_execution
    approve-Evolves pid sid confirmation second reason primary secondary provider claims =
        Keeps-bind _ _ (Keeps-lift _) λ _. Keeps-bind _ _ (Keeps-lift _) λ _.
          Keeps-bind _ _ (Keeps-lift _) λ _. Keeps-bind _ _ (Keeps-lift _) λ _.
            Keeps-bind _ _ (Keeps-lift _) λ _. Keeps-bind _ _ (Keeps-lift _) λ _.
              Keeps-bind _ _ (Keeps-lift _) λ target.
                live-Evolves ps is_pending pending approved pid sid _ is_pending_only
                  λ qs r. search (frame_rules, approved-Stage) depth 20

    record-Evolves :
        (action : String) (v : Value) → Keeps (On (Evolves ps)) (record_entry os self action v)
    unfolding record_entry
    record-Evolves action v = search frame_rules

    ingest-Evolves : (d : Document) → Keeps (On (Evolves ps)) (ingest os self d)
    unfolding ingest
    ingest-Evolves d = search frame_rules depth 20

    new_proposal-Evolves :
        (sid fid : String) (now : ℕ) (plan : Plan)
        → Keeps (On (Evolves ps)) (new_proposal os self sid fid now plan)
    unfolding new_proposal
    new_proposal-Evolves sid fid now plan = search (frame_rules, insert-Evolves) depth 20

    reuse_or_new-Evolves :
        (sid fid : String) (now : ℕ) (plan : Plan) (old : Option ProposalRow)
        → Keeps (On (Evolves ps)) (reuse_or_new os self sid fid now plan old)
    reuse_or_new-Evolves sid fid now plan none = new_proposal-Evolves sid fid now plan
    reuse_or_new-Evolves sid fid now plan (some r) = search keeps_rules

    propose-Evolves : (sid fid : String) → Keeps (On (Evolves ps)) (propose os self sid fid)
    unfolding propose
    propose-Evolves sid fid = search (frame_rules, reuse_or_new-Evolves) depth 20

    module _ (adapter : String) where
      pub begin-Evolves :
          (pid sid : String) (provider : Option String)
          → Keeps (On (Evolves ps)) (begin_execution os self adapter pid sid provider)
      unfolding begin_execution
      begin-Evolves pid sid provider = Keeps-bind _ _ (Keeps-lift _) λ target.
          live-Evolves ps is_approved approved executing pid sid _ is_approved_only
            λ qs r. search (frame_rules, executing-Stage) depth 20

      fail-Evolves :
          (pid error_type : String)
          → Keeps (On (Evolves ps)) (fail_execution os self adapter pid error_type)
      unfolding fail_execution record_failure
      fail-Evolves pid error_type = search (frame_rules, finish-Evolves, fail) depth 20

      complete-Evolves :
          (pid sid : String) (result : Value)
          → Keeps (On (Evolves ps)) (finish_execution os self adapter pid sid result)
      unfolding finish_execution stale settled
      complete-Evolves pid sid result =
          search (frame_rules, finish-Evolves, fail, final_move) depth 20

  module _ (adapter : String) where
    perform-Evolves :
        (c : Call) (s : State) → Evolves s.db.proposals (perform os self adapter c s).db.proposals
    unfolding perform
    perform-Evolves c s = go c
      where
        ps : List ProposalRow
        ps = s.db.proposals

        start : Evolves ps ps
        start = Evolves-refl ps

        go : (c : Call) → Evolves ps (perform os self adapter c s).db.proposals
        go (record_call action fs) = (record-Evolves ps action (obj fs)).at s start
        go (ingest_call d) = (ingest-Evolves ps d).at s start
        go (propose_call sid fid) = (propose-Evolves ps sid fid).at s start
        go (simulate_call pid sid confirmation reason) =
            (simulate-Evolves ps pid sid confirmation reason).at s start
        go (approve_call pid sid confirmation second reason primary secondary provider claims) =
            (approve-Evolves ps pid sid confirmation second reason primary secondary provider
                claims).at
              s start
        go (begin_call pid sid provider) = (begin-Evolves ps adapter pid sid provider).at s start
        go (fail_call pid error_type) = (fail-Evolves ps adapter pid error_type).at s start
        go (finish_call pid sid result) = (complete-Evolves ps adapter pid sid result).at s start

    -- Whatever calls are made, in any order and from any number of threads: every proposal stays
    -- in the table with its plan, snapshot, finding and expiry, and its status only moves from
    -- pending to simulated or approved, from approved to executing, and from there to verified or
    -- failed.
    pub perform_all-Evolves :
        (calls : List Call) (s : State)
        → Evolves s.db.proposals (perform_all os self adapter calls s).db.proposals
    unfolding perform_all
    perform_all-Evolves [] s = Evolves-refl s.db.proposals
    perform_all-Evolves (c ∷ calls) s =
        Evolves-trans (perform-Evolves c s)
          (perform_all-Evolves calls (perform os self adapter c s))
