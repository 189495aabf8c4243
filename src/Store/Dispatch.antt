-- ===== src/Store/Dispatch.antt =====
-- When the responder is called: at most once for a proposal, and only for one that was approved.
use aisecure.Prelude.{
  ◌≡◌, ◌≢◌, refl, sym, ap, ◌∙◌, String, List, Option, none, some, true, Bool-cases, inl, inr, arith,
}
use mathlib.Core.Path.{subst}
use aisecure.Json.{Value}
use aisecure.Result.{Result, ok, err}
use aisecure.Exec.{Exec, pure, ◌>>=◌}
use aisecure.Exec.Keeps.{Keeps}
use aisecure.Exec.Ensures.{Ensures, Ensures-later, Ensures-now, bind-ok, lift-ok}
use aisecure.Policy.{Plan}
use aisecure.Platform.{Platform}
use aisecure.Store.State.{ProposalRow, Status, executing, verified, failed, State, Store}
use aisecure.Store.Audit.{audit, settle, verify_audit, transaction}
use aisecure.Store.Proposals.{is_approved, set_status, update_proposal, proposal_row}
use aisecure.Store.Approvals.{live_row, validate_target}
use aisecure.Store.Execution.{Context, begin_execution}
use aisecure.Store.Calls.{Call, perform_all}
use aisecure.Store.Lifecycle.{On, Moves, stay, then_move, Move, verify, fail, Evolves-refl, live_ok}
use aisecure.Store.Lifecycle.Frame.{frame_rules, updated_row}
use aisecure.Store.Lifecycle.Methods.{begin-Evolves, perform_all-Evolves}

-- the row of the proposal, if there is one, has the status
abbrev StatusIs : String → Status → List ProposalRow → Type 0
StatusIs pid st qs = (q : ProposalRow) → proposal_row pid qs ≡ some q → q.status ≡ st

-- what an execution leads to
abbrev Started : Status → Type 0
Started executing = Unit
Started verified = Unit
Started failed = Unit
Started _ = ⊥

move_Started : {a b : Status} → Move a b → Started a → Started b
move_Started verify h = tt
move_Started fail h = tt
move_Started Move.simulate h = absurd h
move_Started Move.approve h = absurd h
move_Started Move.begin h = absurd h

Moves-Started : {a b : Status} → Moves a b → Started a → Started b
Moves-Started stay h = h
Moves-Started (then_move m x) h = move_Started x (Moves-Started m h)

Started-approved : (a : Status) → Started a → is_approved a ≡ true → ⊥
Started-approved a h e = ground arith

update-StatusIs :
    (pid : String)
    → Ensures (On (StatusIs pid executing)) (update_proposal pid (set_status executing))
unfolding update_proposal
update-StatusIs pid = record {
  at = λ s a h q e.
      let (p, found, same) =
        updated_row pid (set_status executing) s.db.proposals q (λ r. refl) e in
      ap (λ (r : ProposalRow). r.status) same;
}

module _ (os : Platform) (self : Store) where
  settle-ok :
      {A : Type 0} (s : State) (r : Result A) (t : State) (a : A)
      → (settle s (r, t)).0 ≡ ok a
      → (r ≡ ok a) × ((settle s (r, t)).1 ≡ t)
  settle-ok s (ok b) t a h = (h, refl)
  settle-ok s (err c) t a h = cc

  -- a transaction that returns ran its body, and committed
  pub transaction-ok :
      {A : Type 0} (body : Exec State A) (s : State) (a : A)
      → (transaction os self body s).0 ≡ ok a
      → ((body s).0 ≡ ok a)
        × ((transaction os self body s).1 ≡ (body s).1)
        × ((verify_audit os self none s.db.audit).valid ≡ true)
  unfolding transaction
  transaction-ok body s a h = elim (Bool-cases (verify_audit os self none s.db.audit).valid) [
    | inl valid ↦
        let (done, state) = settle-ok s (body s).0 (body s).1 a (rw (valid, transaction) at h) in
        (done, rw valid state, valid)
    | inr invalid ↦ cc (rw (invalid, transaction) at h)
  ]

  transaction-Ensures :
      {A : Type 0} {R : State → Type 0} (body : Exec State A)
      → Ensures R body
      → Ensures R (transaction os self body)
  transaction-Ensures {R = R} body e = record {
    at = λ s a h.
        let (done, state, _) = transaction-ok body s a h in subst R (sym state) (e.at s a done);
  }

  module _ (adapter : String) where
    executing-Keeps :
        {A : Type 0} (pid action : String) (v : Value) (a : A)
        → Keeps (On (StatusIs pid executing)) (audit os self action v >>= λ _. pure a)
    executing-Keeps pid action v a = search frame_rules

    begin-StatusIs :
        (pid sid : String) (provider : Option String)
        → Ensures (On (StatusIs pid executing)) (begin_execution os self adapter pid sid provider)
    unfolding begin_execution
    begin-StatusIs pid sid provider = Ensures-later _ _ λ target. transaction-Ensures _ (
        Ensures-later _ _ λ r. Ensures-later _ _ λ _. Ensures-later _ _ λ f.
          Ensures-later _ _
            λ _. Ensures-now _ _ (update-StatusIs pid) λ _. executing-Keeps pid _ _ _)

    -- what the first transaction checked before it handed the plan over
    pub begin_row :
        (pid sid : String) (provider : Option String) (s : State) (p : Plan × Context)
        → (begin_execution os self adapter pid sid provider s).0 ≡ ok p
        → (r : ProposalRow) × (proposal_row pid s.db.proposals ≡ some r)
          × (is_approved r.status ≡ true)
    unfolding begin_execution
    begin_row pid sid provider s p h =
        let (target, _, h1, _) = lift-ok (validate_target provider) _ s p h in
        let (h2, _, _) = transaction-ok _ s p h1 in
        let (r, live, _, _) = bind-ok (live_row os self is_approved pid sid) _ s p h2 in
        let (found, status, _) = live_ok os self is_approved pid sid s r live in (r, found, status)

    -- After the first transaction of `execute_approved` has returned, no later call for the same
    -- proposal returns from it, whatever calls lie between and whatever their arguments: the
    -- responder is handed the plan of a proposal at most once.
    pub dispatch_once :
        (pid sid sid' : String) (provider provider' : Option String) (s : State)
        (p p' : Plan × Context) (calls : List Call)
        → (begin_execution os self adapter pid sid provider s).0 ≡ ok p
        → (begin_execution os self adapter pid sid' provider' (
            perform_all os self adapter calls
              (begin_execution os self adapter pid sid provider s).1)).0
          ≢ ok p'
    dispatch_once pid sid sid' provider provider' s p p' calls h again =
        let t = (begin_execution os self adapter pid sid provider s).1 in
        let (r, found, _) = begin_row pid sid provider s p h in
        let (q, at_t, _) =
          ((begin-Evolves os self s.db.proposals adapter pid sid provider).at s
              (Evolves-refl s.db.proposals)).at
            pid r found in
        let running : q.status ≡ executing = (begin-StatusIs pid sid provider).at s p h q at_t in
        let (q', at_u, follows) = (perform_all-Evolves os self adapter calls t).at pid q at_t in
        let (r', found', approved') =
          begin_row pid sid' provider' (perform_all os self adapter calls t) p' again in
        let same : q' ≡ r' = cc (at_u, found') in
        Started-approved q'.status (Moves-Started follows.moves (subst Started (sym running) tt))
          (ap (λ (x : ProposalRow). is_approved x.status) same ∙ approved')
