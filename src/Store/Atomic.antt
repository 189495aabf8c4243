-- ===== src/Store/Atomic.antt =====
-- What a call that raises leaves in the tables.
use aisecure.Prelude.{
  ◌≡◌, ◌⊎◌, refl, ap, ◌∙◌, String, List, [], ◌∷◌, Option, none, some, Bool, true, false, Bool-cases,
  inl, inr,
}
use aisecure.Json.{Value, obj, fields, str}
use aisecure.Result.{Result, Code, ok, err, responder, Result-cases}
use aisecure.Exec.{Exec, pure, lift, continue, ◌>>=◌}
use aisecure.Exec.Ensures.{bind-ok}
use aisecure.Document.{Document}
use aisecure.Platform.{Platform}
use aisecure.Store.State.{State, Store, failed, protect, protect_if}
use aisecure.Store.Audit.{settle, verify_audit, transaction, record_entry}
use aisecure.Store.Snapshots.{ingest}
use aisecure.Store.Proposals.{propose, update_rows, update_proposal}
use aisecure.Store.Approvals.{approve_and_simulate, approve_for_execution}
use aisecure.Store.Execution.{
  finish_row, begin_execution, record_failure, fail_execution, finish_execution,
}
use aisecure.Store.Dispatch.{transaction-ok}
use aisecure.Store.Lifecycle.Frame.{audit-On}
use aisecure.Store.Calls.{
  Call, record_call, ingest_call, propose_call, simulate_call, approve_call, begin_call, fail_call,
  finish_call, perform, error_of, failure,
}

-- `m` writes nothing to the tables when it raises
record Atomic {A : Type 0} (m : Exec State A) : Type 0 where
  pub at : (s : State) (c : Code) → (m s).0 ≡ err c → (m s).1.db ≡ s.db

module _ {A B : Type 0} where
  Atomic-lift :
      (r : Result A) (f : A → Exec State B) → ((a : A) → Atomic (f a)) → Atomic (lift r >>= f)
  unfolding ◌>>=◌
  Atomic-lift (ok a) f rest = rest a
  Atomic-lift (err c) f rest = record { at = λ s d h. refl }

  then_pure :
      (r : Result A) (s t : State) (b : B) (c : Code)
      → ((d : Code) → r ≡ err d → t.db ≡ s.db)
      → (continue r (λ _. pure b) t).0 ≡ err c
      → (continue r (λ _. pure b) t).1.db ≡ s.db
  unfolding pure
  then_pure (ok a) s t b c first h = cc
  then_pure (err d) s t b c first h = first d refl

  Atomic-then_pure : (m : Exec State A) (b : B) → Atomic m → Atomic (m >>= λ _. pure b)
  unfolding ◌>>=◌
  Atomic-then_pure m b first = record {
    at = λ s c h. then_pure (m s).0 s (m s).1 b c (first.at s) h;
  }

module _ {S : Type 0} where
  -- what a raise after a step leaves
  then_raise :
      (r : Result (Unit {0})) (t : S) → (continue {B = Bool} r (λ _. lift (err responder)) t).1 ≡ t
  unfolding lift
  then_raise (ok u) t = refl
  then_raise (err d) t = refl

  raised_after :
      (u : Unit {0}) (r : Result (Unit {0})) (t : S) (c : Code)
      → r ≡ ok u
      → (continue {B = Bool} r (λ _. lift (err responder)) t).0 ≡ err c
      → c ≡ responder
  unfolding lift
  raised_after u (ok w) t c e h = cc h
  raised_after u (err d) t c e h = cc e

module _ (os : Platform) (self : Store) where
  settle-Atomic :
      {A : Type 0} (s : State) (r : Result A) (t : State) (c : Code)
      → (settle s (r, t)).0 ≡ err c
      → (settle s (r, t)).1.db ≡ s.db
  settle-Atomic s (ok a) t c h = cc
  settle-Atomic s (err d) t c h = refl

  transaction-Atomic : {A : Type 0} (body : Exec State A) → Atomic (transaction os self body)
  unfolding transaction
  transaction-Atomic body = record {
    at = λ s c h. elim (Bool-cases (verify_audit os self none s.db.audit).valid) [
      | inl valid ↦
          rw valid (settle-Atomic s (body s).0 (body s).1 c (rw (valid, transaction) at h))
      | inr invalid ↦ rw invalid
    ];
  }

  protect_first :
      {A : Type 0} (b : Bool) (value aad : String) (f : String → Exec State A)
      → ((stored : String) → Atomic (f stored))
      → Atomic (protect_if os self b value aad >>= f)
  unfolding ◌>>=◌
  protect_first true value aad f rest = record { at = λ s c h. (rest _).at _ c h }
  protect_first false value aad f rest = rest value

  ingest-Atomic : (d : Document) → Atomic (ingest os self d)
  unfolding ingest protect
  ingest-Atomic d =
      protect_first self.encrypted _ _ _ λ stored. Atomic-then_pure _ _ (transaction-Atomic _)

  simulate-Atomic :
      (pid sid confirmation reason : String)
      → Atomic (approve_and_simulate os self pid sid confirmation reason)
  unfolding approve_and_simulate
  simulate-Atomic pid sid confirmation reason =
      Atomic-lift _ _ λ _. Atomic-lift _ _ λ _. transaction-Atomic _

  approve-Atomic :
      (pid sid confirmation second reason primary secondary : String) (provider : Option String)
      (claims : Option (List Value))
      → Atomic (
          approve_for_execution os self pid sid confirmation second reason primary secondary
            provider claims)
  unfolding approve_for_execution
  approve-Atomic pid sid confirmation second reason primary secondary provider claims =
      Atomic-lift _ _ λ _. Atomic-lift _ _ λ _. Atomic-lift _ _ λ _.
        Atomic-lift _ _
          λ _. Atomic-lift _ _ λ _. Atomic-lift _ _ λ _. Atomic-lift _ _ λ _. transaction-Atomic _

  begin-Atomic :
      (adapter pid sid : String) (provider : Option String)
      → Atomic (begin_execution os self adapter pid sid provider)
  unfolding begin_execution
  begin-Atomic adapter pid sid provider = Atomic-lift _ _ λ _. transaction-Atomic _

  -- the handler of an exception of the responder has committed its transaction, and then raised
  -- ResponderError
  pub record Reported (adapter : String) (call : Call) (s : State) (c : Code) : Type 0 where
    pub pid : String
    pub error_type : String
    pub is_handler : call ≡ fail_call pid error_type
    pub committed : (record_failure os self adapter pid error_type s).0 ≡ ok tt
    pub raises : c ≡ responder
    pub marked :
        (perform os self adapter call s).db.proposals
        ≡ update_rows pid (finish_row failed) s.db.proposals

  -- what the handler's transaction makes of the table of proposals
  failure_rows :
      (adapter pid error_type : String) (s : State)
      → (record_failure os self adapter pid error_type s).0 ≡ ok tt
      → (record_failure os self adapter pid error_type s).1.db.proposals
        ≡ update_rows pid (finish_row failed) s.db.proposals
  unfolding record_failure update_proposal
  failure_rows adapter pid error_type s h =
      let (done, state, _) = transaction-ok os self _ s tt h in
      let (u, _, _, last) = bind-ok (update_proposal pid (finish_row failed)) _ s tt done in
      ap (λ (t : State). t.db.proposals) (state ∙ last)
      ∙ (audit-On os self (λ ps. ps ≡ update_rows pid (finish_row failed) s.db.proposals)
            "plan.failed"
            (obj (fields (("proposal_id", str pid) ∷ ("error_type", str error_type) ∷ [])))).at
          _ refl

  fail-Reported :
      (adapter pid error_type : String) (s : State) (c : Code)
      → (fail_execution os self adapter pid error_type s).0 ≡ err c
      → ((fail_execution os self adapter pid error_type s).1.db ≡ s.db)
        ⊎ Reported adapter (fail_call pid error_type) s c
  unfolding fail_execution perform record_failure ◌>>=◌
  fail-Reported adapter pid error_type s c h =
      let m = record_failure os self adapter pid error_type in
      let state = then_raise (m s).0 (m s).1 in
      elim (Result-cases (m s).0) [
        | inl (u, e) ↦ inr (record {
          pid = pid;
          error_type = error_type;
          is_handler = refl;
          committed = e;
          raises = raised_after u (m s).0 (m s).1 c e h;
          marked =
              ap (λ (t : State). t.db.proposals) state ∙ failure_rows adapter pid error_type s e;
        })
        | inr (d, e) ↦ inl (ap (λ (t : State). t.db) state ∙ (transaction-Atomic _).at s d e)
      ]

  finish-Atomic :
      (adapter pid sid : String) (result : Value)
      → Atomic (finish_execution os self adapter pid sid result)
  unfolding finish_execution
  finish-Atomic adapter pid sid result = transaction-Atomic _

  propose-Atomic : (sid fid : String) → Atomic (propose os self sid fid)
  unfolding propose
  propose-Atomic sid fid = transaction-Atomic _

  record-Atomic : (action : String) (v : Value) → Atomic (record_entry os self action v)
  unfolding record_entry
  record-Atomic action v = transaction-Atomic _

  raised_error : {A : Type 0} (r : Result A) (c : Code) → error_of os self "" r ≡ some c → r ≡ err c
  raised_error (ok a) c h = cc
  raised_error (err d) c h = cc

  -- A call that raises, for whatever reason, leaves every table as it was before, but for the
  -- handler of an exception of the responder: when its transaction commits, it raises
  -- ResponderError, and the proposal is failed if it was executing, every other as before.
  pub failed_call-db :
      (adapter : String) (call : Call) (s : State) (c : Code)
      → failure os self adapter call s ≡ some c
      → ((perform os self adapter call s).db ≡ s.db) ⊎ Reported adapter call s c
  unfolding failure perform
  failed_call-db adapter (record_call action fs) s c h =
      inl ((record-Atomic action (obj fs)).at s c (raised_error _ c h))
  failed_call-db adapter (ingest_call d) s c h = inl ((ingest-Atomic d).at s c (raised_error _ c h))
  failed_call-db adapter (propose_call sid fid) s c h =
      inl ((propose-Atomic sid fid).at s c (raised_error _ c h))
  failed_call-db adapter (simulate_call pid sid confirmation reason) s c h =
      inl ((simulate-Atomic pid sid confirmation reason).at s c (raised_error _ c h))
  failed_call-db adapter
        (approve_call pid sid confirmation second reason primary secondary provider claims) s c h =
      inl (
        (approve-Atomic pid sid confirmation second reason primary secondary provider claims).at s c
          (raised_error _ c h))
  failed_call-db adapter (begin_call pid sid provider) s c h =
      inl ((begin-Atomic adapter pid sid provider).at s c (raised_error _ c h))
  failed_call-db adapter (fail_call pid error_type) s c h =
      fail-Reported adapter pid error_type s c (raised_error _ c h)
  failed_call-db adapter (finish_call pid sid result) s c h =
      inl ((finish-Atomic adapter pid sid result).at s c (raised_error _ c h))
