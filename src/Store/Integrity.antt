-- ===== src/Store/Integrity.antt =====
-- Every method of the store leaves behind an audit chain that verifies.
use aisecure.Prelude.{
  Bool, ℕ, suc, ◌+◌, ◌≡◌, refl, sym, String, List, [], ◌∷◌, ◌++◌, Option, none, some, Bool, true,
  Bool, false, arith, last?, ==_refl, eq_iff, Bool-cases, inl, inr,
}
use mathlib.Core.Path.{subst}
use aisecure.Json.{Value, Fields, obj}
use aisecure.Result.{Result, ok, err}
use aisecure.Exec.{Exec, ◌>>=◌}
use aisecure.Exec.Keeps.{Keeps, keeps_rules}
use aisecure.Platform.{Platform}
use aisecure.Cipher.{encrypt}
use aisecure.Cipher.Roundtrip.{Faithful, decrypt-encrypt}
use aisecure.Store.State.{
  AuditRow, SnapshotRow, ProposalRow, Status, Db, State, Store, utcnow, token_hex, protect,
  protect_if, unprotect, unprotect_if,
}
use aisecure.Store.Audit.{
  walk_start, walk, walk_row, row_valid, audit_aad, audit_payload, new_row, audit, insert_row,
  settle, verify_audit, transaction, record_entry, next_seq, last_mac, row_mac,
}
use aisecure.Document.{Document}
use aisecure.Policy.{Plan}
use aisecure.Store.Snapshots.{ingest, store_snapshot}
use aisecure.Store.Proposals.{
  update_proposal, insert_proposal, insert_if_new, proposal_row, reuse_or_new, propose,
  new_proposal,
}
use aisecure.Store.Approvals.{live_row, approve_and_simulate, approve_for_execution}
use aisecure.Store.Execution.{
  begin_execution, record_failure, fail_execution, finish_execution, stale, settled,
}
use aisecure.Store.Calls.{
  Call, record_call, ingest_call, propose_call, simulate_call, approve_call, begin_call, fail_call,
  finish_call, perform, perform_all,
}
use aisecure.Store.Audit.Chain.{IsValid, walk-append, valid_last}

-- What the cipher and the JSON library are documented to do: an envelope opens, and the text of
-- an object reads as an object.
pub record Dependable (os : Platform) (self : Store) : Type 0 where
  pub cipher : Faithful os self.master
  pub parses : (fs : Fields) → (gs : Fields) × (os.loads (os.dumps (obj fs)) ≡ some (obj gs))

abbrev pub Chained : Platform → Store → State → Type 0
Chained os self s = IsValid os self s.db.audit

module _ (os : Platform) (self : Store) where
  -- a protected text, and what it opens to
  protected_if :
      (b : Bool) (value aad : String) (s : State)
      → Faithful os self.master
      → (body : String) × ((protect_if os self b value aad s).0 ≡ ok body)
        × (unprotect_if os self b body aad ≡ ok value)
        × ((protect_if os self b value aad s).1.db ≡ s.db)
  protected_if true value aad s f = (
    encrypt os self.master s.draws value aad,
    refl,
    rw (decrypt-encrypt os self.master s.draws value aad f),
    refl,
  )
  protected_if false value aad s f = (value, refl, refl, refl)

  pub protected :
      (value aad : String) (s : State)
      → Faithful os self.master
      → (body : String) × ((protect os self value aad s).0 ≡ ok body)
        × (unprotect os self body aad ≡ ok value)
        × ((protect os self value aad s).1.db ≡ s.db)
  unfolding protect unprotect
  protected = protected_if self.encrypted

  -- one more row that passes its test
  IsValid-snoc :
      (rows : List AuditRow) (r : AuditRow)
      → IsValid os self rows
      → row_valid os self
          (suc (walk os self rows walk_start).index)
          (walk os self rows walk_start).previous
          r
        ≡ true
      → IsValid os self (rows ++ (r ∷ []))
  unfolding walk walk_row
  IsValid-snoc rows r h fits = rw (walk-append os self rows (r ∷ []) walk_start) (ground arith)

  new_row_valid :
      (rows : List AuditRow) (at action body : String) (v : Value)
      → IsValid os self rows
      → audit_payload os self (new_row os self (last? rows) at action body) ≡ ok v
      → row_valid os self
          (suc (walk os self rows walk_start).index)
          (walk os self rows walk_start).previous
          (new_row os self (last? rows) at action body)
        ≡ true
  unfolding row_valid
  new_row_valid rows at action body v h opens =
      let (number, link) = valid_last os self rows h in
      let r = new_row os self (last? rows) at action body in
      ground (
        arith,
        eq_iff r.prev (walk os self rows walk_start).previous,
        ==_refl (row_mac os self r.seq r.at r.action r.payload r.prev),
      )

  payload_opens :
      (last : Option AuditRow) (at action body : String) (fs gs : Fields)
      → unprotect os self body (audit_aad os self (next_seq last) at action (last_mac last))
        ≡ ok (os.dumps (obj fs))
      → os.loads (os.dumps (obj fs)) ≡ some (obj gs)
      → audit_payload os self (new_row os self last at action body) ≡ ok (obj gs)
  unfolding audit_payload
  payload_opens last at action body fs gs opens parses = rw opens (rw parses)

  module _ (dependable : Dependable os self) where
    -- `_audit` returns, appends one row, and leaves the chain valid and the other tables alone
    pub audit_lem :
        (action : String) (fs : Fields) (s : State)
        → Chained os self s
        → (r : AuditRow) × ((audit os self action (obj fs) s).0 ≡ ok tt)
          × ((audit os self action (obj fs) s).1.db
              ≡ record (s.db) { audit = s.db.audit ++ (r ∷ []) })
          × (r.action ≡ action)
          × IsValid os self (s.db.audit ++ (r ∷ []))
    unfolding audit ◌>>=◌ utcnow insert_row
    audit_lem action fs s h =
        let rows = s.db.audit in
        let last = last? rows in
        let at = os.isoformat (os.clock s.readings) in
        let aad = audit_aad os self (next_seq last) at action (last_mac last) in
        let (gs, parses) = dependable.parses fs in
        let (body, saved, opens, kept) =
          protected (os.dumps (obj fs)) aad (record s { readings = s.readings + 1 })
            dependable.cipher in
        (
          new_row os self last at action body,
          rw saved,
          rw saved (rw kept),
          refl,
          IsValid-snoc rows (new_row os self last at action body) h (
              new_row_valid rows at action body (obj gs) h
                (payload_opens last at action body fs gs opens parses)),
        )

    audit-Chained :
        (action : String) (fs : Fields) → Keeps (Chained os self) (audit os self action (obj fs))
    audit-Chained action fs = record {
      at = λ s h.
          let (r, _, db, _, valid) = audit_lem action fs s h in
          subst (λ (d : Db). IsValid os self d.audit) (sym db) valid;
    }

    settle-Chained :
        {A : Type 0} (s : State) (r : Result A) (t : State)
        → Chained os self s
        → Chained os self t
        → Chained os self (settle s (r, t)).1
    settle-Chained s (ok a) t h k = k
    settle-Chained s (err c) t h k = h

    transaction-Chained :
        {A : Type 0} (body : Exec State A)
        → Keeps (Chained os self) body
        → Keeps (Chained os self) (transaction os self body)
    unfolding transaction
    transaction-Chained body k = record {
      at = λ s h. elim (Bool-cases (verify_audit os self none s.db.audit).valid) [
        | inl valid ↦ rw valid (settle-Chained s (body s).0 (body s).1 h (k.at s h))
        | inr invalid ↦ rw invalid h
      ];
    }

    utcnow-Chained : Keeps (Chained os self) (utcnow os self)
    unfolding utcnow
    utcnow-Chained = record { at = λ s h. h }

    token_hex-Chained : (n : ℕ) → Keeps (Chained os self) (token_hex os self n)
    unfolding token_hex
    token_hex-Chained n = record { at = λ s h. h }

    protect_if-Chained :
        (b : Bool) (value aad : String) → Keeps (Chained os self) (protect_if os self b value aad)
    protect_if-Chained true value aad = record { at = λ s h. h }
    protect_if-Chained false value aad = record { at = λ s h. h }

    protect-Chained : (value aad : String) → Keeps (Chained os self) (protect os self value aad)
    unfolding protect
    protect-Chained = protect_if-Chained self.encrypted

    update-Chained :
        (pid : String) (f : ProposalRow → ProposalRow)
        → Keeps (Chained os self) (update_proposal pid f)
    unfolding update_proposal
    update-Chained pid f = record { at = λ s h. h }

    insert_if_new-Chained :
        (old : Option ProposalRow) (r : ProposalRow) → Keeps (Chained os self) (insert_if_new old r)
    insert_if_new-Chained none r = record { at = λ s h. h }
    insert_if_new-Chained (some old) r = record { at = λ s h. h }

    insert-Chained : (r : ProposalRow) → Keeps (Chained os self) (insert_proposal r)
    unfolding insert_proposal
    insert-Chained r = record {
      at = λ s. (insert_if_new-Chained (proposal_row r.id s.db.proposals) r).at s;
    }

    store_snapshot-Chained : (r : SnapshotRow) → Keeps (Chained os self) (store_snapshot os self r)
    unfolding store_snapshot
    store_snapshot-Chained r = record { at = λ s h. ground arith }

    ruleset chained_rules = (
      keeps_rules, audit-Chained, transaction-Chained, utcnow-Chained, token_hex-Chained,
      protect-Chained, update-Chained, insert-Chained, store_snapshot-Chained,
    )

    pub ingest-Chained : (d : Document) → Keeps (Chained os self) (ingest os self d)
    unfolding ingest
    ingest-Chained d = search chained_rules depth 20

    new_proposal-Chained :
        (sid fid : String) (now : ℕ) (plan : Plan)
        → Keeps (Chained os self) (new_proposal os self sid fid now plan)
    unfolding new_proposal
    new_proposal-Chained sid fid now plan = search chained_rules depth 20

    reuse_or_new-Chained :
        (sid fid : String) (now : ℕ) (plan : Plan) (old : Option ProposalRow)
        → Keeps (Chained os self) (reuse_or_new os self sid fid now plan old)
    reuse_or_new-Chained sid fid now plan none = new_proposal-Chained sid fid now plan
    reuse_or_new-Chained sid fid now plan (some r) = search keeps_rules

    pub propose-Chained : (sid fid : String) → Keeps (Chained os self) (propose os self sid fid)
    unfolding propose
    propose-Chained sid fid = search (chained_rules, reuse_or_new-Chained) depth 20

    live_row-Chained :
        (expected : Status → Bool) (pid sid : String)
        → Keeps (Chained os self) (live_row os self expected pid sid)
    unfolding live_row
    live_row-Chained expected pid sid = search chained_rules depth 20

    pub approve_and_simulate-Chained :
        (pid sid confirmation reason : String)
        → Keeps (Chained os self) (approve_and_simulate os self pid sid confirmation reason)
    unfolding approve_and_simulate
    approve_and_simulate-Chained pid sid confirmation reason =
        search (chained_rules, live_row-Chained) depth 30

    pub approve_for_execution-Chained :
        (pid sid confirmation second reason primary secondary : String) (provider : Option String)
        (claims : Option (List Value))
        → Keeps (Chained os self) (
            approve_for_execution os self pid sid confirmation second reason primary secondary
              provider claims)
    unfolding approve_for_execution
    approve_for_execution-Chained pid sid confirmation second reason primary secondary provider
          claims =
        search (chained_rules, live_row-Chained) depth 30

    module _ (adapter : String) where
      pub begin_execution-Chained :
          (pid sid : String) (provider : Option String)
          → Keeps (Chained os self) (begin_execution os self adapter pid sid provider)
      unfolding begin_execution
      begin_execution-Chained pid sid provider = search (chained_rules, live_row-Chained) depth 30

      pub fail_execution-Chained :
          (pid error_type : String)
          → Keeps (Chained os self) (fail_execution os self adapter pid error_type)
      unfolding fail_execution record_failure
      fail_execution-Chained pid error_type = search chained_rules depth 20

      pub finish_execution-Chained :
          (pid sid : String) (result : Value)
          → Keeps (Chained os self) (finish_execution os self adapter pid sid result)
      unfolding finish_execution stale settled
      finish_execution-Chained pid sid result = search chained_rules depth 20

      record-Chained :
          (action : String) (fs : Fields)
          → Keeps (Chained os self) (record_entry os self action (obj fs))
      unfolding record_entry
      record-Chained action fs = search chained_rules

      perform-Chained :
          (c : Call) (s : State) → Chained os self s → Chained os self (perform os self adapter c s)
      unfolding perform
      perform-Chained (record_call action fs) = (record-Chained action fs).at
      perform-Chained (ingest_call d) = (ingest-Chained d).at
      perform-Chained (propose_call sid fid) = (propose-Chained sid fid).at
      perform-Chained (simulate_call pid sid confirmation reason) =
          (approve_and_simulate-Chained pid sid confirmation reason).at
      perform-Chained
            (approve_call pid sid confirmation second reason primary secondary provider claims) =
          (approve_for_execution-Chained pid sid confirmation second reason primary secondary
            provider claims).at
      perform-Chained (begin_call pid sid provider) = (begin_execution-Chained pid sid provider).at
      perform-Chained (fail_call pid error_type) = (fail_execution-Chained pid error_type).at
      perform-Chained (finish_call pid sid result) = (finish_execution-Chained pid sid result).at

      -- After any calls in any order, failing ones included, the audit chain verifies, if it did
      -- at the start, where the cipher, base64, UTF-8 and JSON give back what they were given.
      pub perform_all-Chained :
          (calls : List Call) (s : State)
          → Chained os self s
          → Chained os self (perform_all os self adapter calls s)
      unfolding perform_all
      perform_all-Chained [] s h = h
      perform_all-Chained (c ∷ calls) s h = perform_all-Chained calls _ (perform-Chained c s h)
