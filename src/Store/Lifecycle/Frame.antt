-- ===== src/Store/Lifecycle/Frame.antt =====
-- The steps of the methods that leave the table of proposals alone, and those that write to it.
use aisecure.Prelude.{
  ◌≡◌, refl, sym, ap, ◌∙◌, String, List, [], ◌∷◌, Option, none, some, Bool, true, false, arith,
  eq_iff, Bool-cases, inl, inr, if◌then◌else◌, ◌⊎◌, ◌==◌,
}
use mathlib.Core.Path.{subst}
use aisecure.Json.{Value}
use aisecure.Result.{Result, ok, err}
use aisecure.Exec.{Exec}
use aisecure.Exec.Keeps.{Keeps, keeps_rules}
use aisecure.Platform.{Platform}
use aisecure.Prelude.{ℕ}
use aisecure.Store.State.{
  AuditRow, SnapshotRow, ProposalRow, Status, State, Store, utcnow, token_hex, protect, protect_if,
}
use aisecure.Store.Audit.{audit, insert_row, settle, verify_audit, transaction}
use aisecure.Store.Snapshots.{store_snapshot}
use aisecure.Store.Proposals.{
  proposal_row, update_rows, update_proposal, insert_proposal, insert_if_new,
}
use aisecure.Store.Lifecycle.{
  On, Follows, Follows-refl, Evolves, Evolves-trans, Evolves-append, proposal_row-update,
}

module _ (os : Platform) (self : Store) (Q : List ProposalRow → Type 0) where
  pub utcnow-On : Keeps (On Q) (utcnow os self)
  unfolding utcnow
  utcnow-On = record { at = λ s h. h }

  pub token_hex-On : (n : ℕ) → Keeps (On Q) (token_hex os self n)
  unfolding token_hex
  token_hex-On n = record { at = λ s h. h }

  protect_if-On : (b : Bool) (value aad : String) → Keeps (On Q) (protect_if os self b value aad)
  protect_if-On true value aad = record { at = λ s h. h }
  protect_if-On false value aad = record { at = λ s h. h }

  pub protect-On : (value aad : String) → Keeps (On Q) (protect os self value aad)
  unfolding protect
  protect-On = protect_if-On self.encrypted

  pub insert_row-On : (r : AuditRow) → Keeps (On Q) (insert_row os self r)
  unfolding insert_row
  insert_row-On r = record { at = λ s h. h }

  pub store_snapshot-On : (r : SnapshotRow) → Keeps (On Q) (store_snapshot os self r)
  unfolding store_snapshot
  store_snapshot-On r = record { at = λ s h. ground arith }

  pub ruleset drawing_rules = (keeps_rules, utcnow-On, token_hex-On, protect-On, insert_row-On)

  pub audit-On : (action : String) (v : Value) → Keeps (On Q) (audit os self action v)
  unfolding audit
  audit-On action v = search drawing_rules depth 20

  pub settle-On :
      {A : Type 0} (s : State) (r : Result A) (t : State)
      → On Q s
      → On Q t
      → On Q (settle s (r, t)).1
  settle-On s (ok a) t h k = k
  settle-On s (err c) t h k = h

  pub transaction-On :
      {A : Type 0} (body : Exec State A)
      → Keeps (On Q) body
      → Keeps (On Q) (transaction os self body)
  unfolding transaction
  transaction-On body k = record {
    at = λ s h. elim (Bool-cases (verify_audit os self none s.db.audit).valid) [
      | inl valid ↦ rw valid (settle-On s (body s).0 (body s).1 h (k.at s h))
      | inr invalid ↦ rw invalid h
    ];
  }

  pub ruleset frame_rules = (drawing_rules, audit-On, store_snapshot-On, transaction-On)

module _ (ps : List ProposalRow) where
  insert_if_new-Evolves :
      (old : Option ProposalRow) (r : ProposalRow) → Keeps (On (Evolves ps)) (insert_if_new old r)
  insert_if_new-Evolves none r = record {
    at = λ s h. Evolves-trans h (Evolves-append s.db.proposals (r ∷ []));
  }
  insert_if_new-Evolves (some old) r = record { at = λ s h. h }

  pub insert-Evolves : (r : ProposalRow) → Keeps (On (Evolves ps)) (insert_proposal r)
  unfolding insert_proposal
  insert-Evolves r = record {
    at = λ s. (insert_if_new-Evolves (proposal_row r.id s.db.proposals) r).at s;
  }

Follows-if :
    (b : Bool) (f : ProposalRow → ProposalRow) (r : ProposalRow)
    → (b ≡ true → Follows r (f r))
    → Follows r (if b then f r else r)
Follows-if true f r h = h refl
Follows-if false f r h = Follows-refl r

-- one UPDATE, by a change of the row that is a move where the row is found
pub Evolves-update :
    (pid : String) (f : ProposalRow → ProposalRow) (ps : List ProposalRow)
    → ((p : ProposalRow) → (f p).id ≡ p.id)
    → ((p : ProposalRow) → proposal_row pid ps ≡ some p → Follows p (f p))
    → Evolves ps (update_rows pid f ps)
Evolves-update pid f ps keeps follows = record {
  at = λ other r h. (
    if pid == other then f r else r,
    proposal_row-update pid other f ps r keeps h,
    Follows-if (pid == other) f r (λ same.
        follows r (subst (λ k. proposal_row k ps ≡ some r) (sym ((eq_iff pid other).0 same)) h)),
  );
}

pub updated_row :
    (pid : String) (f : ProposalRow → ProposalRow) (ps : List ProposalRow) (q : ProposalRow)
    → ((p : ProposalRow) → (f p).id ≡ p.id)
    → proposal_row pid (update_rows pid f ps) ≡ some q
    → (p : ProposalRow) × (proposal_row pid ps ≡ some p) × (q ≡ f p)
unfolding proposal_row update_rows
updated_row pid f [] q keeps h = cc
updated_row pid f (p ∷ ps) q keeps h = elim (Bool-cases (p.id == pid)) [
  | inl here ↦ (p, rw here, ground (arith, keeps p))
  | inr there ↦
      let (p', found, same) = updated_row pid f ps q keeps (ground (arith, keeps p)) in
      (p', rw there found, same)
]

-- While a method works on the proposal `pid`, its row is at the status of before or at the new one.
pub record Stage (ps : List ProposalRow) (pid : String) (old new : Status) (qs : List ProposalRow)
    : Type 0 where
  pub evolved : Evolves ps qs
  pub at_stage :
      (q : ProposalRow) → proposal_row pid qs ≡ some q → (q.status ≡ old) ⊎ (q.status ≡ new)

module _ (ps : List ProposalRow) (pid : String) (old new : Status) where
  -- a change of the row to the new status, and of nothing that identifies the plan
  pub update-Stage :
      (f : ProposalRow → ProposalRow)
      → ((q : ProposalRow)
          → (q.status ≡ old) ⊎ (q.status ≡ new)
          → Follows q (f q) × ((f q).status ≡ new))
      → ((q : ProposalRow) → (f q).id ≡ q.id)
      → Keeps (On (Stage ps pid old new)) (update_proposal pid f)
  unfolding update_proposal
  update-Stage f step keeps = record {
    at = λ s h. record {
      evolved =
          Evolves-trans h.evolved
            (Evolves-update pid f s.db.proposals keeps (λ q e. (step q (h.at_stage q e)).0));
      at_stage = λ q e.
          let (p, found, same) = updated_row pid f s.db.proposals q keeps e in
          inr (ap (λ (r : ProposalRow). r.status) same ∙ (step p (h.at_stage p found)).1);
    };
  }
