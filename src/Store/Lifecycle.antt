-- ===== src/Store/Lifecycle.antt =====
-- The states that a proposal goes through.
pub mod Frame
pub mod Methods
use aisecure.Prelude.{
  ◌≡◌, refl, String, List, [], ◌∷◌, ◌++◌, some, Bool, true, arith, ◌==◌, eq_iff, if◌then◌else◌,
}
use aisecure.Result.{ok}
use aisecure.Exec.{◌>>=◌}
use aisecure.Platform.{Platform}
use aisecure.Store.State.{
  ProposalRow, Status, pending, simulated, approved, executing, verified, failed, State, Store,
  utcnow,
}
use aisecure.Store.Approvals.{live_row}
use aisecure.Store.Proposals.{proposal_row, update_rows}

-- the moves that the program makes
pub data Move : Status → Status → Type 0 where
  simulate : Move pending simulated
  approve : Move pending approved
  begin : Move approved executing
  verify : Move executing verified
  fail : Move executing failed

pub data Moves : Status → Status → Type 0 where
  stay : {a : Status} → Moves a a
  then_move : {a b c : Status} → Moves a b → Move b c → Moves a c

pub Moves-trans : {a b c : Status} → Moves a b → Moves b c → Moves a c
Moves-trans m stay = m
Moves-trans m (then_move n x) = then_move (Moves-trans m n) x

-- a row of a later table: the same proposal, further on its way
pub record Follows (r q : ProposalRow) : Type 0 where
  pub same_id : q.id ≡ r.id
  pub same_snapshot : q.snapshot_id ≡ r.snapshot_id
  pub same_finding : q.finding_id ≡ r.finding_id
  pub same_body : q.body ≡ r.body
  pub same_expiry : q.expires_at ≡ r.expires_at
  pub moves : Moves r.status q.status

-- every proposal of the first table is in the second, where it follows from the first
pub record Evolves (ps qs : List ProposalRow) : Type 0 where
  pub at :
      (pid : String) (r : ProposalRow)
      → proposal_row pid ps ≡ some r
      → (q : ProposalRow) × (proposal_row pid qs ≡ some q) × Follows r q

pub Follows-refl : (r : ProposalRow) → Follows r r
Follows-refl r = record {
  same_id = refl;
  same_snapshot = refl;
  same_finding = refl;
  same_body = refl;
  same_expiry = refl;
  moves = stay;
}

pub Follows-trans : {p q r : ProposalRow} → Follows p q → Follows q r → Follows p r
Follows-trans f g = record {
  same_id = cc (f.same_id, g.same_id);
  same_snapshot = cc (f.same_snapshot, g.same_snapshot);
  same_finding = cc (f.same_finding, g.same_finding);
  same_body = cc (f.same_body, g.same_body);
  same_expiry = cc (f.same_expiry, g.same_expiry);
  moves = Moves-trans f.moves g.moves;
}

pub Evolves-refl : (ps : List ProposalRow) → Evolves ps ps
Evolves-refl ps = record { at = λ pid r e. (r, e, Follows-refl r) }

pub Evolves-trans : {ps qs rs : List ProposalRow} → Evolves ps qs → Evolves qs rs → Evolves ps rs
Evolves-trans e f = record {
  at = λ pid r h.
      let (q, hq, rq) = e.at pid r h in
      let (t, ht, qt) = f.at pid q hq in (t, ht, Follows-trans rq qt);
}

pub proposal_row-append :
    (pid : String) (ps qs : List ProposalRow) (r : ProposalRow)
    → proposal_row pid ps ≡ some r
    → proposal_row pid (ps ++ qs) ≡ some r
unfolding proposal_row
proposal_row-append pid [] qs r h = cc
proposal_row-append pid (p ∷ ps) qs r h = ground (arith, proposal_row-append pid ps qs r)

pub Evolves-append : (ps qs : List ProposalRow) → Evolves ps (ps ++ qs)
Evolves-append ps qs = record {
  at = λ pid r h. (r, proposal_row-append pid ps qs r h, Follows-refl r);
}

-- an UPDATE changes the row that is found, and no other
pub proposal_row-update :
    (pid other : String) (f : ProposalRow → ProposalRow) (ps : List ProposalRow) (r : ProposalRow)
    → ((p : ProposalRow) → (f p).id ≡ p.id)
    → proposal_row other ps ≡ some r
    → proposal_row other (update_rows pid f ps) ≡ some (if pid == other then f r else r)
unfolding proposal_row update_rows
proposal_row-update pid other f [] r keeps h = cc
proposal_row-update pid other f (p ∷ ps) r keeps h = ground (
  arith,
  proposal_row-update pid other f ps r keeps,
  keeps p,
  eq_iff p.id pid,
  eq_iff p.id other,
  eq_iff pid other,
)

-- `m` keeps a property of the table of proposals
abbrev pub On : (List ProposalRow → Type 0) → State → Type 0
On Q s = Q s.db.proposals

pub live_ok :
    (os : Platform) (self : Store) (expected : Status → Bool) (pid sid : String) (s : State)
    (r : ProposalRow)
    → (live_row os self expected pid sid s).0 ≡ ok r
    → (proposal_row pid s.db.proposals ≡ some r)
      × (expected r.status ≡ true)
      × ((live_row os self expected pid sid s).1.db ≡ s.db)
unfolding live_row ◌>>=◌ utcnow
live_ok os self expected pid sid s r h = ground arith
