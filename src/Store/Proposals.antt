-- ===== src/Store/Proposals.antt =====
-- `propose`, `approve_and_simulate` and `approve_for_execution` of the store.
use aisecure.Prelude.{
  ℕ, ◌+◌, ◌*◌, String, List, [], ◌∷◌, ◌++◌, Option, none, some, Bool, true, false, ◌&&◌, ◌==◌, ltb,
  if◌then◌else◌,
}
use Prim.Native.String.{◌++◌ as text_append}
use aisecure.Result.{Result, ok, err, validation, integrity, database}
use aisecure.Exec.{Exec, pure, lift, reads, ◌>>=◌, ◌>>◌}
use aisecure.Json.{Value, obj, fields, str}
use aisecure.Text.{text_before}
use aisecure.Policy.{Plan, plan_for, plan_value, action_text}
use aisecure.Platform.{Platform}
use aisecure.Store.State.{
  ProposalRow, Status, pending, approved, executing, State, Store, utcnow, token_hex, protect,
  unprotect,
}
use aisecure.Store.Audit.{audit, transaction}
use aisecure.Store.Snapshots.{get_finding}

abbrev pub is_pending : Status → Bool
is_pending pending = true
is_pending _ = false

abbrev pub is_approved : Status → Bool
is_approved approved = true
is_approved _ = false

abbrev pub is_executing : Status → Bool
is_executing executing = true
is_executing _ = false

-- `SELECT * FROM proposals WHERE id=?`
unfoldable pub proposal_row : String → List ProposalRow → Option ProposalRow
proposal_row pid [] = none
proposal_row pid (r ∷ rows) = if r.id == pid then some r else proposal_row pid rows

-- `UPDATE proposals SET … WHERE id=?`, by a change of the row
unfoldable pub update_rows :
    String → (ProposalRow → ProposalRow) → List ProposalRow → List ProposalRow
update_rows pid f [] = []
update_rows pid f (r ∷ rows) =
    let rest = update_rows pid f rows in if r.id == pid then f r ∷ rest else r ∷ rest

unfoldable pub update_proposal : String → (ProposalRow → ProposalRow) → Exec State (Unit {0})
update_proposal pid f s =
    (ok tt, record s { db = record (s.db) { proposals = update_rows pid f s.db.proposals } })

abbrev pub set_status : Status → ProposalRow → ProposalRow
set_status status r = record r { status = status }

abbrev pub insert_if_new : Option ProposalRow → ProposalRow → Exec State (Unit {0})
insert_if_new none r s =
    (ok tt, record s { db = record (s.db) { proposals = s.db.proposals ++ (r ∷ []) } })
insert_if_new (some old) r s = (err database, s)

-- `INSERT INTO proposals`: the identifier is a primary key
unfoldable pub insert_proposal : ProposalRow → Exec State (Unit {0})
insert_proposal r s = insert_if_new (proposal_row r.id s.db.proposals) r s

-- the newest of the pending rows, `ORDER BY created_at DESC LIMIT 1`
newer : ProposalRow → Option ProposalRow → Option ProposalRow
newer r none = some r
newer r (some best) = if text_before r.created_at best.created_at then some best else some r

unfoldable pub pending_row : String → String → List ProposalRow → Option ProposalRow
unfolding newer
pending_row sid fid [] = none
pending_row sid fid (r ∷ rows) =
    let rest = pending_row sid fid rows in
    if r.snapshot_id == sid && r.finding_id == fid && is_pending r.status
    then newer r rest
    else rest

abbrev pub minute : ℕ
minute = 60 * 1000000

pub record Proposed : Type 0 where
  pub proposal_id : String
  pub plan : Value
  pub expires_at : String
  pub reused : Bool

module _ (os : Platform) (self : Store) where
  -- `_proposal_aad`
  abbrev pub proposal_aad : String → String
  proposal_aad pid = text_append "proposal:" pid

  abbrev time_of : Option ℕ → Result ℕ
  time_of none = err validation
  time_of (some t) = ok t

  -- `parse_time` of a stored time
  abbrev pub parse_time : String → Result ℕ
  parse_time text = time_of (os.fromisoformat text)

  abbrev object_or_integrity : Option Value → Result Value
  object_or_integrity (some (obj fs)) = ok (obj fs)
  object_or_integrity _ = err integrity

  abbrev parsed_plan : Result String → Result Value
  parsed_plan (err c) = err c
  parsed_plan (ok body) = object_or_integrity (os.loads body)

  -- `_proposal_plan`
  unfoldable pub proposal_plan : ProposalRow → Result Value
  proposal_plan r = parsed_plan (unprotect os self r.body (proposal_aad r.id))

  unfoldable pub new_proposal : String → String → ℕ → Plan → Exec State Proposed
  new_proposal sid fid now plan = do
    token ← token_hex os self 12
    stored ← protect os self (os.dumps (plan_value plan)) (proposal_aad (text_append "P-" token))
    insert_proposal (record {
      id = text_append "P-" token;
      snapshot_id = sid;
      finding_id = fid;
      body = stored;
      created_at = os.isoformat now;
      expires_at = os.isoformat (now + 5 * minute);
      status = pending;
      approved_target_hmac = none;
    })
    audit os self "plan.proposed" (
        obj (
          fields (
            ("proposal_id", str (text_append "P-" token))
            ∷ ("snapshot_id", str sid)
            ∷ ("finding_id", str fid)
            ∷ ("action", str (action_text plan.action))
            ∷ ("execution_mode", str "simulation_only")
            ∷ [])))
    pure (record {
      proposal_id = text_append "P-" token;
      plan = plan_value plan;
      expires_at = os.isoformat (now + 5 * minute);
      reused = false;
    })

  -- an existing pending row that has not expired at `now`
  abbrev still_open : ℕ → Option ProposalRow → Result (Option ProposalRow)
  still_open now none = ok none
  still_open now (some r) = elim (parse_time r.expires_at) [
    | err c ↦ err c
    | ok t ↦ if ltb now t then ok (some r) else ok none
  ]

  abbrev pub reuse : ProposalRow → Result Value → Result Proposed
  reuse r (err c) = err c
  reuse r (ok plan) =
      ok (record { proposal_id = r.id; plan = plan; expires_at = r.expires_at; reused = true })

  abbrev pub reuse_or_new : String → String → ℕ → Plan → Option ProposalRow → Exec State Proposed
  reuse_or_new sid fid now plan none = new_proposal sid fid now plan
  reuse_or_new sid fid now plan (some r) = lift (reuse r (proposal_plan r))

  -- `propose`
  unfoldable pub propose : String → String → Exec State Proposed
  propose sid fid = transaction os self (do
    f ← reads (λ s. get_finding os self sid fid s.db)
    now ← utcnow os self
    existing ← reads (λ s. still_open now (pending_row sid fid s.db.proposals))
    reuse_or_new sid fid now (plan_for f) existing)
