-- ===== src/Store/Report.antt =====
-- The start of the store and its reports: the end of `__init__`, `_record_rule_config`, `summarize`,
-- `state` and `export_document`. The coverage and the texts for the screen are left out.
use aisecure.Prelude.{
  ℕ, suc, zero, String, List, [], ◌∷◌, Option, none, some, Bool, true, false, ◌==◌, ltb, keep,
  length, sort_by, if◌then◌else◌,
}
use aisecure.Result.{Result, ok, err, validation, conflict, integrity, require, refuse}
use aisecure.Exec.{Exec, pure, lift, reads, ◌>>=◌, ◌>>◌}
use aisecure.Json.{Value, obj, fields, str, null, get}
use aisecure.Text.{text_before}
use aisecure.Document.{Document, Event, Asset, Source, SourceMode, login, file_access}
use aisecure.Engine.{Finding, analyze}
use aisecure.Rules.{digest, as_dict}
use aisecure.Platform.{Platform}
use aisecure.Store.State.{AuditRow, ProposalRow, Status, State, Store, utcnow}
use aisecure.Store.Audit.{Verdict, verify_audit, audit_payload, record_entry}
use aisecure.Store.Snapshots.{snapshot}
use aisecure.Store.Proposals.{is_pending, proposal_plan, parse_time}

-- the last row of the action
unfoldable pub last_of : String → List AuditRow → Option AuditRow
last_of action [] = none
last_of action (r ∷ rows) = or_this (last_of action rows)
  where
    or_this : Option AuditRow → Option AuditRow
    or_this (some later) = some later
    or_this none = if r.action == action then some r else none

abbrev digest_in : Value → Option Value
digest_in (obj fs) = get "digest" fs
digest_in _ = none

abbrev or_null : Option Value → Value
or_null none = null
or_null (some v) = v

abbrev is_same : String → Option Value → Bool
is_same text (some (str s)) = s == text
is_same text _ = false

-- what `summarize` counts and copies
pub record Summary : Type 0 where
  pub as_of : ℕ
  pub source_mode : SourceMode
  pub provenance : List Source
  pub assets : List Asset
  pub total : ℕ
  pub logins : ℕ
  pub file_accesses : ℕ

abbrev is_login : Event → Bool
is_login (login e) = true
is_login (file_access e) = false

abbrev is_file_access : Event → Bool
is_file_access (login e) = false
is_file_access (file_access e) = true

unfoldable pub summarize : Document → Summary
summarize d = record {
  as_of = d.as_of;
  source_mode = d.source_mode;
  provenance = d.provenance;
  assets = d.assets;
  total = length d.events;
  logins = length (keep is_login d.events);
  file_accesses = length (keep is_file_access d.events);
}

-- a proposal as `state` lists it
pub record Listed : Type 0 where
  pub id : String
  pub finding_id : String
  pub plan : Value
  pub created_at : String
  pub expires_at : String
  pub expired : Bool
  pub status : Status

pub record Report : Type 0 where
  pub snapshot_id : Option String
  pub summary : Option Summary
  pub findings : List Finding
  pub proposals : List Listed
  pub audit : Verdict
  pub records : List (AuditRow × Value)
  pub generated_at : String

abbrev newest_first : ProposalRow → ProposalRow → Bool
newest_first a b = text_before b.created_at a.created_at

abbrev first_rows : ℕ → List AuditRow → List AuditRow
first_rows zero rows = []
first_rows (suc n) [] = []
first_rows (suc n) (r ∷ rows) = r ∷ first_rows n rows

abbrev onto : List AuditRow → List AuditRow → List AuditRow
onto [] done = done
onto (r ∷ rows) done = onto rows (r ∷ done)

abbrev pub name_of : Option (String × Document) → Option String
name_of none = none
name_of (some (sid, d)) = some sid

abbrev pub document_of : Option (String × Document) → Option Document
document_of none = none
document_of (some (sid, d)) = some d

abbrev summary_of : Option Document → Option Summary
summary_of none = none
summary_of (some d) = some (summarize d)

module _ (os : Platform) (self : Store) where
  abbrev configured_value : Option Value → Value
  configured_value previous = obj (
      fields (
        ("digest", str (digest os self.config))
        ∷ ("values", as_dict self.config)
        ∷ ("rule_version", str "2026-09-12.2")
        ∷ ("previous", or_null previous)
        ∷ []))

  -- the digest of the last configuration that was recorded
  abbrev previous_digest : Option AuditRow → Result (Option Value)
  previous_digest none = ok none
  previous_digest (some r) = digest_of (audit_payload os self r)
    where
      digest_of : Result Value → Result (Option Value)
      digest_of (err c) = err c
      digest_of (ok v) = ok (digest_in v)

  abbrev record_unless : Bool → Exec State (Unit {0}) → Exec State (Unit {0})
  record_unless known m = if known then pure tt else m

  -- `_record_rule_config`, for payloads that hold a digest
  unfoldable pub record_rule_config : Exec State (Unit {0})
  record_rule_config = do
    previous ← reads (λ s. previous_digest (last_of "rules.configured" s.db.audit))
    record_unless (is_same (digest os self.config) previous)
        (record_entry os self "rules.configured" (configured_value previous))

  abbrev mode_name : String
  mode_name = if self.encrypted then "encrypted" else "plaintext"

  abbrev mode_fits : Option String → Bool
  mode_fits none = true
  mode_fits (some stored) = stored == mode_name

  -- the checks at the end of `__init__`, given the stored mode
  unfoldable pub start : Option String → Exec State (Unit {0})
  start stored = do
    lift (require (mode_fits stored) integrity)
    verdict ← reads (λ s. ok (verify_audit os self none s.db.audit))
    lift (require verdict.valid integrity)
    record_rule_config

  -- a pending proposal past its expiry is shown as expired; the clock is read for pending ones only
  unfoldable pub is_expired : ProposalRow → Exec State Bool
  is_expired r =
      if is_pending r.status
      then (do t ← lift (parse_time os self r.expires_at); now ← utcnow os self; pure (ltb t now))
      else pure false

  unfoldable pub list_proposals : List ProposalRow → Exec State (List Listed)
  list_proposals [] = pure []
  list_proposals (r ∷ rows) = do
    expired ← is_expired r
    plan ← lift (proposal_plan os self r)
    rest ← list_proposals rows
    pure (
        record {
          id = r.id;
          finding_id = r.finding_id;
          plan = plan;
          created_at = r.created_at;
          expires_at = r.expires_at;
          expired = expired;
          status = r.status;
        }
        ∷ rest)

  unfoldable pub payloads_of : List AuditRow → Result (List (AuditRow × Value))
  payloads_of [] = ok []
  payloads_of (r ∷ rows) = with_row (audit_payload os self r) (payloads_of rows)
    where
      with_row : Result Value → Result (List (AuditRow × Value)) → Result (List (AuditRow × Value))
      with_row (ok v) (ok rest) = ok ((r, v) ∷ rest)
      with_row (ok v) (err c) = err c
      with_row (err c) rest = err c

  abbrev findings_of : Option Document → List Finding
  findings_of none = []
  findings_of (some d) = analyze os self.config d

  abbrev rows_of : Option String → List ProposalRow → List ProposalRow
  rows_of none rows = []
  rows_of (some sid) rows = sort_by newest_first (keep (λ r. r.snapshot_id == sid) rows)

  -- `state`
  unfoldable pub state : Exec State Report
  state = do
    found ← reads (λ s. snapshot os self s.db)
    verdict ← reads (λ s. ok (verify_audit os self none s.db.audit))
    rows ← reads (λ s. ok (rows_of (name_of found) s.db.proposals))
    proposals ← list_proposals rows
    records ← reads (λ s. payloads_of (first_rows 100 (onto s.db.audit [])))
    now ← utcnow os self
    pure (record {
      snapshot_id = name_of found;
      summary = summary_of (document_of found);
      findings = findings_of (document_of found);
      proposals = proposals;
      audit = verdict;
      records = records;
      generated_at = os.isoformat now;
    })

  abbrev same_name : Option String → Option String → Bool
  same_name none none = true
  same_name (some a) (some b) = a == b
  same_name _ _ = false

  abbrev small_enough : ℕ → Option Document → Result (Unit {0})
  small_enough max_events none = ok tt
  small_enough max_events (some d) = refuse (ltb max_events (length d.events)) validation

  -- `export_document`: the report, and the document whose events it includes
  unfoldable pub export_document : ℕ → Exec State (Report × Option Document)
  export_document max_events = do
    report ← state
    found ← reads (λ s. snapshot os self s.db)
    lift (require (same_name (name_of found) report.snapshot_id) conflict)
    lift (small_enough max_events (document_of found))
    pure (report, document_of found)
