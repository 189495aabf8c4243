-- ===== src/Store/Snapshots.antt =====
-- `ingest` from the normalised document on, `snapshot` and `get_finding` of the store.
use aisecure.Prelude.{
  String, List, [], ◌∷◌, ◌++◌, Option, none, some, Bool, true, false, ◌&&◌, ◌==◌, find, length, map,
  if◌then◌else◌,
}
use Prim.Native.String.{◌++◌ as text_append}
use aisecure.Result.{Result, ok, err, validation, conflict, integrity}
use aisecure.Exec.{Exec, pure, lift, reads, ◌>>=◌, ◌>>◌}
use aisecure.Json.{Value, arr, obj, items, fields, num, str, bool, null}
use aisecure.Text.{take_text}
use aisecure.Document.{Document, Source, SourceMode, demo, imported}
use aisecure.Engine.{Finding, analyze}
use aisecure.Rules.{digest}
use aisecure.Platform.{Platform}
use aisecure.Store.State.{SnapshotRow, Db, State, Store, audit_key, utcnow, protect, unprotect}
use aisecure.Store.Audit.{audit, transaction}

abbrev mode_text : SourceMode → String
mode_text demo = "demo"
mode_text imported = "imported"

abbrev text_or_null : Option String → Value
text_or_null none = null
text_or_null (some s) = str s

abbrev source_value : Source → Value
source_value p = obj (
    fields (
      ("label", str p.label)
      ∷ ("sha256", str p.sha256)
      ∷ ("rows_read", num p.rows_read)
      ∷ ("rows_imported", num p.rows_imported)
      ∷ ("connector", text_or_null p.connector)
      ∷ ("verified", bool p.verified)
      ∷ []))

-- `SELECT … FROM snapshots WHERE id=?`
abbrev pub snapshot_row : String → List SnapshotRow → Option SnapshotRow
snapshot_row sid = find (λ r. r.id == sid)

abbrev pub is_present {ℓ} : {A : Type ℓ} → Option A → Bool
is_present none = false
is_present (some a) = true

-- `INSERT OR IGNORE INTO snapshots`
abbrev insert_snapshot : SnapshotRow → Db → Db
insert_snapshot r db =
    if is_present (snapshot_row r.id db.snapshots)
    then db
    else record db { snapshots = db.snapshots ++ (r ∷ []) }

module _ (os : Platform) (self : Store) where
  -- `_snapshot_aad`
  abbrev pub snapshot_aad : String → String
  snapshot_aad sid = text_append "snapshot:" sid

  unfoldable pub snapshot_id : String → String
  snapshot_id body = text_append "S-" (take_text 24 (os.sha256 body))

  abbrev pub body_mac : String → String
  body_mac body = os.hmac (audit_key os self) body

  abbrev same_row : Result String → String → String → String → Result (Unit {0})
  same_row (err c) body mac old_mac = err c
  same_row (ok old) body mac old_mac =
      if old == body && old_mac == mac then ok tt else err integrity

  -- the check of a row that is there already
  abbrev check_old : Option SnapshotRow → String → String → Result (Unit {0})
  check_old none body mac = ok tt
  check_old (some r) body mac =
      same_row (unprotect os self r.body (snapshot_aad r.id)) body mac r.mac

  abbrev ingested_value : String → Document → Bool → Value
  ingested_value sid d again = obj (
      fields (
        ("snapshot_id", str sid)
        ∷ ("source_mode", str (mode_text d.source_mode))
        ∷ ("events", num (length d.events))
        ∷ ("assets", num (length d.assets))
        ∷ ("deduplicated_snapshot", bool again)
        ∷ ("provenance", arr (items (map source_value d.provenance)))
        ∷ ("rule_config_digest", str (digest os self.config))
        ∷ []))

  unfoldable pub store_snapshot : SnapshotRow → Exec State (Unit {0})
  store_snapshot r s =
      (ok tt, record s { db = record (insert_snapshot r s.db) { current = some r.id } })

  -- `ingest`, after `normalize` has made the document
  unfoldable pub ingest : Document → Exec State String
  ingest d =
      let body = os.dumps_document d in
      let sid = snapshot_id body in
      (do
        stored ← protect os self body (snapshot_aad sid)
        transaction os self (do
          old ← reads (λ s. ok (snapshot_row sid s.db.snapshots))
          lift (check_old old body (body_mac body))
          now ← utcnow os self
          store_snapshot (record {
            id = sid;
            created_at = os.isoformat now;
            body = stored;
            mac = body_mac body;
          })
          audit os self "snapshot.ingested" (ingested_value sid d (is_present old)))
        pure sid)

  -- a snapshot whose MAC, identifier and JSON text hold
  abbrev loaded : SnapshotRow → Option Document → Result (Option (String × Document))
  loaded r none = err integrity
  loaded r (some d) = ok (some (r.id, d))

  abbrev checked : SnapshotRow → Result String → Result (Option (String × Document))
  checked r (err c) = err c
  checked r (ok body) =
      if body_mac body == r.mac && r.id == snapshot_id body
      then loaded r (os.loads_document body)
      else err integrity

  abbrev open_row : Option SnapshotRow → Result (Option (String × Document))
  open_row none = ok none
  open_row (some r) = checked r (unprotect os self r.body (snapshot_aad r.id))

  -- the row that the join with current_snapshot selects
  abbrev pub current_row : Db → Option SnapshotRow
  current_row db = elim db.current [ none ↦ none | some sid ↦ snapshot_row sid db.snapshots ]

  -- `snapshot`
  unfoldable pub snapshot : Db → Result (Option (String × Document))
  snapshot db = open_row (current_row db)

  abbrev pub snapshot_name : Option (String × Document) → Option String
  snapshot_name none = none
  snapshot_name (some (sid, d)) = some sid

  abbrev or_missing : Option Finding → Result Finding
  or_missing none = err validation
  or_missing (some f) = ok f

  abbrev find_in : String → String → Option (String × Document) → Result Finding
  find_in sid fid none = err conflict
  find_in sid fid (some (current, d)) =
      if sid == current
      then or_missing (find (λ f. f.id == fid) (analyze os self.config d))
      else err conflict

  -- `get_finding`
  unfoldable pub get_finding : String → String → Db → Result Finding
  get_finding sid fid db = elim (snapshot db) [ err c ↦ err c | ok found ↦ find_in sid fid found ]
