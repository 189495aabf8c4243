-- ===== src/Monitor.antt =====
-- aisecure/monitor.py: `poll_once` and `run` of the two monitors, which differ in what collects the
-- input and in the fields of their audit entries. A collected input is what the connector returned.
pub mod Idle
use aisecure.Prelude.{
  ℕ, String, List, [], ◌∷◌, Option, none, some, Bool, true, false, ◌==◌, keep, length,
  if◌then◌else◌,
}
use aisecure.Result.{
  Result, Code, ok, err, validation, conflict, integrity, responder, emergency_stop, cipher,
  database, overflow, type_error,
}
use aisecure.Exec.{Exec, pure, lift, reads, ◌>>=◌, ◌>>◌}
use aisecure.Json.{Value, Fields, obj, field, end, str, num, bool}
use aisecure.Document.{imported}
use aisecure.Engine.{Finding, Priority, p1}
use aisecure.Platform.{Platform}
use aisecure.Schema.Normalize.{normalize}
use aisecure.Store.State.{State, Store, identity_key, utcnow}
use aisecure.Store.Audit.{record_entry}
use aisecure.Store.Snapshots.{ingest}
use aisecure.Store.Report.{Report, state}

pub record Collected : Type 0 where
  pub raw : Value
  pub events : ℕ
  pub warnings : ℕ

pub record PollResult : Type 0 where
  pub changed : Bool
  pub snapshot_id : Option String
  pub findings : ℕ
  pub priority_one : ℕ

-- the store, and `_fingerprint`
pub record Watch : Type 0 where
  pub store : State
  pub fingerprint : Option String

abbrev is_urgent : Priority → Bool
is_urgent p1 = true
is_urgent _ = false

abbrev pub urgent_count : List Finding → ℕ
urgent_count findings = length (keep (λ f. is_urgent f.priority) findings)

module _ {A : Type 0} where
  unfoldable pub on_store : Exec State A → Exec Watch A
  on_store m w = let (r, s) = m w.store in (r, record w { store = s })

unfoldable pub remember : String → Exec Watch (Unit {0})
remember fingerprint w = (ok tt, record w { fingerprint = some fingerprint })

abbrev pub is_known : Option String → String → Bool
is_known none fingerprint = false
is_known (some old) fingerprint = old == fingerprint

-- `type(exc).__name__` of the classes that reach the loop
abbrev error_name : Code → String
error_name validation = "ValidationError"
error_name conflict = "ConflictError"
error_name integrity = "IntegrityError"
error_name cipher = "StorageCipherError"
error_name _ = "RuntimeError"

module _ (os : Platform) (self : Store) (connector : Fields) where
  -- `ingest` from the raw input on
  unfoldable pub ingest_raw : Value → Exec State String
  ingest_raw raw = do
    now ← utcnow os self
    d ← lift (normalize os (identity_key os self) imported now 2000000 20000 true raw)
    ingest os self d

  abbrev pub fingerprint_of : Value → String
  fingerprint_of raw = os.sha256 (os.dumps raw)

  abbrev polled_value : String → Collected → List Finding → Value
  polled_value sid c findings = obj (
      field "snapshot_id" (str sid) (
        field "changed" (bool true) (
          field "events" (num c.events) (
            field "findings" (num (length findings)) (
              field "priority_one" (num (urgent_count findings))
                (field "quality_warnings" (num c.warnings) connector))))))

  -- the branch of an input that has not changed
  unfoldable pub report_unchanged : Exec Watch PollResult
  report_unchanged = do
    report ← on_store (state os self)
    pure (record {
      changed = false;
      snapshot_id = report.snapshot_id;
      findings = length report.findings;
      priority_one = urgent_count report.findings;
    })

  unfoldable pub take_in : Collected → Exec Watch PollResult
  take_in c = do
    sid ← on_store (ingest_raw c.raw)
    remember (fingerprint_of c.raw)
    report ← on_store (state os self)
    on_store (record_entry os self "monitor.polled" (polled_value sid c report.findings))
    pure (record {
      changed = true;
      snapshot_id = some sid;
      findings = length report.findings;
      priority_one = urgent_count report.findings;
    })

  -- `poll_once`, after the collection
  unfoldable pub poll_once : Collected → Exec Watch PollResult
  poll_once c w =
      if is_known w.fingerprint (fingerprint_of c.raw) then report_unchanged w else take_in c w

  -- what `except (OSError, RuntimeError, ValueError)` catches
  abbrev pub is_caught : Code → Bool
  is_caught database = false
  is_caught overflow = false
  is_caught type_error = false
  is_caught _ = true

  unfoldable pub after_poll : Result PollResult → Exec Watch (Unit {0})
  after_poll (ok polled) = pure tt
  after_poll (err c) =
      if is_caught c
      then on_store (
          record_entry os self "monitor.poll_failed"
            (obj (field "error_type" (str (error_name c)) connector)))
      else lift (err c)

  -- the collection, which may raise, and the poll
  abbrev poll : Result Collected → Exec Watch PollResult
  poll (err c) = lift (err c)
  poll (ok c) = poll_once c

  -- one round of `run`
  unfoldable pub round : Result Collected → Exec Watch (Unit {0})
  round input w = let (r, v) = poll input w in after_poll r v

  -- `run`, over the inputs of its rounds
  unfoldable pub run : List (Result Collected) → Exec Watch (Unit {0})
  run [] = pure tt
  run (input ∷ inputs) = round input >>= λ _. run inputs
