-- ===== src/Gateway/Evidence.antt =====
-- `Evidence` of aisecure/gateway.py: the encrypted journal and the receipts, which reserve a
-- request before it is sent.
use aisecure.Prelude.{
  ℕ, ◌+◌, String, List, [], ◌∷◌, ◌++◌, Option, none, some, Bool, true, false, ◌&&◌, ◌||◌, ◌==◌, ltb,
  leb, eqb, length, keep, last?, if◌then◌else◌,
}
use Prim.Native.String.{◌++◌ as text_append}
use aisecure.Result.{Result, ok, err, gateway, require, refuse}
use aisecure.Result as R
use aisecure.Exec.{Exec, pure, lift, reads, ◌>>=◌, ◌>>◌}
use aisecure.Json.{Value, arr, obj, items, fields, num, str, bool, member, is_text, with_field}
use aisecure.Platform.{Platform, Bytes}
use aisecure.Cipher.{encrypt, decrypt}

pub record JournalRow : Type 0 where
  pub seq : ℕ
  pub at : ℕ
  pub payload : String
  pub prev : String
  pub mac : String

pub record Receipt : Type 0 where
  pub id : String
  pub fingerprint : String
  pub report : String
  pub at : ℕ

pub record Tables : Type 0 where
  -- the rows 'anchor' and 'anchor_seq' of meta
  pub anchor : String
  pub anchor_seq : ℕ
  pub journal : List JournalRow
  pub receipts : List Receipt

pub record State : Type 0 where
  pub db : Tables
  pub readings : ℕ
  pub draws : ℕ

pub record Evidence : Type 0 where
  pub key : Bytes
  pub cipher_key : Bytes
  pub limit : ℕ

pub record Checkpoint : Type 0 where
  pub seq : ℕ
  pub mac : String

unfoldable pub receipt_of : String → List Receipt → Option Receipt
receipt_of rid [] = none
receipt_of rid (r ∷ rows) = let rest = receipt_of rid rows in if r.id == rid then some r else rest

unfoldable pub set_report : String → String → List Receipt → List Receipt
set_report rid report [] = []
set_report rid report (r ∷ rows) =
    let rest = set_report rid report rows in
    if r.id == rid then record r { report = report } ∷ rest else r ∷ rest

module _ (os : Platform) (self : Evidence) where
  abbrev pub event_aad : ℕ → String
  event_aad seq = text_append "event:" (os.decimal seq)

  abbrev pub receipt_aad : String → String
  receipt_aad rid = text_append "receipt:" rid

  -- `_mac`
  unfoldable pub row_mac : ℕ → ℕ → String → String → String
  row_mac seq at payload prev =
      os.hmac self.key (os.dumps (arr (items (num seq ∷ num at ∷ str payload ∷ str prev ∷ []))))

  unfoldable pub opened : String → String → Result String
  opened text aad = decrypt os self.cipher_key text aad

  abbrev pub checked : JournalRow → Checkpoint → Bool
  checked r c =
      eqb r.seq (c.seq + 1) && r.prev == c.mac && r.mac == row_mac r.seq r.at r.payload c.mac

  -- the loop of `verify`
  unfoldable pub verify_rows : List JournalRow → Checkpoint → Result Checkpoint
  verify_rows [] c = ok c
  verify_rows (r ∷ rows) c = R.◌>>=◌ (require (checked r c) gateway) λ _.
      R.◌>>=◌ (opened r.payload (event_aad r.seq))
        λ _. verify_rows rows (record { seq = r.seq; mac = r.mac })

  -- `verify`
  unfoldable pub verify : Tables → Result Checkpoint
  verify db = verify_rows db.journal (record { seq = db.anchor_seq; mac = db.anchor })

  unfoldable pub now : Exec State ℕ
  now s = (ok (os.unix_time s.readings), record s { readings = s.readings + 1 })

  unfoldable pub sealed : Value → String → Exec State String
  sealed v aad s =
      (ok (encrypt os self.cipher_key s.draws (os.dumps v) aad), record s { draws = s.draws + 1 })

  unfoldable pub insert_row : JournalRow → Exec State (Unit {0})
  insert_row r s = (ok tt, record s { db = record (s.db) { journal = s.db.journal ++ (r ∷ []) } })

  unfoldable pub insert_receipt : Receipt → Exec State (Unit {0})
  insert_receipt r s =
      (ok tt, record s { db = record (s.db) { receipts = s.db.receipts ++ (r ∷ []) } })

  unfoldable pub update_receipt : String → String → Exec State (Unit {0})
  update_receipt rid report s =
      (ok tt, record s { db = record (s.db) { receipts = set_report rid report s.db.receipts } })

  -- `_append`
  unfoldable pub append_row : Value → Exec State (Unit {0})
  append_row report = do
    c ← reads (λ s. verify s.db)
    reads (λ s. refuse (leb self.limit (length s.db.journal)) gateway)
    at ← now
    body ← sealed report (event_aad (c.seq + 1))
    insert_row (record {
      seq = c.seq + 1;
      at = at;
      payload = body;
      prev = c.mac;
      mac = row_mac (c.seq + 1) at body c.mac;
    })

  -- COMMIT, or ROLLBACK
  abbrev pub settle : {A : Type 0} → State → Result A × State → Result A × State
  settle s (ok a, t) = (ok a, t)
  settle s (err c, t) = (err c, record t { db = s.db })

  unfoldable pub transaction : {A : Type 0} → Exec State A → Exec State A
  transaction body s = settle s (body s)

  -- `append`
  unfoldable pub append : Value → Exec State (Unit {0})
  append report = transaction (append_row report)

  abbrev parsed : Option Value → Result Value
  parsed none = err gateway
  parsed (some v) = ok v

  -- `json.loads(self.cipher.decrypt(…))`
  unfoldable pub read_report : String → String → Result Value
  read_report text aad = R.◌>>=◌ (opened text aad) λ body. parsed (os.loads body)

  abbrev is_request : Value → Bool
  is_request v =
      is_text "text_request" (member "kind" v)
      || is_text "bundle_request" (member "kind" v)
      || is_text "response_request" (member "kind" v)

  -- no event of the journal is a request of this identifier
  unfoldable pub no_event : String → List JournalRow → Result (Unit {0})
  no_event rid [] = ok tt
  no_event rid (r ∷ rows) = R.◌>>=◌ (read_report r.payload (event_aad r.seq)) λ v.
      R.◌>>=◌ (refuse (is_request v && is_text rid (member "request_id" v)) gateway)
        λ _. no_event rid rows

  abbrev one_if : Bool → ℕ
  one_if true = 1
  one_if false = 0

  -- the receipts in state 'dispatch_pending'
  unfoldable pub count_pending : List Receipt → Result ℕ
  count_pending [] = ok 0
  count_pending (r ∷ rows) = R.◌>>=◌ (read_report r.report (receipt_aad r.id)) λ v.
      R.◌>>=◌ (count_pending rows)
        λ n. ok (one_if (is_text "dispatch_pending" (member "execution_state" v)) + n)

  -- `{**result, 'replayed': True}`
  abbrev replayed : Value → Value
  replayed (obj fs) = obj (with_field "replayed" (bool true) fs)
  replayed v = v

  -- the branch of `reserve` for an identifier that is there: the stored report again
  unfoldable pub replay : Receipt → String → Result Value
  replay r fingerprint =
      R.◌>>=◌ (require (r.fingerprint == fingerprint) gateway)
        λ _. R.◌>>=◌ (read_report r.report (receipt_aad r.id)) λ v. ok (replayed v)

  unfoldable pub reserve_new : String → String → Value → Exec State (Unit {0})
  reserve_new rid fingerprint initial = do
    reads (λ s. no_event rid s.db.journal)
    pending ← reads (λ s. count_pending s.db.receipts)
    reads (λ s. refuse (ltb self.limit (length s.db.journal + pending + 2)) gateway)
    report ← sealed initial (receipt_aad rid)
    at ← now
    insert_receipt (record { id = rid; fingerprint = fingerprint; report = report; at = at })
    append_row initial

  unfoldable pub reserve_if : Option Receipt → String → String → Value → Exec State (Option Value)
  reserve_if (some r) rid fingerprint initial =
      lift (R.◌>>=◌ (replay r fingerprint) λ v. ok (some v))
  reserve_if none rid fingerprint initial = reserve_new rid fingerprint initial >>= λ _. pure none

  -- `reserve`: `none` is a new reservation, and a report is that of an earlier one
  unfoldable pub reserve : String → String → Value → Exec State (Option Value)
  reserve rid fingerprint initial = do
    c ← reads (λ s. verify s.db)
    transaction (do
      old ← reads (λ s. ok (receipt_of rid s.db.receipts))
      reserve_if old rid fingerprint initial)

  -- `finish`
  unfoldable pub finish : String → Value → Exec State (Unit {0})
  finish rid report =
      transaction
        (do append_row report; text ← sealed report (receipt_aad rid); update_receipt rid text)

  -- the rows before the first that is not older than `before`
  unfoldable pub older : ℕ → List JournalRow → List JournalRow
  older before [] = []
  older before (r ∷ rows) = let rest = older before rows in if leb before r.at then [] else r ∷ rest

  unfoldable pub drop_rows : JournalRow → Exec State (Unit {0})
  drop_rows last s = (
    ok tt,
    record s {
      db = record (s.db) {
        anchor = last.mac;
        anchor_seq = last.seq;
        journal = keep (λ r. ltb last.seq r.seq) s.db.journal;
      };
    },
  )

  unfoldable pub drop_receipts : ℕ → Exec State (Unit {0})
  drop_receipts before s = (
    ok tt,
    record s { db = record (s.db) { receipts = keep (λ r. leb before r.at) s.db.receipts } },
  )

  unfoldable pub prune_to : Option JournalRow → ℕ → ℕ → Checkpoint → Exec State ℕ
  prune_to none before count old = pure 0
  prune_to (some last) before count old =
      transaction (do
        drop_rows last
        drop_receipts before
        append_row (
            obj (
              fields (
                ("kind", str "retention")
                ∷ ("pruned", num count)
                ∷ (
                  "previous_checkpoint",
                  obj (
                      fields (
                        ("seq", num old.seq)
                        ∷ ("mac", str old.mac)
                        ∷ ("independent_anchor_required", bool true)
                        ∷ [])),
                )
                ∷ []))))
      >>= λ _. reads (λ s. verify s.db) >>= λ _. pure count

  -- `prune`: how many rows were removed
  unfoldable pub prune : ℕ → Exec State ℕ
  prune before = do
    at ← now
    lift (refuse (ltb at (before + 86400)) gateway)
    old ← reads (λ s. verify s.db)
    prefix ← reads (λ s. ok (older before s.db.journal))
    prune_to (last? prefix) before (length prefix) old
