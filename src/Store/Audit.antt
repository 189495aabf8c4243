-- ===== src/Store/Audit.antt =====
-- The audit chain of the store: `_audit`, `verify_audit`, `transaction`, `record`.
pub mod Chain
use aisecure.Prelude.{
  ℕ, suc, ◌+◌, String, List, [], ◌∷◌, ◌++◌, Option, none, some, Bool, true, false, ◌&&◌, not, ◌==◌,
  eqb, last?, length, if◌then◌else◌,
}
use aisecure.Result.{Result, ok, err, integrity}
use aisecure.Exec.{Exec, reads, ◌>>=◌}
use aisecure.Json.{Value, arr, obj, items, num, str, is_object}
use aisecure.Platform.{Platform}
use aisecure.Store.State.{AuditRow, State, Store, audit_key, utcnow, protect, unprotect}

-- ZERO
abbrev pub zero_tip : String
zero_tip = "0000000000000000000000000000000000000000000000000000000000000000"

pub record Verdict : Type 0 where
  pub valid : Bool
  pub count : ℕ
  pub tip : String
  pub anchor_valid : Bool

-- what `{"count": …, "tip": …}` holds of an integer and a text
pub record Anchor : Type 0 where
  pub count : ℕ
  pub tip : String

-- the variables of the loop of `verify_audit`; `seen` maps an index to the MAC there
pub record Walk : Type 0 where
  pub index : ℕ
  pub previous : String
  pub valid : Bool
  pub seen : List (ℕ × String)

abbrev pub walk_start : Walk
walk_start = record { index = 0; previous = zero_tip; valid = true; seen = (0, zero_tip) ∷ [] }

-- `seen[count]`; each index is written once
abbrev pub seen_at : ℕ → List (ℕ × String) → Option String
seen_at n [] = none
seen_at n ((i, mac) ∷ rest) = if eqb i n then some mac else seen_at n rest

abbrev pub same_text : Option String → String → Bool
same_text none tip = false
same_text (some mac) tip = mac == tip

-- the end of `transaction`: COMMIT, or ROLLBACK
abbrev pub settle : {A : Type 0} → State → Result A × State → Result A × State
settle s (ok a, t) = (ok a, t)
settle s (err c, t) = (err c, record t { db = s.db })

-- the number and the link of the next row
abbrev pub next_seq : Option AuditRow → ℕ
next_seq none = 1
next_seq (some r) = r.seq + 1

abbrev pub last_mac : Option AuditRow → String
last_mac none = zero_tip
last_mac (some r) = r.mac

module _ (os : Platform) (self : Store) where
  -- `_audit_aad`
  unfoldable pub audit_aad : ℕ → String → String → String → String
  audit_aad seq at action previous =
      os.dumps (arr (items (str "audit" ∷ num seq ∷ str at ∷ str action ∷ str previous ∷ [])))

  unfoldable pub row_mac : ℕ → String → String → String → String → String
  row_mac seq at action payload previous =
      os.hmac (audit_key os self)
        (os.dumps (arr (items (num seq ∷ str at ∷ str action ∷ str payload ∷ str previous ∷ []))))

  abbrev parsed_object : Option Value → Result Value
  parsed_object (some (obj fs)) = ok (obj fs)
  parsed_object _ = err integrity

  abbrev parse_body : Result String → Result Value
  parse_body (ok body) = parsed_object (os.loads body)
  parse_body (err c) = err c

  -- `_audit_payload`
  unfoldable pub audit_payload : AuditRow → Result Value
  audit_payload r = parse_body (unprotect os self r.payload (audit_aad r.seq r.at r.action r.prev))

  abbrev pub raises_nothing : Result Value → Bool
  raises_nothing (ok v) = true
  raises_nothing (err c) = false

  -- the test that one row passes at its place
  unfoldable pub row_valid : ℕ → String → AuditRow → Bool
  row_valid index previous r =
      eqb r.seq index
      && r.prev == previous
      && row_mac r.seq r.at r.action r.payload r.prev == r.mac
      && raises_nothing (audit_payload r)

  unfoldable pub walk_row : Walk → AuditRow → Walk
  walk_row w r = record {
    index = suc w.index;
    previous = r.mac;
    valid = w.valid && row_valid (suc w.index) w.previous r;
    seen = (suc w.index, r.mac) ∷ w.seen;
  }

  unfoldable pub walk : List AuditRow → Walk → Walk
  walk [] w = w
  walk (r ∷ rows) w = walk rows (walk_row w r)

  unfoldable pub verify_audit : Option Anchor → List AuditRow → Verdict
  verify_audit anchor rows =
      let w = walk rows walk_start in
      elim anchor [
        | none ↦ record {
          valid = w.valid;
          count = length rows;
          tip = w.previous;
          anchor_valid = false;
        }
        | some a ↦
            let anchored = same_text (seen_at a.count w.seen) a.tip in
            record {
              valid = w.valid && anchored;
              count = length rows;
              tip = w.previous;
              anchor_valid = anchored;
            }
      ]

  unfoldable pub insert_row : AuditRow → Exec State (Unit {0})
  insert_row r s = (ok tt, record s { db = record (s.db) { audit = s.db.audit ++ (r ∷ []) } })

  abbrev pub new_row : Option AuditRow → String → String → String → AuditRow
  new_row last at action body = record {
    seq = next_seq last;
    at = at;
    action = action;
    payload = body;
    prev = last_mac last;
    mac = row_mac (next_seq last) at action body (last_mac last);
  }

  -- `_audit`
  unfoldable pub audit : String → Value → Exec State (Unit {0})
  audit action payload = do
    last ← reads (λ s. ok (last? s.db.audit))
    now ← utcnow os self
    body ←
        protect os self (os.dumps payload)
          (audit_aad (next_seq last) (os.isoformat now) action (last_mac last))
    insert_row (new_row last (os.isoformat now) action body)

  unfoldable pub transaction : {A : Type 0} → Exec State A → Exec State A
  transaction body s =
      if (verify_audit none s.db.audit).valid then settle s (body s) else (err integrity, s)

  -- `record`
  unfoldable pub record_entry : String → Value → Exec State (Unit {0})
  record_entry action payload = transaction (audit action payload)
