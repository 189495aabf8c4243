-- ===== src/Store/State.antt =====
-- The tables of the store, the settings of a `Store` object, and what its methods draw from the
-- platform. A table is a list of rows in the order of insertion.
use aisecure.Prelude.{ℕ, ◌+◌, String, List, Option, Bool, true, false}
use aisecure.Result.{Result, ok, err, integrity}
use aisecure.Exec.{Exec}
use aisecure.Platform.{Platform, Bytes}
use aisecure.Rules.{RuleConfig}
use aisecure.Cipher.{encrypt, decrypt}

pub record AuditRow : Type 0 where
  pub seq : ℕ
  pub at : String
  pub action : String
  pub payload : String
  pub prev : String
  pub mac : String

pub record SnapshotRow : Type 0 where
  pub id : String
  pub created_at : String
  pub body : String
  pub mac : String

pub data Status : Type 0 where
  pending simulated approved executing verified failed : Status

pub record ProposalRow : Type 0 where
  pub id : String
  pub snapshot_id : String
  pub finding_id : String
  pub body : String
  pub created_at : String
  pub expires_at : String
  pub status : Status
  pub approved_target_hmac : Option String

pub record Db : Type 0 where
  pub snapshots : List SnapshotRow
  -- the one row of current_snapshot
  pub current : Option String
  pub proposals : List ProposalRow
  pub audit : List AuditRow

-- The database beside the numbers of clock readings and of random draws made so far, which no
-- rollback undoes.
pub record State : Type 0 where
  pub db : Db
  pub readings : ℕ
  pub draws : ℕ

pub record Store : Type 0 where
  pub config : RuleConfig
  pub master : Bytes
  pub encrypted : Bool

module _ (os : Platform) (self : Store) where
  abbrev pub identity_key : Bytes
  identity_key = os.hmac_digest self.master "identity-v1"

  abbrev pub audit_key : Bytes
  audit_key = os.hmac_digest self.master "audit-v1"

  unfoldable pub utcnow : Exec State ℕ
  utcnow s = (ok (os.clock s.readings), record s { readings = s.readings + 1 })

  unfoldable pub token_hex : ℕ → Exec State String
  token_hex n s = (ok (os.token_hex s.draws n), record s { draws = s.draws + 1 })

  -- `self.cipher.encrypt(value, …) if self.cipher else value`
  abbrev pub protect_if : Bool → String → String → Exec State String
  protect_if true value aad s =
      (ok (encrypt os self.master s.draws value aad), record s { draws = s.draws + 1 })
  protect_if false value aad s = (ok value, s)

  -- `_protect`
  unfoldable pub protect : String → String → Exec State String
  protect = protect_if self.encrypted

  abbrev or_integrity : Result String → Result String
  or_integrity (ok text) = ok text
  or_integrity (err c) = err integrity

  abbrev pub unprotect_if : Bool → String → String → Result String
  unprotect_if true value aad = or_integrity (decrypt os self.master value aad)
  unprotect_if false value aad = ok value

  -- `_unprotect`
  unfoldable pub unprotect : String → String → Result String
  unprotect = unprotect_if self.encrypted
