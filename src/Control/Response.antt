-- ===== src/Control/Response.antt =====
-- aisecure/control/response.py: a proposal for a registered rule, its two signed approvals, and
-- its execution behind a durable reservation.
use aisecure.Prelude.{
  ℕ, ◌+◌, String, List, [], ◌∷◌, Option, none, some, Bool, true, false, ◌&&◌, ◌||◌, not, ◌==◌, leb,
  eqb, length, lookup, text_eq, if◌then◌else◌,
}
use Prim.Native.String.{◌++◌ as text_append}
use aisecure.Result.{Result, Code, ok, err, control, type_error, require, refuse}
use aisecure.Result as R
use aisecure.Exec.{Exec, pure, lift, ◌>>=◌, ◌>>◌}
use aisecure.Json.{
  Value, Fields, arr, obj, nil, cons, end, items, fields, str, bool, num, get, at_key, with_field,
}
use aisecure.Text.{take_text, text_before}
use aisecure.Platform.{Platform, Bytes}
use aisecure.Schema.{is_sha256}
use aisecure.Store.Approvals.{holds}
use aisecure.Approvals.{text_at}
use aisecure.Gateway.Safety.{Sentinel, assert_clear}
use aisecure.Gateway.Evidence.{State, Evidence, reserve, finish}
use aisecure.Control.{ident, integer, recent, exact_keys}
use aisecure.Control.Entry.{Details, entry}
use aisecure.Control.Device.{
  PolicyTarget, DeviceCall, expected_status, known_operation, read_state, apply_operation,
}

abbrev plan_fields : List String
plan_fields =
    "id" ∷ "target" ∷ "operation" ∷ "state_hash" ∷ "expires_at" ∷ "policy"
    ∷ "rollback_requires_new_approval" ∷ []

abbrev pub claim_fields : List String
claim_fields =
    "proposal_sha256" ∷ "approver" ∷ "role" ∷ "issued_at" ∷ "expires_at" ∷ "decision" ∷ []

-- `proposal['operation'] not in OPERATIONS`, which hashes the value
unfoldable pub operation_of : Option Value → Result String
operation_of (some (str s)) = if known_operation s then ok s else err control
operation_of (some (arr xs)) = err type_error
operation_of (some (obj fs)) = err type_error
operation_of _ = err control

abbrev is_True : Option Value → Bool
is_True (some (bool b)) = b
is_True _ = false

unfoldable pub state_hash_of : Option Value → Result String
state_hash_of (some (str s)) = if is_sha256 s then ok s else err control
state_hash_of _ = err control

-- the checks of the proposal in `verify_pair`: its fields and its expiry
unfoldable pub check_proposal : ℕ → Value → Result (Fields × ℕ)
check_proposal now proposal = R.◌>>=◌ (exact_keys plan_fields proposal) λ fs.
    R.◌>>=◌ (ident (at_key "id" fs)) λ _. R.◌>>=◌ (ident (at_key "target" fs)) λ _.
      R.◌>>=◌ (operation_of (get "operation" fs)) λ _.
        R.◌>>◌
          (require
            (holds "response-1" (get "policy" fs)
              && is_True (get "rollback_requires_new_approval" fs))
            control)
          (R.◌>>=◌ (state_hash_of (get "state_hash" fs)) λ _.
            R.◌>>=◌ (integer (now + 1) (now + 300) (at_key "expires_at" fs))
              λ expires. ok (fs, expires))

-- who signed, with which key, in which role
pub record Signer : Type 0 where
  pub approver : String
  pub key : Bytes
  pub role : String

abbrev pub min : ℕ → ℕ → ℕ
min a b = if leb a b then a else b

unfoldable pub role_of : Option Value → Result String
role_of (some (str s)) = if s == "primary" || s == "secondary" then ok s else err control
role_of _ = err control

unfoldable pub key_of : Option Bytes → Result Bytes
key_of none = err control
key_of (some key) = if eqb (length key) 32 then ok key else err control

abbrev pub same_bytes : Bytes → Bytes → Bool
same_bytes [] [] = true
same_bytes (x ∷ xs) (y ∷ ys) = eqb x y && same_bytes xs ys
same_bytes _ _ = false

module _ (os : Platform) where
  unfoldable pub signature_of : Value → Result Bytes
  signature_of (str s) = decoded (os.b64decode s)
    where
      decoded : Option Bytes → Result Bytes
      decoded none = err control
      decoded (some raw) = ok raw
  signature_of _ = err control

  -- one round of the loop over the proofs; each of its exceptions becomes ControlError
  unfoldable pub check_proof : List (String × Bytes) → Value → ℕ → ℕ → Value → Result Signer
  check_proof keys proposal expires now proof =
      R.◌>>=◌ (exact_keys ("claim" ∷ "signature" ∷ []) proof) λ fs.
        R.◌>>=◌ (exact_keys claim_fields (at_key "claim" fs)) λ claim.
          R.◌>>◌
            (require
              (holds (os.sha256 (os.dumps proposal)) (get "proposal_sha256" claim)
                && holds "approve" (get "decision" claim))
              control)
            (R.◌>>=◌ (recent now 300 15 (at_key "issued_at" claim)) λ issued.
              R.◌>>=◌ (integer (now + 1) (min (issued + 300) expires) (at_key "expires_at" claim))
                λ _. R.◌>>=◌ (role_of (get "role" claim)) λ role.
                  R.◌>>=◌ (ident (at_key "approver" claim)) λ approver.
                    R.◌>>=◌ (key_of (lookup approver keys)) λ key.
                      R.◌>>=◌ (signature_of (at_key "signature" fs)) λ signature.
                        R.◌>>◌ (require (os.ed25519 key signature (os.dumps (obj claim))) control)
                          (ok (record { approver = approver; key = key; role = role })))

  -- two people with two keys in two roles
  unfoldable pub independent : Signer → Signer → Bool
  independent a b =
      not (a.approver == b.approver) && not (same_bytes a.key b.key) && not (a.role == b.role)

  unfoldable pub two_proofs :
      List (String × Bytes) → Value → ℕ → ℕ → Value → Result (Signer × Signer)
  two_proofs keys proposal expires now (arr (cons first (cons second nil))) =
      R.◌>>=◌ (check_proof keys proposal expires now first) λ a.
        R.◌>>=◌ (check_proof keys proposal expires now second)
          λ b. R.◌>>◌ (require (independent a b) control) (ok (a, b))
  two_proofs keys proposal expires now _ = err control

  -- `verify_pair`, which returns the sorted people; here the fields and the signers too
  unfoldable pub verify_pair :
      List (String × Bytes) → ℕ → Value → Value → Result (Fields × (Signer × Signer))
  verify_pair keys now proposal proofs =
      R.◌>>=◌ (check_proposal now proposal)
        λ p. R.◌>>=◌ (two_proofs keys proposal p.1 now proofs) λ signers. ok (p.0, signers)

pub record Adapter : Type 0 where
  pub target : PolicyTarget
  pub deployment_verified : Bool
  pub network : List DeviceCall → DeviceCall → Option Value

-- the journal with its receipts, and the calls sent to the device
pub record World : Type 0 where
  pub books : State
  pub calls : List DeviceCall

module _ {A : Type 0} where
  unfoldable pub on_books : Exec State A → Exec World A
  on_books m w = let (r, s) = m w.books in (r, record w { books = s })

  unfoldable pub on_device : Exec (List DeviceCall) A → Exec World A
  on_device m w = let (r, c) = m w.calls in (r, record w { calls = c })

pub record Outcome : Type 0 where
  pub state : String
  pub rule : String

abbrev pub unknown_outcome : Outcome
unknown_outcome = record { state = "delivery_unknown"; rule = "RESPONSE-UNKNOWN" }

abbrev pub changed_outcome : Outcome
changed_outcome = record { state = "precondition_failed"; rule = "RESPONSE-STATE-CHANGED" }

abbrev verified_outcome : Outcome
verified_outcome = record { state = "verified"; rule = "RESPONSE-CONFIG-VERIFIED" }

abbrev pub unverified_if : Bool → Outcome
unverified_if b = if b then verified_outcome else unknown_outcome

-- `except Exception: pass`
-- `except Exception: pass`
abbrev pub recover : Result Outcome → Result Outcome
recover (ok o) = ok o
recover (err c) = ok unknown_outcome

unfoldable pub caught : Exec World Outcome → Exec World Outcome
caught m w = let (r, v) = m w in (recover r, v)

abbrev pub found : Option Adapter → Result Adapter
found none = err control
found (some a) = if a.deployment_verified then ok a else err control

module _ (os : Platform) (self : Evidence) (audit_key : Bytes) (adapters : List (String × Adapter))
    (keys : List (String × Bytes)) where
  -- the branch that applies the operation
  unfoldable pub dispatch : Adapter → Sentinel → String → Exec World Outcome
  dispatch a last operation = do
    lift (assert_clear last)
    on_device (apply_operation os a.target a.network a.deployment_verified operation)
    after ← on_device (read_state os a.target a.network a.deployment_verified)
    pure (unverified_if (after.status == expected_status operation))

  -- the body of the `try`
  unfoldable pub attempt : Adapter → Sentinel → Sentinel → String → String → Exec World Outcome
  attempt a middle last operation state_hash = do
    lift (assert_clear middle)
    current ← on_device (read_state os a.target a.network a.deployment_verified)
    if current.state_hash == state_hash then dispatch a last operation else pure changed_outcome

  abbrev people : Signer → Signer → String
  people a b =
      if text_before a.approver b.approver
      then text_append a.approver (text_append ":" b.approver)
      else text_append b.approver (text_append ":" a.approver)

  abbrev pub request_name : Fields → String
  request_name fs = take_text 32 (os.sha256 (text_append "response:" (text_at "id" fs)))

  abbrev pub details : Fields → Signer → Signer → Details
  details fs a b = record {
    kind = "response_request";
    request_id = request_name fs;
    decision = "allow";
    state = "dispatch_pending";
    actor = people a b;
    target = text_at "target" fs;
    rules = "RESPONSE-APPROVED" ∷ [];
    counts = end;
    coverage = "metadata_only";
  }

  abbrev pub final_of : Outcome → Fields → Fields
  final_of o fs =
      with_field "rules" (arr (items (str o.rule ∷ [])))
        (with_field "execution_state" (str o.state) fs)

  abbrev pub with_unverified : Value → Value
  with_unverified (obj fs) = obj (with_field "containment_verified" (bool false) fs)
  with_unverified v = v

  abbrev pub final_answer : Outcome → Fields → Value
  final_answer o fs = obj (
      with_field "rollback_requires_new_approval" (bool true) (
        with_field "automatic_retry" (bool false) (
          with_field "containment_verified" (bool false)
            (with_field "configuration_verified" (bool (o.state == "verified")) (final_of o fs)))))

  -- what follows a new reservation
  unfoldable pub carry_out : Adapter → Sentinel → Sentinel → Fields → Fields → Exec World Value
  carry_out a middle last fs initial = do
    o ← caught (attempt a middle last (text_at "operation" fs) (text_at "state_hash" fs))
    on_books (finish os self (request_name fs) (obj (final_of o initial)))
    pure (final_answer o initial)

  -- an earlier report is returned again
  unfoldable pub replay_or : Option Value → Exec World Value → Exec World Value
  replay_or (some prior) m = pure (with_unverified prior)
  replay_or none m = m

  -- `evidence.digest` of the canonical proposal
  abbrev pub fingerprint : Value → String
  fingerprint proposal = os.hmac self.key (text_append "request\0" (os.dumps proposal))

  -- `execute`; the emergency stop is looked up three times
  unfoldable pub execute :
      Sentinel → Sentinel → Sentinel → Bool → ℕ → Value → Value → Exec World Value
  execute early middle last consent now proposal proofs = do
    lift (require consent control)
    p ← lift (verify_pair os keys now proposal proofs)
    a ← lift (found (lookup (text_at "target" p.0) adapters))
    lift (assert_clear early)
    initial ← lift (entry os audit_key (details p.0 p.1.0 p.1.1))
    prior ← on_books (reserve os self (request_name p.0) (fingerprint proposal) (obj initial))
    replay_or prior (carry_out a middle last p.0 initial)

  -- `plan`
  unfoldable pub plan : Adapter → String → ℕ → ℕ → Exec World Value
  plan a operation draw now = do
    lift (require (known_operation operation) control)
    current ← on_device (read_state os a.target a.network a.deployment_verified)
    lift (refuse (current.status == expected_status operation) control)
    pure (
        obj (
          fields (
            ("id", str (os.token_hex draw 16))
            ∷ ("target", str a.target.id)
            ∷ ("operation", str operation)
            ∷ ("state_hash", str current.state_hash)
            ∷ ("expires_at", num (now + 300))
            ∷ ("policy", str "response-1")
            ∷ ("rollback_requires_new_approval", bool true)
            ∷ [])))
