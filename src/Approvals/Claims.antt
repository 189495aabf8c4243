-- ===== src/Approvals/Claims.antt =====
-- What `verify_approval` guarantees of the claim that it returns.
use aisecure.Prelude.{
  both_true, ℕ, ◌+◌, ◌≤◌, ◌<◌, ◌≡◌, refl, sym, ap, ◌∙◌, String, List, [], ◌∷◌, Option, none, some,
  true, ◌&&◌, ◌||◌, ◌==◌, arith, lookup, text_eq,
}
use mathlib.Core.Path.{subst}
use aisecure.Json.{Value, Fields, null, bool, int, float, str, arr, obj, get, at_key}
use aisecure.Result.{ok_value, ok, validation, require, >>=-ok, require_ok}
use aisecure.Schema.{identifier, object_keys, parse_time}
use aisecure.Platform.{Platform, Bytes}
use aisecure.Store.Approvals.{holds}
use aisecure.Store.Attested.{Attests, holds_text}
use aisecure.Approvals.{
  equals_one, plain_text, known_role, known_action, in_window, key_of, text_of, text_at, claim_keys,
  key_known, b64url, validate_claim, signed, verify_approval,
}

a_text :
    (low high : ℕ) (o : Option Value) → plain_text low high o ≡ true → o ≡ some (str (text_of o))
unfolding plain_text
a_text low high (some (str s)) h = refl
a_text low high (some null) h = cc
a_text low high (some (bool b)) h = cc
a_text low high (some (int z)) h = cc
a_text low high (some (float x)) h = cc
a_text low high (some (arr xs)) h = cc
a_text low high (some (obj fs)) h = cc
a_text low high none h = cc

an_action : (o : Option Value) → known_action o ≡ true → o ≡ some (str (text_of o))
unfolding known_action
an_action (some (str s)) h = refl
an_action (some null) h = cc
an_action (some (bool b)) h = cc
an_action (some (int z)) h = cc
an_action (some (float x)) h = cc
an_action (some (arr xs)) h = cc
an_action (some (obj fs)) h = cc
an_action none h = cc

-- the times of an approval around the time of its check
pub record Current (now issued expires : ℕ) : Type 0 where
  pub not_stale : now ≤ issued + 300000000
  pub not_early : issued ≤ now + 120000000
  pub not_expired : now < expires
  pub short_lived : expires ≤ issued + 900000000

in_window-Current :
    (now issued expires : ℕ) → in_window now issued expires ≡ true → Current now issued expires
unfolding in_window
in_window-Current now issued expires h = record {
  not_stale = ground arith;
  not_early = ground arith;
  not_expired = ground arith;
  short_lived = ground arith;
}

module _ (os : Platform) (pid sid : String) where
  -- the claim is what `_validate_claim` asks for
  record Claim (now : ℕ) (fs : Fields) : Type 0 where
    pub decision : get "decision" fs ≡ some (str "approve")
    pub proposal : get "proposal_id" fs ≡ some (str pid)
    pub snapshot : get "snapshot_id" fs ≡ some (str sid)
    pub approver : get "approver" fs ≡ some (str (text_at "approver" fs))
    pub act : get "action" fs ≡ some (str (text_at "action" fs))
    pub issued : ℕ
    pub expires : ℕ
    pub issue : parse_time os (at_key "issued_at" fs) ≡ ok issued
    pub expiry : parse_time os (at_key "expires_at" fs) ≡ ok expires
    pub current : Current now issued expires

  validate_claim-Claim :
      (now : ℕ) (payload : Value) (claim : Fields)
      → validate_claim os pid sid now payload ≡ ok claim
      → Claim now claim
  unfolding validate_claim
  validate_claim-Claim now payload claim e =
      let (fs, _, e1) = >>=-ok (object_keys claim_keys [] payload) _ claim e in
      let (u, first, e2) =
        >>=-ok
          (require (equals_one (get "schema_version" fs) && holds "approve" (get "decision" fs))
            validation)
          _ claim e1 in
      let (_, _, e3) = >>=-ok (known_role (get "role" fs)) _ claim e2 in
      let (w, second, e4) =
        >>=-ok
          (require (holds pid (get "proposal_id" fs) && holds sid (get "snapshot_id" fs))
            validation)
          _ claim e3 in
      let (_, _, e5) = >>=-ok (identifier (at_key "proposal_id" fs)) _ claim e4 in
      let (_, _, e6) = >>=-ok (identifier (at_key "snapshot_id" fs)) _ claim e5 in
      let (x, act, e7) = >>=-ok (require (known_action (get "action" fs)) validation) _ claim e6 in
      let (y, approver, e8) =
        >>=-ok (require (plain_text 1 120 (get "approver" fs)) validation) _ claim e7 in
      let (_, _, e9) =
        >>=-ok (require (plain_text 16 256 (get "nonce" fs)) validation) _ claim e8 in
      let (issued, issue, e10) = >>=-ok (parse_time os (at_key "issued_at" fs)) _ claim e9 in
      let (expires, expiry, e11) = >>=-ok (parse_time os (at_key "expires_at" fs)) _ claim e10 in
      let (z, window, e12) =
        >>=-ok (require (in_window now issued expires) validation) _ claim e11 in
      let (_, decided) = both_true (require_ok _ _ u first) in
      let (proposed, seen) = both_true (require_ok _ _ w second) in
      subst (Claim now) {x = fs} (ok_value fs claim e12) (record {
        decision = holds_text pid sid "" "approve" _ decided;
        proposal = holds_text pid sid "" pid _ proposed;
        snapshot = holds_text pid sid "" sid _ seen;
        approver = a_text 1 120 _ (require_ok _ _ y approver);
        act = an_action _ (require_ok _ _ x act);
        issued = issued;
        expires = expires;
        issue = issue;
        expiry = expiry;
        current = in_window-Current now issued expires (require_ok _ _ z window);
      })

  -- a claim that its registered approver has signed for this action of this proposal
  pub record Approved (keys : List (String × Bytes)) (role : String) (now : ℕ) (claim : Fields)
      : Type 0 where
    pub attests :
        Attests pid sid (text_at "action" claim) role (text_at "approver" claim) (obj claim)
    pub key : Bytes
    pub registered : lookup (text_at "approver" claim) keys ≡ some key
    pub signature : Bytes
    pub authentic : os.ed25519 key signature (os.dumps (obj claim)) ≡ true
    pub issued : ℕ
    pub expires : ℕ
    pub issue : parse_time os (at_key "issued_at" claim) ≡ ok issued
    pub expiry : parse_time os (at_key "expires_at" claim) ≡ ok expires
    pub current : Current now issued expires

  signed_same :
      (o : Option Bytes) (signature : Bytes) (claim out : Fields)
      → signed os pid sid o signature claim ≡ ok out
      → (key : Bytes) × (o ≡ some key)
        × (os.ed25519 key signature (os.dumps (obj claim)) ≡ true)
        × (claim ≡ out)
  unfolding signed
  signed_same none signature claim out e = cc
  signed_same (some key) signature claim out e =
      let authentic : os.ed25519 key signature (os.dumps (obj claim)) ≡ true = ground arith in
      (key, refl, authentic, ok_value claim out (rw authentic at e))

  pub verify_approval-Approved :
      (keys : List (String × Bytes)) (role : String) (now : ℕ) (file : Option Value)
      (claim : Fields)
      → verify_approval os pid sid keys role now file ≡ ok claim
      → Approved keys role now claim
  unfolding verify_approval
  verify_approval-Approved keys role now none claim e = cc
  verify_approval-Approved keys role now (some document) claim e =
      let (_, _, e1) =
        >>=-ok (require (role == "primary" || role == "secondary") validation) _ claim e in
      let (fs, _, e2) =
        >>=-ok (object_keys ("payload" ∷ "signature" ∷ []) [] document) _ claim e1 in
      let (c, valid, e3) =
        >>=-ok (validate_claim os pid sid now (at_key "payload" fs)) _ claim e2 in
      let (u, known, e4) =
        >>=-ok
          (require
            (holds role (get "role" c) && key_known os pid sid (key_of keys (get "approver" c)))
            validation)
          _ claim e3 in
      let (signature, _, e5) = >>=-ok (b64url os 64 (at_key "signature" fs)) _ claim e4 in
      let (key, found, authentic, same) =
        signed_same (key_of keys (get "approver" c)) signature c claim e5 in
      let x = validate_claim-Claim now (at_key "payload" fs) c valid in
      let (in_role, _) = both_true (require_ok _ _ u known) in
      subst (Approved keys role now) {x = c} same (record {
        attests = record {
          fs = c;
          is_object = refl;
          role_of = holds_text pid sid "" role _ in_role;
          approver = x.approver;
          proposal = x.proposal;
          snapshot = x.snapshot;
          action_of = x.act;
          decision = x.decision;
        };
        key = key;
        registered = sym (ap (key_of keys) x.approver) ∙ found;
        signature = signature;
        authentic = authentic;
        issued = x.issued;
        expires = x.expires;
        issue = x.issue;
        expiry = x.expiry;
        current = x.current;
      })
