-- ===== src/Control/Signed.antt =====
-- What `verify_pair` of aisecure/control/response.py accepts.
use aisecure.Prelude.{
  ℕ, ◌+◌, ◌≡◌, ◌≢◌, String, List, [], ◌∷◌, Option, none, some, true, false, ◌&&◌, not, ◌==◌, lookup,
  text_eq, both_true, opposite, eq_iff, arith,
}
use mathlib.Core.Path.{subst}
use aisecure.Result.{ok, control, require, require_ok, ok_value, >>=-ok}
use aisecure.Json.{Value, Fields, null, bool, int, float, str, arr, obj, nil, cons, get, at_key}
use aisecure.Platform.{Platform, Bytes}
use aisecure.Store.Approvals.{holds}
use aisecure.Store.Attested.{holds_text}
use aisecure.Control.{ident, integer, recent, exact_keys}
use aisecure.Control.Response.{
  Signer, claim_fields, role_of, key_of, signature_of, min, same_bytes, check_proposal, check_proof,
  independent, two_proofs, verify_pair,
}

-- the signer's registered key has signed the approval of exactly this proposal
pub record Signed (os : Platform) (keys : List (String × Bytes)) (proposal : Value) (s : Signer)
    : Type 0 where
  pub claim : Fields
  pub signature : Bytes
  pub registered : lookup s.approver keys ≡ some s.key
  pub authentic : os.ed25519 s.key signature (os.dumps (obj claim)) ≡ true
  pub this_proposal : get "proposal_sha256" claim ≡ some (str (os.sha256 (os.dumps proposal)))
  pub decision : get "decision" claim ≡ some (str "approve")

key_given : (o : Option Bytes) (key : Bytes) → key_of o ≡ ok key → o ≡ some key
unfolding key_of
key_given none key e = cc
key_given (some k) key e = ground arith

module _ (os : Platform) (keys : List (String × Bytes)) where
  check_proof-Signed :
      (proposal : Value) (expires now : ℕ) (proof : Value) (s : Signer)
      → check_proof os keys proposal expires now proof ≡ ok s
      → Signed os keys proposal s
  unfolding check_proof
  check_proof-Signed proposal expires now proof s e =
      let (fs, _, e1) = >>=-ok (exact_keys ("claim" ∷ "signature" ∷ []) proof) _ s e in
      let (claim, _, e2) = >>=-ok (exact_keys claim_fields (at_key "claim" fs)) _ s e1 in
      let (u, first, e3) =
        >>=-ok
          (require
            (holds (os.sha256 (os.dumps proposal)) (get "proposal_sha256" claim)
              && holds "approve" (get "decision" claim))
            control)
          _ s e2 in
      let (issued, _, e4) = >>=-ok (recent now 300 15 (at_key "issued_at" claim)) _ s e3 in
      let (_, _, e5) =
        >>=-ok (integer (now + 1) (min (issued + 300) expires) (at_key "expires_at" claim)) _ s
          e4 in
      let (role, _, e6) = >>=-ok (role_of (get "role" claim)) _ s e5 in
      let (approver, _, e7) = >>=-ok (ident (at_key "approver" claim)) _ s e6 in
      let (key, registered, e8) = >>=-ok (key_of (lookup approver keys)) _ s e7 in
      let (signature, _, e9) = >>=-ok (signature_of os (at_key "signature" fs)) _ s e8 in
      let (w, authentic, e10) =
        >>=-ok (require (os.ed25519 key signature (os.dumps (obj claim))) control) _ s e9 in
      let (this_proposal, decision) = both_true (require_ok _ _ u first) in
      subst (Signed os keys proposal) {x = record { approver = approver; key = key; role = role }}
        (ok_value _ s e10)
        (record {
          claim = claim;
          signature = signature;
          registered = key_given _ key registered;
          authentic = require_ok _ _ w authentic;
          this_proposal = holds_text "" "" "" _ _ this_proposal;
          decision = holds_text "" "" "" "approve" _ decision;
        })

  pub record TwoSigners (proposal : Value) (a b : Signer) : Type 0 where
    pub first : Signed os keys proposal a
    pub second : Signed os keys proposal b
    pub two_people : a.approver ≢ b.approver
    pub two_keys : same_bytes a.key b.key ≡ false
    pub two_roles : a.role ≢ b.role

  differ : (x y : String) → x == y ≡ false → x ≢ y
  differ x y h e = ground (arith, eq_iff x y)

  two_proofs-TwoSigners :
      (proposal : Value) (expires now : ℕ) (proofs : Value) (a b : Signer)
      → two_proofs os keys proposal expires now proofs ≡ ok (a, b)
      → TwoSigners proposal a b
  unfolding two_proofs independent
  two_proofs-TwoSigners proposal expires now (arr (cons x (cons y nil))) a b e =
      let (s, first, e1) = >>=-ok (check_proof os keys proposal expires now x) _ (a, b) e in
      let (t, second, e2) = >>=-ok (check_proof os keys proposal expires now y) _ (a, b) e1 in
      let (u, apart, e3) = >>=-ok (require (independent os s t) control) _ (a, b) e2 in
      let (rest, roles) = both_true (
        require_ok
          (not (s.approver == t.approver) && not (same_bytes s.key t.key) && not (s.role == t.role))
          _ u apart) in
      let (people, publics) = both_true rest in
      subst (λ (q : Signer × Signer). TwoSigners proposal q.0 q.1) {x = (s, t)}
        (ok_value (s, t) (a, b) e3)
        (record {
          first = check_proof-Signed proposal expires now x s first;
          second = check_proof-Signed proposal expires now y t second;
          two_people = differ _ _ (opposite _ people);
          two_keys = opposite _ publics;
          two_roles = differ _ _ (opposite _ roles);
        })
  two_proofs-TwoSigners proposal expires now (arr nil) a b e = cc
  two_proofs-TwoSigners proposal expires now (arr (cons x nil)) a b e = cc
  two_proofs-TwoSigners proposal expires now (arr (cons x (cons y (cons z zs)))) a b e = cc
  two_proofs-TwoSigners proposal expires now null a b e = cc
  two_proofs-TwoSigners proposal expires now (bool x) a b e = cc
  two_proofs-TwoSigners proposal expires now (int z) a b e = cc
  two_proofs-TwoSigners proposal expires now (float x) a b e = cc
  two_proofs-TwoSigners proposal expires now (str s) a b e = cc
  two_proofs-TwoSigners proposal expires now (obj fs) a b e = cc

  pub verify_pair-TwoSigners :
      (now : ℕ) (proposal proofs : Value) (p : Fields × (Signer × Signer))
      → verify_pair os keys now proposal proofs ≡ ok p
      → TwoSigners proposal p.1.0 p.1.1
  unfolding verify_pair
  verify_pair-TwoSigners now proposal proofs p e =
      let (q, _, e1) = >>=-ok (check_proposal now proposal) _ p e in
      let (signers, verified, e2) = >>=-ok (two_proofs os keys proposal q.1 now proofs) _ p e1 in
      subst (λ (r : Fields × (Signer × Signer)). TwoSigners proposal r.1.0 r.1.1)
        {x = (q.0, signers)} (ok_value (q.0, signers) p e2)
        (two_proofs-TwoSigners proposal q.1 now proofs signers.0 signers.1 verified)
