-- ===== src/Gateway/Label/Signed.antt =====
-- What a label that `verify_label` accepts says, and who signed it.
use aisecure.Prelude.{
  ◌≡◌, refl, ap, ◌∙◌, ℕ, ◌<◌, String, [], ◌∷◌, Option, none, some, Bool, true, ◌&&◌, arith, eq_iff,
}
use aisecure.Json.{Value, Fields, null, bool, pos, negsuc, int, float, str, arr, obj, get, is_text}
use aisecure.Result.{ok, gateway, require, >>=-ok, require_ok, ok_value}
use aisecure.Platform.{Platform, Bytes}
use aisecure.Preflight.{DataClass, public}
use aisecure.Gateway.Label.{
  endpoint, class_of, claim_names, has_keys, in_time, wire_body, unb64, bound, or_gateway,
  check_claim, claim_of, verify_label,
}

the_text : (s : String) (o : Option Value) → is_text s o ≡ true → o ≡ some (str s)
the_text s (some (str t)) h = ground (arith, eq_iff t s)
the_text s (some null) h = cc h
the_text s (some (bool b)) h = cc h
the_text s (some (int z)) h = cc h
the_text s (some (float x)) h = cc h
the_text s (some (arr xs)) h = cc h
the_text s (some (obj fs)) h = cc h
the_text s none h = cc h

-- a label of the class public: its claim names this request, the digest of this text's body, the
-- model, the endpoint and the policy, and its signature under the key verifies
pub record SignedPublic (os : Platform) (key : Bytes) (text rid model : String) (now : ℕ)
    (o : Option Value) : Type 0 where
  pub label : Fields
  pub claim : Fields
  pub given : o ≡ some (obj label)
  pub claimed : get "claim" label ≡ some (obj claim)
  pub request : get "request_id" claim ≡ some (str rid)
  pub digest : get "sha256" claim ≡ some (str (os.sha256 (wire_body os text model)))
  pub for_model : get "model" claim ≡ some (str model)
  pub to_endpoint : get "endpoint" claim ≡ some (str endpoint)
  pub policy : get "policy" claim ≡ some (str "managed-text-v1")
  pub class : get "data_class" claim ≡ some (str "public")
  pub expires : ℕ
  pub expiry : get "expires_at" claim ≡ some (int (pos expires))
  pub not_expired : now < expires
  pub signature : Bytes
  pub decoded : unb64 os (get "signature" label) 64 ≡ ok signature
  pub authentic : os.ed25519 key signature (os.dumps (obj claim)) ≡ true

expires_after :
    (now : ℕ) (issued expires : Option Value)
    → in_time now issued expires ≡ true
    → (n : ℕ) × (expires ≡ some (int (pos n))) × (now < n)
expires_after now (some (int (pos i))) (some (int (pos n))) h = (n, refl, ground arith)
expires_after now (some (int (negsuc k))) (some (int (pos n))) h = (n, refl, ground arith)
expires_after now a b h = cc h

five_tests :
    (a b c d e : Bool)
    → (a && b && c && d && e) ≡ true
    → (a ≡ true) × (b ≡ true) × (c ≡ true) × (d ≡ true) × (e ≡ true)
five_tests a b c d e h = ground arith

public_class : (o : Option Value) → class_of o ≡ some public → o ≡ some (str "public")
public_class (some (str s)) h = ground (arith, eq_iff s "public")
public_class (some null) h = cc h
public_class (some (bool b)) h = cc h
public_class (some (int z)) h = cc h
public_class (some (float x)) h = cc h
public_class (some (arr xs)) h = cc h
public_class (some (obj fs)) h = cc h
public_class none h = cc h

module _ (os : Platform) (key : Bytes) (text rid model : String) (now : ℕ) where
  a_class :
      (o : Option DataClass) (c : DataClass)
      → or_gateway os key text rid model now o ≡ ok c
      → o ≡ some c
  unfolding or_gateway
  a_class none c h = cc h
  a_class (some d) c h = ap some (ok_value d c h)

  bound_texts :
      (claim : Fields)
      → bound os key text rid model now claim ≡ true
      → (get "request_id" claim ≡ some (str rid))
        × (get "sha256" claim ≡ some (str (os.sha256 (wire_body os text model))))
        × (get "model" claim ≡ some (str model))
        × (get "endpoint" claim ≡ some (str endpoint))
        × (get "policy" claim ≡ some (str "managed-text-v1"))
  unfolding bound
  bound_texts claim h =
      let (a, b, c, d, e) = five_tests _ _ _ _ _ h in
      (the_text _ _ a, the_text _ _ b, the_text _ _ c, the_text _ _ d, the_text _ _ e)

  check-Signed :
      (label claim : Fields)
      → get "claim" label ≡ some (obj claim)
      → check_claim os key text rid model now label claim ≡ ok public
      → SignedPublic os key text rid model now (some (obj label))
  unfolding check_claim
  check-Signed label claim claimed e =
      let (_, _, e1) = >>=-ok (require (has_keys claim_names claim) gateway) _ public e in
      let (u, names, e2) =
        >>=-ok (require (bound os key text rid model now claim) gateway) _ public e1 in
      let (c, known, e3) =
        >>=-ok (or_gateway os key text rid model now (class_of (get "data_class" claim))) _ public
          e2 in
      let (w, window, e4) =
        >>=-ok (require (in_time now (get "issued_at" claim) (get "expires_at" claim)) gateway) _
          public e3 in
      let (signature, decoded, e5) = >>=-ok (unb64 os (get "signature" label) 64) _ public e4 in
      let (x, authentic, e6) =
        >>=-ok (require (os.ed25519 key signature (os.dumps (obj claim))) gateway) _ public e5 in
      let (request, digest, for_model, to_endpoint, policy) =
        bound_texts claim (require_ok _ _ u names) in
      let (expires, expiry, not_expired) = expires_after now _ _ (require_ok _ _ w window) in
      record {
        label = label;
        claim = claim;
        given = refl;
        claimed = claimed;
        request = request;
        digest = digest;
        for_model = for_model;
        to_endpoint = to_endpoint;
        policy = policy;
        class = public_class _ (a_class _ c known ∙ ap some (ok_value c public e6));
        expires = expires;
        expiry = expiry;
        not_expired = not_expired;
        signature = signature;
        decoded = decoded;
        authentic = require_ok _ _ x authentic;
      }

  claim-Signed :
      (label : Fields) (o : Option Value)
      → get "claim" label ≡ o
      → claim_of os key text rid model now label o ≡ ok public
      → SignedPublic os key text rid model now (some (obj label))
  unfolding claim_of
  claim-Signed label (some (obj claim)) found h = check-Signed label claim found h
  claim-Signed label (some null) found h = cc h
  claim-Signed label (some (bool b)) found h = cc h
  claim-Signed label (some (int z)) found h = cc h
  claim-Signed label (some (float x)) found h = cc h
  claim-Signed label (some (str s)) found h = cc h
  claim-Signed label (some (arr xs)) found h = cc h
  claim-Signed label none found h = cc h

  pub verify_label-Signed :
      (o : Option Value)
      → verify_label os key text rid model now o ≡ ok public
      → SignedPublic os key text rid model now o
  unfolding verify_label
  verify_label-Signed (some (obj label)) h =
      let (_, _, e) =
        >>=-ok (require (has_keys ("claim" ∷ "signature" ∷ []) label) gateway) _ public h in
      claim-Signed label (get "claim" label) refl e
  verify_label-Signed (some null) h = cc h
  verify_label-Signed (some (bool b)) h = cc h
  verify_label-Signed (some (int z)) h = cc h
  verify_label-Signed (some (float x)) h = cc h
  verify_label-Signed (some (str s)) h = cc h
  verify_label-Signed (some (arr xs)) h = cc h
  verify_label-Signed none h = cc h
