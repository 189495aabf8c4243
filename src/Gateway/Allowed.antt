-- ===== src/Gateway/Allowed.antt =====
-- What `send` of the gateway has established when it calls the transport.
use aisecure.Prelude.{
  Among, inl, inr, ◌≡◌, refl, sym, ap, ◌∙◌, String, [], ◌∷◌, Option, none, some, Bool, true, false,
  arith, if◌then◌else◌,
}
use mathlib.Core.Path.{subst}
use aisecure.Json.{Value}
use aisecure.Result.{ok_value, Result, ok, err, require, gateway, Result-cases}
use aisecure.Result as R
use aisecure.Exec.{pure, lift}
use aisecure.Exec.Ensures.{bind-ok, lift-ok, reads-ok, require-ok}
use aisecure.Platform.{Platform}
use aisecure.Preflight.{Library, Request, Grant, DataClass, public, Verdict, allow, check_request}
use aisecure.Preflight.Granted.{FirstCovering}
use aisecure.Preflight.Decide.{Cleared, evaluate-Cleared}
use aisecure.Gateway.Safety.{Sentinel, assert_clear}
use aisecure.Gateway.Evidence.{
  Receipt, Tables, State, Evidence, now, receipt_of, reserve_if, reserve, settle, transaction,
}
use aisecure.Gateway.Label.Signed.{SignedPublic, verify_label-Signed}
use aisecure.Gateway.Label.{valid_text, verify_label, wire_body}
use aisecure.Gateway.Send.{
  Gateway, Prepared, stopped, dispatch, grant, is_allow, request_of, prepared, prepare, decide,
  initial, begin_send,
}

never_none : (x : Result Value) → R.◌>>=◌ x (λ v. ok (some v)) ≡ ok none → ⊥
never_none (ok v) h = cc
never_none (err c) h = cc

module _ (os : Platform) (self : Evidence) where
  settled_ok :
      {A : Type 0} (s : State) (r : Result A) (t : State) (a : A)
      → (settle os self s (r, t)).0 ≡ ok a
      → r ≡ ok a
  settled_ok s (ok b) t a h = h
  settled_ok s (err c) t a h = cc

  no_earlier :
      (o : Option Receipt) (rid fingerprint : String) (initial : Value) (s : State)
      → (reserve_if os self o rid fingerprint initial s).0 ≡ ok none
      → o ≡ none
  unfolding reserve_if lift
  no_earlier none rid fingerprint initial s h = refl
  no_earlier (some r) rid fingerprint initial s h = absurd (never_none _ h)

  reserved_new :
      (rid fingerprint : String) (initial : Value) (s : State)
      → (reserve os self rid fingerprint initial s).0 ≡ ok none
      → receipt_of rid s.db.receipts ≡ none
  unfolding reserve transaction
  reserved_new rid fingerprint initial s h =
      let (_, _, h1, _) = reads-ok _ _ s none h in
      let (o, e, h2, _) =
        reads-ok (λ (s : State). ok (receipt_of rid s.db.receipts)) _ s none
          (settled_ok s _ _ none h1) in
      ok_value _ o e ∙ no_earlier o rid fingerprint initial s h2

module _ (os : Platform) (lib : Library) (self : Evidence) (g : Gateway) where
  one_grant :
      (r : Request) (gr : Grant)
      → FirstCovering r gr (grant ∷ [])
      → Among r.data_class gr.data_classes
      → r.data_class ≡ public
  one_grant r gr (inl (_, same)) m =
      elim (subst (λ (x : Grant). Among r.data_class x.data_classes) (sym same) m) [
        | inl e ↦ e
        | inr none_left ↦ absurd none_left
      ]
  one_grant r gr (inr (_, none_left)) m = absurd none_left

  checked_request : (q r : Request) → check_request lib q ≡ ok r → r ≡ q
  unfolding check_request
  checked_request q r h = ground arith

  -- what `prepare` has computed, and the request that it built
  prepare_ok :
      (text rid : String) (label : Option Value) (s : State) (p : Prepared)
      → (prepare os lib self g text rid label s).0 ≡ ok p
      → (class : DataClass) × (verify_label os g.public_key text rid g.model
            (os.unix_time s.readings)
            label
          ≡ ok class)
        × (p ≡ prepared os lib self g text rid class (request_of os lib self g text rid class))
        × ((prepare os lib self g text rid label s).1.db ≡ s.db)
  unfolding prepare now pure
  prepare_ok text rid label s p h =
      let (_, _, h1, s1) = lift-ok (valid_text text rid) _ s p h in
      let (time, e2, h2, s2) = bind-ok (now os self) _ s p h1 in
      let (class, e3, h3, s3) =
        lift-ok (verify_label os g.public_key text rid g.model time label) _ _ p h2 in
      let (r, e4, h4, s4) =
        lift-ok (check_request lib (request_of os lib self g text rid class)) _ _ p h3 in
      let clock : os.unix_time s.readings ≡ time = ok_value _ _ e2 in
      (
        class,
        rw clock e3,
        sym (ok_value _ p h4) ∙ ap (prepared os lib self g text rid class) (checked_request _ r e4),
        ap (λ (t : State). t.db) (s1 ∙ s2 ∙ s3 ∙ s4),
      )

  -- what a dispatch rests on
  pub record Allowed (text rid : String) (label : Option Value) (s : State) (p : Prepared)
      : Type 0 where
    pub signed_public :
        verify_label os g.public_key text rid g.model (os.unix_time s.readings) label ≡ ok public
    pub label_signed : SignedPublic os g.public_key text rid g.model (os.unix_time s.readings) label
    pub no_secret : lib.finds_secret (lib.nfkc text) ≡ false
    pub no_personal : lib.finds_personal (lib.nfkc text) ≡ false
    pub same_text : p.text ≡ text
    pub same_body : p.body ≡ wire_body os text g.model
    pub first_use : receipt_of rid s.db.receipts ≡ none

  decided_by :
      (v : Verdict) (x : Value) (q p : Prepared)
      → (if is_allow v then dispatch q else stopped x) ≡ dispatch p
      → (v ≡ allow) × (q ≡ p)
  decided_by allow x q p h = (refl, cc)
  decided_by Verdict.review x q p h = cc
  decided_by Verdict.block x q p h = cc

  decided :
      (q p : Prepared) (o : Option Value)
      → decide os lib self g q o ≡ dispatch p
      → (o ≡ none) × (q.decision ≡ allow) × (q ≡ p)
  decided q p none h =
      let (v, e) = decided_by q.decision (initial os lib self g q) q p h in (refl, v, e)
  decided q p (some v) h = cc

  cleared_class :
      (text rid : String) (class : DataClass)
      → Cleared lib (request_of os lib self g text rid class) (grant ∷ [])
      → class ≡ public
  unfolding request_of
  cleared_class text rid class c =
      let (gr, found, named) = c.granted in
      one_grant (request_of os lib self g text rid class) gr found named

  -- When `send` reaches the transport, the caller consented, the stop was clear, the label verified
  -- as public (its claim names this request, the digest of this text's body, the model, the endpoint,
  -- the policy and the class public, it has not expired, and the key's signature of it verifies),
  -- neither pattern was found in the
  -- normalised text, the body is the wire form of that text, and the request identifier had no
  -- receipt.
  pub begin_send-Allowed :
      (stop : Sentinel) (text rid : String) (label : Option Value) (consent : Bool) (s : State)
      (p : Prepared)
      → (begin_send os lib self g stop text rid label consent s).0 ≡ ok (dispatch p)
      → (consent ≡ true) × (assert_clear stop ≡ ok tt) × Allowed text rid label s p
  unfolding begin_send pure prepared request_of
  begin_send-Allowed stop text rid label consent s p h =
      let (_, agreed, h1, _) = lift-ok (require consent gateway) _ s (dispatch p) h in
      let (q, made, h2, _) = bind-ok (prepare os lib self g text rid label) _ s (dispatch p) h1 in
      let (class, labelled, same, db) = prepare_ok text rid label s q made in
      let t = (prepare os lib self g text rid label s).1 in
      let (_, clear, h3, _) = lift-ok (assert_clear stop) _ t (dispatch p) h2 in
      let (o, reserved, h4, _) =
        bind-ok (reserve os self rid q.fingerprint (initial os lib self g q)) _ t (dispatch p) h3 in
      let (new, allowed, sent) = decided q p o (ok_value _ (dispatch p) h4) in
      let cleared : Cleared lib (request_of os lib self g text rid class) (grant ∷ []) =
        (evaluate-Cleared lib (request_of os lib self g text rid class) (grant ∷ [])).0
          (ap (λ (x : Prepared). x.decision) (sym same) ∙ allowed) in
      let open_class = cleared_class text rid class cleared in
      let signed_public = labelled ∙ ap (λ (c : DataClass). ok c) open_class in
      (
        require-ok consent gateway agreed,
        clear,
        record {
          signed_public = signed_public;
          label_signed =
              verify_label-Signed os g.public_key text rid g.model (os.unix_time s.readings) label
                signed_public;
          no_secret = cleared.no_secret;
          no_personal = cleared.no_personal;
          same_text = ap (λ (x : Prepared). x.text) (sym sent ∙ same);
          same_body = ap (λ (x : Prepared). x.body) (sym sent ∙ same);
          first_use =
              ap (λ (d : Tables). receipt_of rid d.receipts) (sym db)
              ∙ reserved_new os self rid q.fingerprint (initial os lib self g q) t
                  (reserved ∙ ap (λ (x : Option Value). ok x) new);
        },
      )
