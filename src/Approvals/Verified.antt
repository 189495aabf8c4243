-- ===== src/Approvals/Verified.antt =====
-- What `verify_pair` guarantees of two claims, and what the store makes of it.
use aisecure.Prelude.{
  ℕ, ◌≡◌, ◌≢◌, refl, sym, ◌∙◌, String, List, [], ◌∷◌, Option, some, Bool, true, false, ◌&&◌, ◌||◌,
  not, ◌==◌, mem, arith, eq_iff, text_eq, Bool-cases, inl, inr,
}
use mathlib.Core.Path.{subst}
use aisecure.Json.{Value, Fields, str, obj, get}
use aisecure.Result.{ok_value, ok, err, validation, refuse, require, >>=-ok, refuse_ok}
use aisecure.Text.{strip}
use aisecure.Platform.{Platform, Bytes}
use aisecure.Store.Approvals.{Seen, check_claim, validate_assertions, expected_of}
use aisecure.Store.Attested.{Attests}
use aisecure.Approvals.{text_at, load_public_keys, verify_approval, verify_pair}
use aisecure.Approvals.Claims.{Approved, verify_approval-Approved}

module _ (os : Platform) (pid sid : String) where
  -- the store accepts a claim that attests an approver who is expected in the role
  check_claim-ok :
      (action primary secondary role operator : String) (claim : Fields) (seen : Seen)
      → Attests pid sid action role operator (obj claim)
      → expected_of primary secondary role ≡ some operator
      → mem role seen.roles ≡ false
      → mem operator seen.operators ≡ false
      → check_claim pid sid action primary secondary (obj claim) seen
        ≡ ok (record { roles = role ∷ seen.roles; operators = operator ∷ seen.operators })
  unfolding check_claim
  check_claim-ok action primary secondary role operator claim seen x expected new_role
        new_operator =
      let same : x.fs ≡ claim = cc (x.is_object) in
      let role_of : get "role" claim ≡ some (str role) = cc (same, x.role_of) in
      let approver : get "approver" claim ≡ some (str operator) = cc (same, x.approver) in
      let proposal : get "proposal_id" claim ≡ some (str pid) = cc (same, x.proposal) in
      let snapshot : get "snapshot_id" claim ≡ some (str sid) = cc (same, x.snapshot) in
      let act : get "action" claim ≡ some (str action) = cc (same, x.action_of) in
      let decision : get "decision" claim ≡ some (str "approve") = cc (same, x.decision) in
      rw
        (
          role_of,
          expected,
          approver,
          proposal,
          snapshot,
          act,
          decision,
          new_role,
          new_operator,
          (eq_iff operator operator).1 refl,
          (eq_iff pid pid).1 refl,
          (eq_iff sid sid).1 refl,
          (eq_iff action action).1 refl,
        )
        refl

  pub record Pair (keys : List (String × Bytes)) (now soon : ℕ) (primary secondary : Fields)
      : Type 0 where
    pub first : Approved os pid sid keys "primary" now primary
    pub second : Approved os pid sid keys "secondary" soon secondary
    pub two_people : text_at "approver" primary ≢ text_at "approver" secondary
    pub one_action : text_at "action" primary ≡ text_at "action" secondary

  differ : (a b : String) → a == b ≡ false → a ≢ b
  differ a b h e = ground (arith, eq_iff a b)

  agree : (a b : String) → not (a == b) ≡ false → a ≡ b
  agree a b h = ground (arith, eq_iff a b)

  -- When `verify_pair` returns two claims, the registry of public keys was accepted, the first claim
  -- is a primary approver's and the second a secondary's, and for each of them: it has the decision
  -- to approve its action of this proposal for this snapshot, its approver has a key in the registry,
  -- a signature of the whole claim verifies under this key, its `issued_at` is a time between 5
  -- minutes before and 2 minutes after the check, its `expires_at` a time later than the check and
  -- at most 15 minutes after `issued_at`. The two approvers differ and the two actions agree.
  pub verify_pair-Pair :
      (now soon : ℕ) (primary_file secondary_file keys_file : Option Value)
      (primary secondary : Fields)
      → verify_pair os pid sid now soon primary_file secondary_file keys_file
        ≡ ok (primary, secondary)
      → (keys : List (String × Bytes)) × (load_public_keys os keys_file ≡ ok keys)
        × Pair keys now soon primary secondary
  unfolding verify_pair
  verify_pair-Pair now soon primary_file secondary_file keys_file primary secondary e =
      let (keys, loaded, e1) = >>=-ok (load_public_keys os keys_file) _ (primary, secondary) e in
      let (p, first, e2) =
        >>=-ok (verify_approval os pid sid keys "primary" now primary_file) _ (primary, secondary)
          e1 in
      let (s, second, e3) =
        >>=-ok (verify_approval os pid sid keys "secondary" soon secondary_file) _
          (primary, secondary) e2 in
      let (u, people, e4) =
        >>=-ok (refuse (text_at "approver" p == text_at "approver" s) validation) _
          (primary, secondary) e3 in
      let (w, actions, e5) =
        >>=-ok (refuse (not (text_at "action" p == text_at "action" s)) validation) _
          (primary, secondary) e4 in
      let both = ok_value (p, s) (primary, secondary) e5 in
      (
        keys,
        loaded,
        subst (λ (q : Fields × Fields). Pair keys now soon q.0 q.1) {x = (p, s)} both
            (record {
              first = verify_approval-Approved os pid sid keys "primary" now primary_file p first;
              second =
                  verify_approval-Approved os pid sid keys "secondary" soon secondary_file s second;
              two_people = differ _ _ (refuse_ok _ _ u people);
              one_action = agree _ _ (refuse_ok _ _ w actions);
            }),
      )

  new_person : (a b : String) → a ≢ b → (a == b || false) ≡ false
  new_person a b h = ground (arith, eq_iff a b)

  -- a claim of an approver whose label the store has stripped to another one
  check_claim-refused :
      (action primary secondary role operator expected : String) (claim : Fields) (seen : Seen)
      → Attests pid sid action role operator (obj claim)
      → expected_of primary secondary role ≡ some expected
      → operator == expected ≡ false
      → check_claim pid sid action primary secondary (obj claim) seen ≡ err validation
  unfolding check_claim
  check_claim-refused action primary secondary role operator expected claim seen x label other =
      let same : x.fs ≡ claim = cc (x.is_object) in
      let role_of : get "role" claim ≡ some (str role) = cc (same, x.role_of) in
      let approver : get "approver" claim ≡ some (str operator) = cc (same, x.approver) in
      rw (role_of, label, approver, other) refl

  same_label : (a b : String) → a == b ≡ true → some b ≡ some a
  same_label a b h = ground (arith, eq_iff a b)

  both_labels :
      {keys : List (String × Bytes)} {now soon : ℕ} {p s : Fields}
      → Pair keys now soon p s
      → (b : Bool) → text_at "approver" p == strip (text_at "approver" p) ≡ true
      → text_at "approver" s == strip (text_at "approver" s) ≡ b
      → validate_assertions pid sid
          (text_at "action" p)
          (text_at "approver" p)
          (text_at "approver" s)
          (some (obj p ∷ obj s ∷ []))
        ≡ require b validation
  unfolding validate_assertions
  both_labels {p = p} {s = s} pair b stripped h =
      let action = text_at "action" p in
      let a = text_at "approver" p in
      let c = text_at "approver" s in
      let second =
        subst (λ (act : String). Attests pid sid act "secondary" c (obj s)) {x = text_at "action" s}
          (sym pair.one_action) pair.second.attests in
      let seen : Seen = record { roles = "primary" ∷ []; operators = a ∷ [] } in
      let e =
        check_claim-ok action a c "primary" a p (record { roles = []; operators = [] })
          pair.first.attests (same_label a (strip a) stripped) refl refl in
      elim (Bool-cases b) [
        | inl fits ↦
            let f =
              check_claim-ok action a c "secondary" c s seen second
                (same_label c (strip c) (h ∙ fits)) refl (new_person a c pair.two_people) in
            rw (e, f, fits) refl
        | inr refused ↦
            let f =
              check_claim-refused action a c "secondary" c (strip c) s seen second refl
                (h ∙ refused) in
            rw (e, f, refused) refl
      ]

  first_label :
      {keys : List (String × Bytes)} {now soon : ℕ} {p s : Fields}
      → Pair keys now soon p s
      → (b : Bool) → text_at "approver" p == strip (text_at "approver" p) ≡ b
      → validate_assertions pid sid
          (text_at "action" p)
          (text_at "approver" p)
          (text_at "approver" s)
          (some (obj p ∷ obj s ∷ []))
        ≡ require (b && text_at "approver" s == strip (text_at "approver" s)) validation
  unfolding validate_assertions
  first_label pair true h = both_labels pair _ h refl
  first_label {p = p} {s = s} pair false h =
      let a = text_at "approver" p in
      let e =
        check_claim-refused (text_at "action" p) a (text_at "approver" s) "primary" a (strip a) p
          (record { roles = []; operators = [] }) pair.first.attests refl h in
      rw e refl

  -- The two claims that `verify_pair` returns are accepted by the store's
  -- `_validate_approval_assertions`, for the same proposal and snapshot, the action of the claims and
  -- the approvers that they name, exactly when neither approver's label begins or ends with white
  -- space; otherwise the store raises ValidationError.
  pub verify_pair-validate_assertions :
      (now soon : ℕ) (primary_file secondary_file keys_file : Option Value)
      (primary secondary : Fields)
      → verify_pair os pid sid now soon primary_file secondary_file keys_file
        ≡ ok (primary, secondary)
      → validate_assertions pid sid
          (text_at "action" primary)
          (text_at "approver" primary)
          (text_at "approver" secondary)
          (some (obj primary ∷ obj secondary ∷ []))
        ≡ require
            (text_at "approver" primary == strip (text_at "approver" primary)
              && text_at "approver" secondary == strip (text_at "approver" secondary))
            validation
  verify_pair-validate_assertions now soon primary_file secondary_file keys_file primary secondary
        e =
      let (keys, loaded, pair) =
        verify_pair-Pair now soon primary_file secondary_file keys_file primary secondary e in
      first_label pair _ refl
