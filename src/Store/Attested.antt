-- ===== src/Store/Attested.antt =====
-- What `_validate_approval_assertions` accepts.
use aisecure.Prelude.{
  ◌≡◌, ◌≢◌, ◌⊎◌, refl, sym, ◌∙◌, String, List, [], ◌∷◌, Option, none, some, Bool, true, false, mem,
  eq_iff, arith, not, ◌||◌, if◌then◌else◌, inl, inr,
}
use mathlib.Core.Path.{subst₂}
use aisecure.Json.{Value, Fields, null, bool, int, float, str, arr, obj, get}
use aisecure.Result.{Result, ok, err, validation, Result-cases}
use aisecure.Text.{strip}
use aisecure.Store.Approvals.{
  Seen, holds, expected_of, claim_fits, role_known, check_role, check_claim, validate_assertions,
}

first_test :
    (a b : Bool) (r : Result Seen) (next : Seen)
    → (if not a || b then err validation else r) ≡ ok next
    → (a ≡ true) × (b ≡ false) × (r ≡ ok next)
first_test a b r next h = ground arith

second_test :
    (a b c : Bool) (r : Result Seen) (next : Seen)
    → (if a || not b || not c then err validation else r) ≡ ok next
    → (a ≡ false) × (b ≡ true) × (c ≡ true) × (r ≡ ok next)
second_test a b c r next h = ground arith

third_test :
    (a b : Bool) (x next : Seen)
    → (if not a || not b then err validation else ok x) ≡ ok next
    → (a ≡ true) × (b ≡ true) × (next ≡ x)
third_test a b x next h = ground arith

module _ (pid sid action : String) where
  -- the claim approves this action of this proposal, in the role and by the approver
  pub record Attests (role operator : String) (v : Value) : Type 0 where
    pub fs : Fields
    pub is_object : v ≡ obj fs
    pub role_of : get "role" fs ≡ some (str role)
    pub approver : get "approver" fs ≡ some (str operator)
    pub proposal : get "proposal_id" fs ≡ some (str pid)
    pub snapshot : get "snapshot_id" fs ≡ some (str sid)
    pub action_of : get "action" fs ≡ some (str action)
    pub decision : get "decision" fs ≡ some (str "approve")

  pub holds_text : (text : String) (o : Option Value) → holds text o ≡ true → o ≡ some (str text)
  holds_text text (some (str s)) h = ground (arith, eq_iff s text)
  holds_text text (some null) h = cc
  holds_text text (some (bool b)) h = cc
  holds_text text (some (int z)) h = cc
  holds_text text (some (float x)) h = cc
  holds_text text (some (arr xs)) h = cc
  holds_text text (some (obj xs)) h = cc
  holds_text text none h = cc

  module _ (primary secondary : String) where
    -- a round of the loop that did not raise
    record Round (v : Value) (seen next : Seen) : Type 0 where
      pub role : String
      pub operator : String
      pub attests : Attests role operator v
      pub expected : expected_of primary secondary role ≡ some operator
      pub new_role : mem role seen.roles ≡ false
      pub new_operator : mem operator seen.operators ≡ false
      pub after : next ≡ record { roles = role ∷ seen.roles; operators = operator ∷ seen.operators }

    fits_tests :
        (role operator : String) (fs : Fields) (seen next : Seen)
        → claim_fits pid sid action primary secondary role operator fs seen ≡ ok next
        → (holds operator (get "approver" fs) ≡ true)
          × (mem role seen.roles ≡ false)
          × (mem operator seen.operators ≡ false)
          × (holds pid (get "proposal_id" fs) ≡ true)
          × (holds sid (get "snapshot_id" fs) ≡ true)
          × (holds action (get "action" fs) ≡ true)
          × (holds "approve" (get "decision" fs) ≡ true)
          × (next ≡ record { roles = role ∷ seen.roles; operators = operator ∷ seen.operators })
    unfolding claim_fits
    fits_tests role operator fs seen next h =
        let (approver, role_new, h1) = first_test _ _ _ next h in
        let (operator_new, proposal, snapshot, h2) = second_test _ _ _ _ next h1 in
        let (act, decision, h3) = third_test _ _ _ next h2 in
        (approver, role_new, operator_new, proposal, snapshot, act, decision, h3)

    fits-Round :
        (role operator : String) (fs : Fields) (seen next : Seen)
        → get "role" fs ≡ some (str role)
        → expected_of primary secondary role ≡ some operator
        → claim_fits pid sid action primary secondary role operator fs seen ≡ ok next
        → Round (obj fs) seen next
    fits-Round role operator fs seen next found expected h =
        let (approver, role_new, operator_new, proposal, snapshot, act, decision, after) =
          fits_tests role operator fs seen next h in
        record {
          role = role;
          operator = operator;
          attests = record {
            fs = fs;
            is_object = refl;
            role_of = found;
            approver = holds_text operator _ approver;
            proposal = holds_text pid _ proposal;
            snapshot = holds_text sid _ snapshot;
            action_of = holds_text action _ act;
            decision = holds_text "approve" _ decision;
          };
          expected = expected;
          new_role = role_new;
          new_operator = operator_new;
          after = after;
        }

    known-Round :
        (role : String) (o : Option String) (fs : Fields) (seen next : Seen)
        → get "role" fs ≡ some (str role)
        → expected_of primary secondary role ≡ o
        → role_known pid sid action primary secondary role o fs seen ≡ ok next
        → Round (obj fs) seen next
    unfolding role_known
    known-Round role none fs seen next found expected h = cc
    known-Round role (some operator) fs seen next found expected h =
        fits-Round role operator fs seen next found expected h

    role-Round :
        (o : Option Value) (fs : Fields) (seen next : Seen)
        → get "role" fs ≡ o
        → check_role pid sid action primary secondary o fs seen ≡ ok next
        → Round (obj fs) seen next
    unfolding check_role
    role-Round (some (str role)) fs seen next found h =
        known-Round role (expected_of primary secondary role) fs seen next found refl h
    role-Round (some null) fs seen next found h = cc
    role-Round (some (bool b)) fs seen next found h = cc
    role-Round (some (int z)) fs seen next found h = cc
    role-Round (some (float x)) fs seen next found h = cc
    role-Round (some (arr xs)) fs seen next found h = cc
    role-Round (some (obj xs)) fs seen next found h = cc
    role-Round none fs seen next found h = cc

    check_claim-Round :
        (v : Value) (seen next : Seen)
        → check_claim pid sid action primary secondary v seen ≡ ok next
        → Round v seen next
    unfolding check_claim
    check_claim-Round (obj fs) seen next h = role-Round (get "role" fs) fs seen next refl h
    check_claim-Round null seen next h = cc
    check_claim-Round (bool b) seen next h = cc
    check_claim-Round (int z) seen next h = cc
    check_claim-Round (float x) seen next h = cc
    check_claim-Round (str s) seen next h = cc
    check_claim-Round (arr xs) seen next h = cc

    role_cases :
        (role operator : String)
        → expected_of primary secondary role ≡ some operator
        → ((role ≡ "primary") × (operator ≡ strip primary))
          ⊎ ((role ≡ "secondary") × (operator ≡ strip secondary))
    role_cases role operator h = ground (arith, eq_iff role "primary", eq_iff role "secondary")

    attested : {r q m n : String} {v : Value} → r ≡ q → m ≡ n → Attests r m v → Attests q n v
    attested {v = v} e f x = subst₂ (λ a b. Attests a b v) e f x

    abbrev no_one : Seen
    no_one = record { roles = []; operators = [] }

    -- both approvers are attested, by one claim each
    abbrev pub BothAttested : Value → Value → Type 0
    BothAttested a b =
        (Attests "primary" (strip primary) a × Attests "secondary" (strip secondary) b)
        ⊎ (Attests "secondary" (strip secondary) a × Attests "primary" (strip primary) b)

    two_claims :
        (a b : Value)
        → validate_assertions pid sid action primary secondary (some (a ∷ b ∷ [])) ≡ ok tt
        → (seen next : Seen) × Round a no_one seen × Round b seen next
    unfolding validate_assertions
    two_claims a b h = elim (Result-cases (check_claim pid sid action primary secondary a no_one)) [
      | inl (seen, e) ↦ elim (Result-cases (check_claim pid sid action primary secondary b seen)) [
        | inl (next, e1) ↦
            (seen, next, check_claim-Round a no_one seen e, check_claim-Round b seen next e1)
        | inr (c, e1) ↦ cc (rw (e, e1) at h)
      ]
      | inr (c, e) ↦ cc (rw e at h)
    ]

    other_text : (x y : String) → mem y (x ∷ []) ≡ false → x ≢ y
    other_text x y h e = ground (arith, eq_iff x y)

    paired :
        (r q m n : String) (a b : Value)
        → Attests r m a
        → Attests q n b
        → ((r ≡ "primary") × (m ≡ strip primary)) ⊎ ((r ≡ "secondary") × (m ≡ strip secondary))
        → ((q ≡ "primary") × (n ≡ strip primary)) ⊎ ((q ≡ "secondary") × (n ≡ strip secondary))
        → r ≢ q
        → m ≢ n
        → BothAttested a b × (strip primary ≢ strip secondary)
    paired r q m n a b x y (inl (e, f)) (inr (g, k)) roles people =
        (inl (attested e f x, attested g k y), λ same. people (f ∙ same ∙ sym k))
    paired r q m n a b x y (inr (e, f)) (inl (g, k)) roles people =
        (inr (attested e f x, attested g k y), λ same. people (f ∙ sym same ∙ sym k))
    paired r q m n a b x y (inl (e, f)) (inl (g, k)) roles people = absurd (roles (e ∙ sym g))
    paired r q m n a b x y (inr (e, f)) (inr (g, k)) roles people = absurd (roles (e ∙ sym g))

    -- two rounds name the two approvers in their two roles
    two_rounds :
        (a b : Value) (seen next : Seen)
        → Round a no_one seen
        → Round b seen next
        → BothAttested a b × (strip primary ≢ strip secondary)
    two_rounds a b seen next x y =
        let others : mem y.role (x.role ∷ []) ≡ false = cc (y.new_role, x.after) in
        let people : mem y.operator (x.operator ∷ []) ≡ false = cc (y.new_operator, x.after) in
        paired x.role y.role x.operator y.operator a b x.attests y.attests
          (role_cases x.role x.operator x.expected) (role_cases y.role y.operator y.expected)
          (other_text x.role y.role others) (other_text x.operator y.operator people)

    -- When `_validate_approval_assertions` accepts a list, it holds exactly two claims: one that
    -- attests the primary approver and one that attests the secondary, in either order, each by
    -- the stripped label of the approver and with the decision to approve this action of this
    -- proposal for this snapshot; and the two stripped labels are different.
    pub validate_assertions-Attests :
        (claims : List Value)
        → validate_assertions pid sid action primary secondary (some claims) ≡ ok tt
        → (a b : Value) × (claims ≡ a ∷ b ∷ [])
          × BothAttested a b
          × (strip primary ≢ strip secondary)
    unfolding validate_assertions
    validate_assertions-Attests (a ∷ b ∷ []) h =
        let (seen, next, x, y) = two_claims a b h in
        let (both, different) = two_rounds a b seen next x y in (a, b, refl, both, different)
    validate_assertions-Attests [] h = cc
    validate_assertions-Attests (a ∷ []) h = cc
    validate_assertions-Attests (a ∷ b ∷ c ∷ more) h = cc
