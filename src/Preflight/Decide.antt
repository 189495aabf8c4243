-- ===== src/Preflight/Decide.antt =====
-- When `evaluate` allows a request, and what `guarded_call` lets through.
use aisecure.Prelude.{
  Among, ◌⊎◌, ◌≡◌, ◌↔◌, refl, List, [], ◌∷◌, ◌++◌, Option, none, some, Bool, true, false, any,
  arith, Bool-cases, inl, inr, if◌then◌else◌,
}
use aisecure.Preflight.Granted.{
  FirstCovering, class_Among, grantable_class, low_action, find_grant-First,
}
use aisecure.Preflight.{
  prompt, upload, read, public, internal, Library, Request, Grant, DataClass, Rule, pg003, pg005,
  pg006, allow, same_class, is_review, find_grant, evaluate, grant_rules, action_rules, class_rules,
  verdict, grantable, blocks,
}

module _ (lib : Library) (r : Request) (gs : List Grant) where
  verdict_empty : (rules : List Rule) → verdict lib rules ≡ allow → rules ≡ []
  verdict_empty [] h = refl
  verdict_empty (x ∷ rules) h = elim (Bool-cases (any (blocks lib) (x ∷ rules))) [
    | inl blocked ↦ cc (rw blocked at h)
    | inr unblocked ↦ cc (rw unblocked at h)
  ]

  append_empty : (xs ys : List Rule) → xs ++ ys ≡ [] → (xs ≡ []) × (ys ≡ [])
  append_empty [] ys h = (refl, h)
  append_empty (x ∷ xs) ys h = cc

  class_open : (c : DataClass) → class_rules lib c ≡ [] → grantable lib c ≡ true
  class_open c h = ground arith

  text_clean :
      (b c : Bool)
      → (if b then pg003 ∷ [] else []) ++ (if c then pg006 ∷ [] else []) ≡ []
      → (b ≡ false) × (c ≡ false)
  text_clean b c h = ground arith

  grant_found :
      (c : DataClass) (o : Option Grant)
      → grantable lib c ≡ true
      → grant_rules lib c o ≡ []
      → (g : Grant) × (o ≡ some g) × (any (same_class c) g.data_classes ≡ true)
  grant_found c none listed h = cc
  grant_found c (some g) listed h = (g, refl, ground arith)

  no_review :
      (b : Bool) (rules : List Rule)
      → (if b then pg005 ∷ [] else rules) ≡ []
      → (b ≡ false) × (rules ≡ [])
  no_review true rules h = cc
  no_review false rules h = (refl, h)

  class_silent : (c : DataClass) → grantable lib c ≡ true → class_rules lib c ≡ []
  class_silent c h = ground arith

  -- a request that the policy and the content both clear
  pub record Cleared : Type 0 where
    pub low_impact : (r.action ≡ prompt) ⊎ ((r.action ≡ upload) ⊎ (r.action ≡ read))
    pub granted : (g : Grant) × FirstCovering r g gs × Among r.data_class g.data_classes
    pub open_class : (r.data_class ≡ public) ⊎ (r.data_class ≡ internal)
    pub no_secret : lib.finds_secret (lib.nfkc r.text) ≡ false
    pub no_personal : lib.finds_personal (lib.nfkc r.text) ≡ false

  cleared_by : (evaluate lib r gs).decision ≡ allow → Cleared
  unfolding evaluate
  cleared_by h =
      let (action, rest) = append_empty (action_rules lib r gs) _ (verdict_empty _ h) in
      let (class, text) = append_empty (class_rules lib r.data_class) _ rest in
      let listed = class_open r.data_class class in
      let (low, grant) = no_review (is_review r.action) _ action in
      let (secret, personal) = text_clean _ _ text in
      let (g, found, named) = grant_found r.data_class (find_grant lib r gs) listed grant in
      record {
        low_impact = (low_action r.action).0 low;
        granted = (
          g,
          (find_grant-First lib r g gs).0 found,
          (class_Among r.data_class g.data_classes).0 named,
        );
        open_class = (grantable_class lib r.data_class).0 listed;
        no_secret = secret;
        no_personal = personal;
      }

  allows : Cleared → (evaluate lib r gs).decision ≡ allow
  unfolding evaluate
  allows c =
      let (g, first, among) = c.granted in
      let low = (low_action r.action).1 c.low_impact in
      let found = (find_grant-First lib r g gs).1 first in
      let named = (class_Among r.data_class g.data_classes).1 among in
      let listed = (grantable_class lib r.data_class).1 c.open_class in
      rw low (
        rw found (
          rw named
            (simp (class_silent r.data_class listed, c.no_secret, c.no_personal) (rw listed))))

  -- A request is allowed exactly when its action is prompt, upload or read, the first grant of the
  -- policy with the very same action, destination and tool exists and lists the request's class,
  -- the class is public or internal, and neither pattern is found in the normalised text.
  pub evaluate-Cleared : ((evaluate lib r gs).decision ≡ allow) ↔ Cleared
  evaluate-Cleared = (cleared_by, allows)
