-- ===== src/Preflight/Granted.antt =====
-- What the Boolean tests of the lookup of a grant in `evaluate` say.
use aisecure.Prelude.{
  Among, ℕ, ◌≡◌, ◌↔◌, ◌⊎◌, refl, sym, ap, ◌∙◌, String, List, [], ◌∷◌, Option, none, some, Bool,
  true, false, ◌&&◌, ◌||◌, ◌==◌, any, arith, eqb, eq_iff, inl, inr, if◌then◌else◌,
}
use aisecure.Preflight.{
  Library, Action, prompt, upload, read, execute, delete, share, send, DataClass, public, internal,
  confidential, restricted, unknown, Request, Grant, number, class_number, same_action, same_class,
  same_tool, same_key, is_review, grantable, find_grant,
}

-- the grant is for the action, the destination and the tool of the request
abbrev pub Covers : Request → Grant → Type 0
Covers r g = (g.action ≡ r.action) × (g.destination ≡ r.destination) × (g.tool ≡ r.tool)

-- g is the first grant of the policy that covers the request
abbrev pub FirstCovering : Request → Grant → List Grant → Type 0
FirstCovering r g [] = ⊥
FirstCovering r g (x ∷ gs) = (Covers r x × (x ≡ g)) ⊎ ((Covers r x → ⊥) × FirstCovering r g gs)

abbrev action_at : ℕ → Action
action_at n =
    if eqb n 0
    then prompt
    else if eqb n 1
    then upload
    else if eqb n 2
    then read
    else if eqb n 3
    then execute
    else if eqb n 4
    then delete
    else if eqb n 5
    then share
    else send

action_number : (a : Action) → action_at (number a) ≡ a
action_number prompt = refl
action_number upload = refl
action_number read = refl
action_number execute = refl
action_number delete = refl
action_number share = refl
action_number send = refl

abbrev class_at : ℕ → DataClass
class_at n =
    if eqb n 0
    then public
    else if eqb n 1
    then internal
    else if eqb n 2
    then confidential
    else if eqb n 3
    then restricted
    else unknown

class_at_number : (c : DataClass) → class_at (class_number c) ≡ c
class_at_number public = refl
class_at_number internal = refl
class_at_number confidential = refl
class_at_number restricted = refl
class_at_number unknown = refl

same_number : (m n : ℕ) → (eqb m n ≡ true) ↔ (m ≡ n)
same_number m n = (λ h. ground arith, λ h. ground arith)

same_action_iff : (a b : Action) → (same_action a b ≡ true) ↔ (a ≡ b)
same_action_iff a b = (
  λ h. sym (action_number a) ∙ ap action_at ((same_number _ _).0 h) ∙ action_number b,
  λ h. (same_number _ _).1 (ap number h),
)

same_class_iff : (a b : DataClass) → (same_class a b ≡ true) ↔ (a ≡ b)
same_class_iff a b = (
  λ h. sym (class_at_number a) ∙ ap class_at ((same_number _ _).0 h) ∙ class_at_number b,
  λ h. (same_number _ _).1 (ap class_number h),
)

same_tool_iff : (a b : Option String) → (same_tool a b ≡ true) ↔ (a ≡ b)
same_tool_iff none none = (λ h. refl, λ h. refl)
same_tool_iff (some a) (some b) = (λ h. ground (arith, eq_iff a b), λ h. ground (arith, eq_iff a b))
same_tool_iff none (some b) = (λ h. cc, λ h. cc)
same_tool_iff (some a) none = (λ h. cc, λ h. cc)

three_tests : (a b c : Bool) → ((a && b && c) ≡ true) ↔ ((a ≡ true) × (b ≡ true) × (c ≡ true))
three_tests a b c = ground arith

-- the class is one of those that a list names
pub class_Among :
    (c : DataClass) (cs : List DataClass) → (any (same_class c) cs ≡ true) ↔ Among c cs
class_Among c [] = (λ h. cc, λ h. absurd h)
class_Among c (x ∷ xs) = step (same_class c x) (class_Among c xs) refl
  where
    step :
        (b : Bool)
        → (any (same_class c) xs ≡ true) ↔ Among c xs
        → same_class c x ≡ b
        → ((b || any (same_class c) xs) ≡ true) ↔ Among c (x ∷ xs)
    step true rest e = (λ h. inl ((same_class_iff c x).0 e), λ h. refl)
    step false rest e = (
      λ h. inr (rest.0 h),
      λ h. elim h [ inl same ↦ cc (e, (same_class_iff c x).1 same) | inr m ↦ rest.1 m ],
    )

pub grantable_class :
    (lib : Library) (c : DataClass) → (grantable lib c ≡ true) ↔ ((c ≡ public) ⊎ (c ≡ internal))
grantable_class lib public = (λ h. inl refl, λ h. refl)
grantable_class lib internal = (λ h. inr refl, λ h. refl)
grantable_class lib confidential = (λ h. cc, λ h. elim h [ inl e ↦ cc e | inr e ↦ cc e ])
grantable_class lib restricted = (λ h. cc, λ h. elim h [ inl e ↦ cc e | inr e ↦ cc e ])
grantable_class lib unknown = (λ h. cc, λ h. elim h [ inl e ↦ cc e | inr e ↦ cc e ])

pub low_action : (a : Action) → (is_review a ≡ false) ↔ ((a ≡ prompt) ⊎ ((a ≡ upload) ⊎ (a ≡ read)))
low_action prompt = (λ h. inl refl, λ h. refl)
low_action upload = (λ h. inr (inl refl), λ h. refl)
low_action read = (λ h. inr (inr refl), λ h. refl)
low_action execute =
    (λ h. cc, λ h. elim h [ inl e ↦ cc e | inr (inl e) ↦ cc e | inr (inr e) ↦ cc e ])
low_action delete =
    (λ h. cc, λ h. elim h [ inl e ↦ cc e | inr (inl e) ↦ cc e | inr (inr e) ↦ cc e ])
low_action share = (λ h. cc, λ h. elim h [ inl e ↦ cc e | inr (inl e) ↦ cc e | inr (inr e) ↦ cc e ])
low_action send = (λ h. cc, λ h. elim h [ inl e ↦ cc e | inr (inl e) ↦ cc e | inr (inr e) ↦ cc e ])

module _ (lib : Library) (r : Request) where
  key_Covers : (g : Grant) → (same_key lib g r.action r.destination r.tool ≡ true) ↔ Covers r g
  key_Covers g =
      let tests =
        three_tests (same_action g.action r.action) (g.destination == r.destination)
          (same_tool g.tool r.tool) in
      (
        λ h.
            let (a, b, c) = tests.0 h in
            ((same_action_iff _ _).0 a, (eq_iff _ _).0 b, (same_tool_iff _ _).0 c),
        λ h.
            let (a, b, c) = h in
            tests.1 ((same_action_iff _ _).1 a, (eq_iff _ _).1 b, (same_tool_iff _ _).1 c),
      )

  -- the lookup finds the first grant that covers the request
  pub find_grant-First :
      (g : Grant) (gs : List Grant) → (find_grant lib r gs ≡ some g) ↔ FirstCovering r g gs
  unfolding find_grant
  find_grant-First g [] = (λ h. cc, λ h. absurd h)
  find_grant-First g (x ∷ gs) =
      step (same_key lib x r.action r.destination r.tool) (find_grant-First g gs) refl
    where
      step :
          (b : Bool)
          → (find_grant lib r gs ≡ some g) ↔ FirstCovering r g gs
          → same_key lib x r.action r.destination r.tool ≡ b
          → ((if b then some x else find_grant lib r gs) ≡ some g) ↔ FirstCovering r g (x ∷ gs)
      step true rest e = (
        λ h. inl ((key_Covers x).0 e, ground arith),
        λ h. elim h [
          | inl (_, same) ↦ ap some same
          | inr (other, _) ↦ absurd (other ((key_Covers x).0 e))
        ],
      )
      step false rest e = (
        λ h. inr (λ covers. cc (e, (key_Covers x).1 covers), rest.0 h),
        λ h. elim h [
          | inl (covers, _) ↦ cc (e, (key_Covers x).1 covers)
          | inr (_, later) ↦ rest.1 later
        ],
      )
