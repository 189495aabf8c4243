-- ===== src/Engine/Correlation.antt =====
-- What a finding of AS-004 rests on.
use aisecure.Prelude.{
  ℕ, ◌+◌, eq_iff, ◌≤◌, ◌≡◌, refl, sym, ap, ◌∙◌, ◌⊎◌, String, List, [], ◌∷◌, Option, none, some,
  Bool, true, false, arith, ◌&&◌, ◌||◌, head?, keep, mem, leb, ltb, length, Bool-cases,
  Option-cases, inl, inr, if◌then◌else◌,
}
use mathlib.Core.Path.{subst}
use aisecure.Platform.{Platform}
use aisecure.Rules.{Conditions, RuleConfig}
use aisecure.Document.{Login, FileAccess}
use aisecure.Engine.{
  Finding, Group, is_both, is_true, is_false, suspicious_login, sensitive_files, later, latest,
  is_eligible, correlation_finding,
}

-- a privileged login that is untrusted and unapproved, or one of these where the thresholds ask for
-- one of them
pub record Suspect (e : Login) (c : RuleConfig) : Type 0 where
  pub privileged : e.privileged ≡ some true
  pub identity :
      ((e.device_trusted ≡ some false) × (e.approved ≡ some false))
      ⊎ ((c.identity_conditions ≡ Conditions.any)
          × ((e.device_trusted ≡ some false) ⊎ (e.approved ≡ some false)))

true_flag : (o : Option Bool) → is_true o ≡ true → o ≡ some true
true_flag none h = cc h
true_flag (some true) h = refl
true_flag (some false) h = cc h

false_flag : (o : Option Bool) → is_false o ≡ true → o ≡ some false
false_flag none h = cc h
false_flag (some true) h = cc h
false_flag (some false) h = refl

one_of : (x : Conditions) → is_both x ≡ false → x ≡ Conditions.any
one_of Conditions.any h = refl
one_of Conditions.both h = cc h

identity_tests :
    (p b u a : Bool)
    → (p && (if b then u && a else u || a)) ≡ true
    → (p ≡ true) × (((u ≡ true) × (a ≡ true)) ⊎ ((b ≡ false) × ((u ≡ true) ⊎ (a ≡ true))))
identity_tests false b u a h = cc h
identity_tests true true true a h = (refl, inl (refl, h))
identity_tests true true false a h = cc h
identity_tests true false true a h = (refl, inr (refl, inl refl))
identity_tests true false false a h = (refl, inr (refl, inr h))

suspicious_login-Suspect : (e : Login) (c : RuleConfig) → suspicious_login e c ≡ true → Suspect e c
unfolding suspicious_login
suspicious_login-Suspect e c h =
    let (privileged, identity) =
      identity_tests (is_true e.privileged) (is_both c.identity_conditions)
        (is_false e.device_trusted) (is_false e.approved) h in
    record {
      privileged = true_flag _ privileged;
      identity = elim identity [
        | inl (u, a) ↦ inl (false_flag _ u, false_flag _ a)
        | inr (one, inl u) ↦ inr (one_of _ one, inl (false_flag _ u))
        | inr (one, inr a) ↦ inr (one_of _ one, inr (false_flag _ a))
      ];
    }

-- an element of a list
abbrev pub Within : {A : Type 0} → A → List A → Type 0
Within a [] = ⊥
Within a (x ∷ xs) = (x ≡ a) ⊎ Within a xs

keep_head :
    {A : Type 0} (p : A → Bool) (x : A) (xs : List A) (a : A)
    → ((Within a xs) → Within a (keep p xs))
    → (x ≡ a) ⊎ Within a xs
    → p a ≡ true
    → Within a (keep p (x ∷ xs))
keep_head p x xs a rest (inl same) e = rw (ap p same ∙ e) (inl same)
keep_head p x xs a rest (inr there) e = elim (Bool-cases (p x)) [
  | inl kept ↦ rw kept (inr (rest there))
  | inr left_out ↦ rw left_out (rest there)
]

Within-keep :
    {A : Type 0} (p : A → Bool) (xs : List A) (a : A)
    → Within a xs
    → p a ≡ true
    → Within a (keep p xs)
Within-keep p [] a h e = h
Within-keep p (x ∷ xs) a h e = keep_head p x xs a (λ k. Within-keep p xs a k e) h e

module _ {A : Type 0} (p : A → Bool) where
  kept_head :
      (b : Bool) (x a : A) (xs kept : List A)
      → p x ≡ b
      → (Within a kept → Within a xs × (p a ≡ true))
      → Within a (if b then x ∷ kept else kept)
      → ((x ≡ a) ⊎ Within a xs) × (p a ≡ true)
  kept_head true x a xs kept e rest (inl same) = (inl same, sym (ap p same) ∙ e)
  kept_head true x a xs kept e rest (inr there) = let (w, t) = rest there in (inr w, t)
  kept_head false x a xs kept e rest h = let (w, t) = rest h in (inr w, t)

  keep-Within : (xs : List A) (a : A) → Within a (keep p xs) → Within a xs × (p a ≡ true)
  keep-Within [] a h = absurd h
  keep-Within (x ∷ xs) a h = kept_head (p x) x a xs (keep p xs) refl (keep-Within xs a) h

module _ (os : Platform) (c : RuleConfig) where
  later_some : (x : Login) (o : Option Login) → later os c x o ≡ none → ⊥
  later_some x none h = cc
  later_some x (some l) h = ground arith

  latest-none : (ls : List Login) (e : Login) → latest os c ls ≡ none → Within e ls → ⊥
  unfolding latest
  latest-none [] e h w = w
  latest-none (x ∷ ls) e h w = later_some x (latest os c ls) h

  chosen :
      (b : Bool) (x l m : Login)
      → ltb x.at m.at ≡ b
      → (if b then some m else some x) ≡ some l
      → ((m ≡ l) ⊎ (x ≡ l)) × (x.at ≤ l.at) × (m.at ≤ l.at)
  chosen true x l m e h =
      let same : m ≡ l = cc h in
      let before : x.at ≤ m.at = ground arith in
      let itself : m.at ≤ m.at = omega arith in
      (
        inl same,
        subst (λ (z : Login). x.at ≤ z.at) same before,
        subst (λ (z : Login). m.at ≤ z.at) same itself,
      )
  chosen false x l m e h =
      let same : x ≡ l = cc h in
      let before : m.at ≤ x.at = ground arith in
      let itself : x.at ≤ x.at = omega arith in
      (
        inr same,
        subst (λ (z : Login). x.at ≤ z.at) same itself,
        subst (λ (z : Login). m.at ≤ z.at) same before,
      )

  -- `l` is in the list, and no login there is later
  abbrev pub IsLatest : Login → List Login → Type 0
  IsLatest l ls = Within l ls × ((e : Login) → Within e ls → e.at ≤ l.at)

  IsLatest-of :
      (x l : Login) (ls : List Login) (o : Option Login)
      → (o ≡ none → (e : Login) → Within e ls → ⊥)
      → ((m : Login) → o ≡ some m → IsLatest m ls)
      → later os c x o ≡ some l
      → IsLatest l (x ∷ ls)
  IsLatest-of x l ls none nobody rest h =
      let same : x ≡ l = cc h in
      (
        inl same,
        λ e w. elim w [
          | inl one ↦ subst (λ (z : Login). z.at ≤ l.at) (sym same ∙ one) (omega arith)
          | inr other ↦ absurd (nobody refl e other)
        ],
      )
  IsLatest-of x l ls (some m) nobody rest h =
      let (who, x_before, m_before) = chosen (ltb x.at m.at) x l m refl h in
      let (in_rest, last) = rest m refl in
      (
        elim who [
          | inl same ↦ inr (subst (λ (z : Login). Within z ls) same in_rest)
          | inr same ↦ inl same
        ],
        λ e w. elim w [
          | inl one ↦ subst (λ (z : Login). z.at ≤ l.at) one x_before
          | inr other ↦ omega (arith, last e other, m_before)
        ],
      )

  latest-IsLatest : (ls : List Login) (l : Login) → latest os c ls ≡ some l → IsLatest l ls
  unfolding latest
  latest-IsLatest [] l h = cc
  latest-IsLatest (x ∷ ls) l h =
      IsLatest-of x l ls (latest os c ls) (λ e. nobody_there e) (λ m e. latest-IsLatest ls m e) h
    where
      nobody_there : latest os c ls ≡ none → (e : Login) → Within e ls → ⊥
      nobody_there h e w = latest-none ls e h w

  -- what the finding says happened
  pub record Correlated (exposed : List String) (ls : List Login) (g : Group os c)
      (best : List FileAccess) : Type 0 where
    pub first : FileAccess
    pub begins : head? best ≡ some first
    pub entry : Login
    pub observed : Within entry ls
    pub same_session : (entry.actor ≡ g.0) × (entry.session ≡ g.1.0)
    pub in_time : (entry.at ≤ first.at) × (first.at ≤ entry.at + c.login_lookback_seconds)
    pub last_eligible :
        (e : Login) → Within e ls → is_eligible os c g.0 g.1.0 first.at e ≡ true → e.at ≤ entry.at
    pub suspicious : suspicious_login entry c ≡ true
    pub conditions : Suspect entry c
    pub gateway : mem entry.gateway_id exposed ≡ true
    pub enough : c.sensitive_file_minimum ≤ length (sensitive_files os c best)

  eligible_parts :
      (actor session : String) (first : ℕ) (e : Login)
      → is_eligible os c actor session first e ≡ true
      → (e.actor ≡ actor)
        × (e.session ≡ session)
        × (e.at ≤ first)
        × (first ≤ e.at + c.login_lookback_seconds)
  unfolding is_eligible
  eligible_parts actor session first e h =
      ground (arith, eq_iff e.actor actor, eq_iff e.session session)

  three_tests :
      (a b : Bool) (n m : ℕ) → (a && b && leb n m) ≡ true → (a ≡ true) × (b ≡ true) × (n ≤ m)
  three_tests a b n m h = ground arith

  correlated :
      (exposed : List String) (ls : List Login) (g : Group os c) (best : List FileAccess)
      (first : FileAccess) (entry : Login)
      → head? best ≡ some first
      → latest os c (keep (is_eligible os c g.0 g.1.0 first.at) ls) ≡ some entry
      → (suspicious_login entry c
          && mem entry.gateway_id exposed
          && leb c.sensitive_file_minimum (length (sensitive_files os c best)))
        ≡ true
      → Correlated exposed ls g best
  correlated exposed ls g best first entry begins chosen_one tests =
      let (kept, last) =
        latest-IsLatest (keep (is_eligible os c g.0 g.1.0 first.at) ls) entry chosen_one in
      let (observed, eligible) = keep-Within (is_eligible os c g.0 g.1.0 first.at) ls entry kept in
      let (actor, session, before, close) = eligible_parts g.0 g.1.0 first.at entry eligible in
      let (suspicious, gateway, enough) = three_tests _ _ _ _ tests in
      record {
        first = first;
        begins = begins;
        entry = entry;
        observed = observed;
        same_session = (actor, session);
        in_time = (before, close);
        last_eligible =
            λ e there ok. last e (Within-keep (is_eligible os c g.0 g.1.0 first.at) ls e there ok);
        suspicious = suspicious;
        conditions = suspicious_login-Suspect entry c suspicious;
        gateway = gateway;
        enough = enough;
      }

  -- A finding of AS-004 is given only where a login of the list has the actor and the session of
  -- the reads and comes before the first of them within the look-back time, no other such login is
  -- later, the login is suspicious (privileged, and untrusted and unapproved, or one of these where the
  -- thresholds do not ask for both), its gateway is among those given as exposed, and the reads hold
  -- at least the least number of sensitive files.
  pub correlation_finding-Correlated :
      (exposed : List String) (ls : List Login) (g : Group os c) (best : List FileAccess) (peak : ℕ)
      (f : Finding) (fs : List Finding)
      → correlation_finding os c exposed ls g best peak ≡ f ∷ fs
      → Correlated exposed ls g best
  unfolding correlation_finding
  correlation_finding-Correlated exposed ls g best peak f fs h = elim (Option-cases (head? best)) [
    | inl no_read ↦ cc (rw (no_read, correlation_finding) at h)
    | inr (first, begins) ↦
        elim (Option-cases (latest os c (keep (is_eligible os c g.0 g.1.0 first.at) ls))) [
          | inl no_login ↦ cc (rw (begins, no_login, correlation_finding) at h)
          | inr (entry, found) ↦
              elim (Bool-cases (
                suspicious_login entry c
                && mem entry.gateway_id exposed
                && leb c.sensitive_file_minimum (length (sensitive_files os c best)))) [
                  | inl tests ↦ correlated exposed ls g best first entry begins found tests
                  | inr failing ↦ cc (rw (begins, found, failing, correlation_finding) at h)
                ]
        ]
  ]
