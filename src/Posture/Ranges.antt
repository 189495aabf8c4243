-- ===== src/Posture/Ranges.antt =====
-- Versions in order, the advisories for a device's product, and the ranges that exclude its version.
use aisecure.Prelude.{
  Among, All, ℕ, ◌<◌, ◌≡◌, ◌≢◌, ◌↔◌, ◌⊎◌, refl, sym, List, [], ◌∷◌, Option, none, some, Bool, true,
  false, ◌&&◌, ◌||◌, not, ltb, eqb, keep, arith, eq_iff, Bool-cases, inl, inr, if◌then◌else◌,
}
use mathlib.Core.Path.{subst}
use aisecure.Posture.Versions.{Unicode, version_before}
use aisecure.Posture.Assess.{
  Advisory, Device, Sources, unset, reach_unknown, placed, inside, outside, incomparable, is_empty,
  same_product,
}

-- one version is before another: at the first place where they differ its number is smaller
abbrev pub Before : List ℕ → List ℕ → Type 0
Before [] [] = ⊥
Before [] (y ∷ ys) = Unit
Before (x ∷ xs) [] = ⊥
Before (x ∷ xs) (y ∷ ys) = (x < y) ⊎ ((x ≡ y) × Before xs ys)

next_place :
    (x y : ℕ) (b : Bool) {P : Type 0}
    → (b ≡ true) ↔ P
    → ((ltb x y || (eqb x y && b)) ≡ true) ↔ ((x < y) ⊎ ((x ≡ y) × P))
next_place x y true e = (
  λ h. elim (Bool-cases (ltb x y)) [
    | inl less ↦ inl (ground arith)
    | inr other ↦ inr (ground arith, e.0 refl)
  ],
  λ h. elim h [ inl less ↦ ground arith | inr (same, p) ↦ ground arith ],
)
next_place x y false e =
    (λ h. inl (ground arith), λ h. elim h [ inl less ↦ ground arith | inr (same, p) ↦ cc (e.1 p) ])

version_before-Before : (xs ys : List ℕ) → (version_before xs ys ≡ true) ↔ Before xs ys
version_before-Before [] [] = (λ h. cc h, λ h. absurd h)
version_before-Before [] (y ∷ ys) = (λ h. tt, λ h. refl)
version_before-Before (x ∷ xs) [] = (λ h. cc h, λ h. absurd h)
version_before-Before (x ∷ xs) (y ∷ ys) =
    next_place x y (version_before xs ys) (version_before-Before xs ys)

not-Before : (xs ys : List ℕ) → (version_before xs ys ≡ false) ↔ (Before xs ys → ⊥)
not-Before xs ys = (
  λ h before. cc (h, (version_before-Before xs ys).1 before),
  λ h. elim (Bool-cases (version_before xs ys)) [
    | inl before ↦ absurd (h ((version_before-Before xs ys).0 before))
    | inr other ↦ other
  ],
)

-- all three versions can be read, the range is not empty, and the version lies before the version
-- where it begins or not before the version where it ends
pub record Outside (version low high : Option (List ℕ)) : Type 0 where
  pub at : List ℕ
  pub first : List ℕ
  pub last : List ℕ
  pub version_read : version ≡ some at
  pub low_read : low ≡ some first
  pub high_read : high ≡ some last
  pub proper : Before first last
  pub excluded : Before at first ⊎ (Before at last → ⊥)

outside_tests :
    (a b c : Bool)
    → ((if not a then incomparable else if not b && c then inside else outside) ≡ outside)
      ↔ ((a ≡ true) × ((b ≡ true) ⊎ (c ≡ false)))
outside_tests false b c = (λ h. cc h, λ h. cc (h.0))
outside_tests true true c = (λ h. (refl, inl refl), λ h. refl)
outside_tests true false false = (λ h. (refl, inr refl), λ h. refl)
outside_tests true false true = (λ h. cc h, λ h. elim (h.1) [ inl e ↦ cc e | inr e ↦ cc e ])

pub placed-Outside :
    (version low high : Option (List ℕ))
    → (placed version low high ≡ outside) ↔ Outside version low high
unfolding placed
placed-Outside (some v) (some l) (some h) =
    let tests = outside_tests (version_before l h) (version_before v l) (version_before v h) in
    (
      λ e.
          let (proper, side) = tests.0 e in
          record {
            at = v;
            first = l;
            last = h;
            version_read = refl;
            low_read = refl;
            high_read = refl;
            proper = (version_before-Before l h).0 proper;
            excluded = elim side [
              | inl before ↦ inl ((version_before-Before v l).0 before)
              | inr after ↦ inr ((not-Before v h).0 after)
            ];
          },
      λ o. tests.1 (back o),
    )
  where
    back :
        Outside (some v) (some l) (some h)
        → (version_before l h ≡ true) × ((version_before v l ≡ true) ⊎ (version_before v h ≡ false))
    back o =
        let proper = (version_before-Before o.first o.last).1 o.proper in
        (
          cc (proper, o.low_read, o.high_read),
          elim (o.excluded) [
            | inl before ↦
                let e = (version_before-Before o.at o.first).1 before in
                inl (cc (e, o.version_read, o.low_read))
            | inr after ↦
                let e = (not-Before o.at o.last).1 after in
                inr (cc (e, o.version_read, o.high_read))
          ],
        )
placed-Outside none low high = (λ e. cc e, λ o. cc (o.version_read))
placed-Outside (some v) none high = (λ e. cc e, λ o. cc (o.low_read))
placed-Outside (some v) (some l) none = (λ e. cc e, λ o. cc (o.high_read))

-- the exposure of a device and both its paths are known
pub record ReachKnown (d : Device) : Type 0 where
  pub exposed : Bool
  pub privileged : Bool
  pub sensitive : Bool
  pub exposed_known : d.internet_exposed ≡ some exposed
  pub privileged_known : d.privileged_path ≡ some privileged
  pub sensitive_known : d.sensitive_path ≡ some sensitive

module _ {A : Type 0} (p : A → Bool) where
  -- the items that a list keeps
  kept_step :
      {P : A → Type 0} (b : Bool) (x : A) (xs k : List A)
      → p x ≡ b
      → All P k ↔ ((y : A) → Among y xs → p y ≡ true → P y)
      → All P (if b then x ∷ k else k) ↔ ((y : A) → Among y (x ∷ xs) → p y ≡ true → P y)
  kept_step {P = P} true x xs k e rest = (
    λ h y m q. elim m [ inl same ↦ subst P (sym same) h.0 | inr later ↦ rest.0 h.1 y later q ],
    λ h. (h x (inl refl) e, rest.1 (λ y m q. h y (inr m) q)),
  )
  kept_step {P = P} false x xs k e rest = (
    λ h y m q. elim m [ inl same ↦ cc (e, q, same) | inr later ↦ rest.0 h y later q ],
    λ h. rest.1 (λ y m q. h y (inr m) q),
  )

  pub All-keep :
      {P : A → Type 0} (xs : List A) → All P (keep p xs) ↔ ((y : A) → Among y xs → p y ≡ true → P y)
  All-keep [] = (λ h y m q. absurd m, λ h. tt)
  All-keep (x ∷ xs) = kept_step (p x) x xs (keep p xs) refl (All-keep xs)

  some_kept :
      (b : Bool) (x : A) (xs k : List A)
      → p x ≡ b
      → (k ≢ []) ↔ ((y : A) × Among y xs × (p y ≡ true))
      → ((if b then x ∷ k else k) ≢ []) ↔ ((y : A) × Among y (x ∷ xs) × (p y ≡ true))
  some_kept true x xs k e rest = (λ h. (x, inl refl, e), λ h c. cc c)
  some_kept false x xs k e rest = (
    λ h. let (y, m, q) = rest.0 h in (y, inr m, q),
    λ h.
        let (y, m, q) = h in
        elim m [ inl same ↦ absurd (cc (e, q, same)) | inr later ↦ rest.1 (y, later, q) ],
  )

  pub keep_some : (xs : List A) → (keep p xs ≢ []) ↔ ((y : A) × Among y xs × (p y ≡ true))
  keep_some [] = (λ h. absurd (h refl), λ h. absurd (h.1))
  keep_some (x ∷ xs) = some_kept (p x) x xs (keep p xs) refl (keep_some xs)

pub not_empty : (vs : List Advisory) → (is_empty vs ≡ false) ↔ (vs ≢ [])
not_empty [] = (λ h. cc h, λ h. absurd (h refl))
not_empty (v ∷ vs) = (λ h c. cc c, λ h. refl)

known : (o : Option Bool) → (unset o ≡ false) → (b : Bool) × (o ≡ some b)
known none h = cc h
known (some b) h = (b, refl)

neither_of_three :
    (a b c : Bool) → ((a || b || c) ≡ false) → (a ≡ false) × (b ≡ false) × (c ≡ false)
neither_of_three a b c h = ground arith

pub reach_known : (d : Device) → (reach_unknown d ≡ false) ↔ ReachKnown d
reach_known d = (
  λ h.
      let (a, b, c) = neither_of_three _ _ _ h in
      let (exposed, x) = known d.internet_exposed a in
      let (privileged, y) = known d.privileged_path b in
      let (sensitive, z) = known d.sensitive_path c in
      record {
        exposed = exposed;
        privileged = privileged;
        sensitive = sensitive;
        exposed_known = x;
        privileged_known = y;
        sensitive_known = z;
      },
  λ k. rw (k.exposed_known, k.privileged_known, k.sensitive_known) refl,
)

module _ (unicode : Unicode) (d : Device) where
  -- an advisory names the product of the device, whatever the case of the letters
  abbrev pub SameProduct : Advisory → Type 0
  SameProduct v =
      (unicode.casefold v.vendor ≡ unicode.casefold d.vendor)
      × (unicode.casefold v.product ≡ unicode.casefold d.product)

  both_tests : (a b : Bool) → ((a && b) ≡ true) ↔ ((a ≡ true) × (b ≡ true))
  both_tests a b = ground arith

  pub same_product-SameProduct :
      (now : ℕ) (s : Sources) (v : Advisory)
      → (same_product unicode now s d v ≡ true) ↔ SameProduct v
  same_product-SameProduct now s v = (
    λ h. let (a, b) = (both_tests _ _).0 h in ((eq_iff _ _).0 a, (eq_iff _ _).0 b),
    λ h. (both_tests _ _).1 ((eq_iff _ _).1 h.0, (eq_iff _ _).1 h.1),
  )
