-- ===== src/Posture/Unaffected.antt =====
-- When `assess` reports that no supplied range matches a device.
use aisecure.Prelude.{
  Among, ℕ, ◌+◌, ◌≤◌, ◌≡◌, ◌↔◌, refl, List, [], ◌∷◌, ◌++◌, Bool, true, false, ◌||◌, ltb, any, keep,
  map, All, arith, if◌then◌else◌,
}
use aisecure.Posture.Versions.{Unicode, numeric_version}
use aisecure.Posture.Ranges.{
  SameProduct, ReachKnown, Outside, All-keep, keep_some, not_empty, reach_known, placed-Outside,
  same_product-SameProduct,
}
use aisecure.Posture.Assess.{
  Advisory, same_product, Device, Reason, no_match, Match, Sources, reach_unknown, Placed, inside,
  outside, incomparable, if_reason, is_empty, standing_of, is_incomparable, is_inside, candidates,
  place, match_of, matches_of, reasons_of, assess_device, no_vendor_data, stale_inventory,
  stale_advisories, unknown_reach, unsupported_version,
}

standing_none :
    (ms : List Match) (rs : List Reason) → (standing_of ms rs ≡ no_match) ↔ ((ms ≡ []) × (rs ≡ []))
standing_none [] [] = (λ h. (refl, refl), λ h. refl)
standing_none [] (r ∷ rs) = (λ h. cc, λ h. cc)
standing_none (m ∷ ms) rs = (λ h. cc, λ h. cc)

reason_none :
    (b : Bool) (r : Reason) (rest : List Reason)
    → ((if_reason b r ++ rest) ≡ []) ↔ ((b ≡ false) × (rest ≡ []))
reason_none true r rest = (λ h. cc, λ h. cc)
reason_none false r rest = (λ h. (refl, h), λ h. h.1)

last_none : (b : Bool) (r : Reason) → (if_reason b r ≡ []) ↔ (b ≡ false)
last_none true r = (λ h. cc, λ h. cc)
last_none false r = (λ h. refl, λ h. refl)

module _ {A B : Type 0} (f : A → B) (p : A → Bool) where
  kept_case :
      {P : Type 0} (b : Bool) (x : A) (k : List A)
      → (map f k ≡ []) ↔ P
      → (map f (if b then x ∷ k else k) ≡ []) ↔ ((b ≡ false) × P)
  kept_case true x k e = (λ h. cc, λ h. absurd (cc (h.0)))
  kept_case false x k e = (λ h. (refl, e.0 h), λ h. e.1 h.1)

  any_case : {P : Type 0} (b c : Bool) → (c ≡ false) ↔ P → ((b || c) ≡ false) ↔ ((b ≡ false) × P)
  any_case true c e = (λ h. absurd (cc h), λ h. absurd (cc (h.0)))
  any_case false c e = (λ h. (refl, e.0 h), λ h. e.1 h.1)

  kept_none : (xs : List A) → (map f (keep p xs) ≡ []) ↔ All (λ x. p x ≡ false) xs
  kept_none [] = (λ h. tt, λ h. refl)
  kept_none (x ∷ xs) = kept_case (p x) x (keep p xs) (kept_none xs)

  any_none : (xs : List A) → (any p xs ≡ false) ↔ All (λ x. p x ≡ false) xs
  any_none [] = (λ h. tt, λ h. refl)
  any_none (x ∷ xs) = any_case (p x) (any p xs) (any_none xs)

not_both : (p : Placed) → ((is_inside p ≡ false) × (is_incomparable p ≡ false)) ↔ (p ≡ outside)
not_both inside = (λ h. absurd (cc (h.0)), λ h. cc)
not_both outside = (λ h. refl, λ h. (refl, refl))
not_both incomparable = (λ h. absurd (cc (h.1)), λ h. cc)

All-both :
    {A : Type 0} (g : A → Placed) (xs : List A)
    → (All (λ x. is_inside (g x) ≡ false) xs × All (λ x. is_incomparable (g x) ≡ false) xs)
      ↔ All (λ x. g x ≡ outside) xs
All-both g [] = (λ h. tt, λ h. (tt, tt))
All-both g (x ∷ xs) =
    let rest = All-both g xs in
    (
      λ h. ((not_both (g x)).0 (h.0.0, h.1.0), rest.0 (h.0.1, h.1.1)),
      λ h. let (i, j) = (not_both (g x)).1 h.0 in let (is, js) = rest.1 h.1 in ((i, is), (j, js)),
    )

module _ (unicode : Unicode) (now : ℕ) (s : Sources) (d : Device) where
  -- the tests of the code that leave no match and no reason
  record Silent : Type 0 where
    pub listed : is_empty (candidates unicode now s d) ≡ false
    pub fresh_inventory : now ≤ s.observed + 86400
    pub fresh_advisories : now ≤ s.advisories_at + 172800
    pub fresh_kev : now ≤ s.kev_at + 172800
    pub reach_known : reach_unknown d ≡ false
    pub excluded : All (λ v. place unicode now s d v ≡ outside) (candidates unicode now s d)

  fresh : (t age : ℕ) → (ltb (t + age) now ≡ false) ↔ (now ≤ t + age)
  fresh t age = (λ h. ground arith, λ h. ground arith)

  neither : (b c : Bool) → ((b || c) ≡ false) ↔ ((b ≡ false) × (c ≡ false))
  neither b c = ground arith

  reasons_none :
      (reasons_of unicode now s d ≡ [])
      → (is_empty (candidates unicode now s d) ≡ false)
        × (ltb (s.observed + 86400) now ≡ false)
        × (ltb (s.advisories_at + 172800) now || ltb (s.kev_at + 172800) now ≡ false)
        × (reach_unknown d ≡ false)
        × (any (λ v. is_incomparable (place unicode now s d v)) (candidates unicode now s d)
            ≡ false)
  unfolding reasons_of
  reasons_none h =
      let (a, h1) = (reason_none _ no_vendor_data _).0 h in
      let (b, h2) = (reason_none _ stale_inventory _).0 h1 in
      let (c, h3) = (reason_none _ stale_advisories _).0 h2 in
      let (e, h4) = (reason_none _ unknown_reach _).0 h3 in
      (a, b, c, e, (last_none _ unsupported_version).0 h4)

  no_reasons : Silent → reasons_of unicode now s d ≡ []
  unfolding reasons_of
  no_reasons u =
      let comparable =
        ((All-both (place unicode now s d) (candidates unicode now s d)).1 u.excluded).1 in
      (reason_none _ no_vendor_data _).1 (
        u.listed,
        (reason_none _ stale_inventory _).1 (
          (fresh s.observed 86400).1 u.fresh_inventory,
          (reason_none _ stale_advisories _).1 (
            (neither _ _).1 (
              (fresh s.advisories_at 172800).1 u.fresh_advisories,
              (fresh s.kev_at 172800).1 u.fresh_kev,
            ),
            (reason_none _ unknown_reach _).1 (
              u.reach_known,
              (last_none _ unsupported_version).1 (
                  (any_none (λ v. v) (λ v. is_incomparable (place unicode now s d v))
                      (candidates unicode now s d)).1
                    comparable),
            ),
          ),
        ),
      )

  silent : ((assess_device unicode now s d).standing ≡ no_match) ↔ Silent
  unfolding assess_device matches_of
  silent = (
    λ h.
        let (ms, rs) =
          (standing_none (matches_of unicode now s d) (reasons_of unicode now s d)).0 h in
        let (listed, inventory, sources, reach, comparable) = reasons_none rs in
        let (advisories, kev) = (neither _ _).0 sources in
        let outside_all =
          (kept_none (match_of unicode now s) (λ v. is_inside (place unicode now s d v))
              (candidates unicode now s d)).0
            ms in
        let comparable_all =
          (any_none (λ v. v) (λ v. is_incomparable (place unicode now s d v))
              (candidates unicode now s d)).0
            comparable in
        record {
          listed = listed;
          fresh_inventory = (fresh s.observed 86400).0 inventory;
          fresh_advisories = (fresh s.advisories_at 172800).0 advisories;
          fresh_kev = (fresh s.kev_at 172800).0 kev;
          reach_known = reach;
          excluded =
              (All-both (place unicode now s d) (candidates unicode now s d)).0
                (outside_all, comparable_all);
        },
    λ u.
        let outside_all =
          ((All-both (place unicode now s d) (candidates unicode now s d)).1 u.excluded).0 in
        let ms =
          (kept_none (match_of unicode now s) (λ v. is_inside (place unicode now s d v))
              (candidates unicode now s d)).1
            outside_all in
        (standing_none (matches_of unicode now s d) (reasons_of unicode now s d)).1
          (ms, no_reasons u),
  )

  same : (v : Advisory) → (same_product unicode now s d v ≡ true) ↔ SameProduct unicode d v
  same v = same_product-SameProduct unicode d now s v

  excludes :
      (v : Advisory)
      → (place unicode now s d v ≡ outside)
        ↔ Outside
            (numeric_version unicode d.version)
            (numeric_version unicode v.introduced)
            (numeric_version unicode v.fixed)
  excludes v = placed-Outside _ _ _

  -- an advisory for the product exists, all sources are fresh, the exposure is known, and the range
  -- of every advisory for the product excludes the version
  pub record Unaffected : Type 0 where
    pub listed : (v : Advisory) × Among v s.advisories × SameProduct unicode d v
    pub fresh_inventory : now ≤ s.observed + 86400
    pub fresh_advisories : now ≤ s.advisories_at + 172800
    pub fresh_kev : now ≤ s.kev_at + 172800
    pub reach : ReachKnown d
    pub excluded :
        (v : Advisory)
        → Among v s.advisories
        → SameProduct unicode d v
        → Outside
            (numeric_version unicode d.version)
            (numeric_version unicode v.introduced)
            (numeric_version unicode v.fixed)

  stated : Silent → Unaffected
  stated x =
      let (v, among, p) =
        (keep_some (same_product unicode now s d) s.advisories).0 ((not_empty _).0 x.listed) in
      record {
        listed = (v, among, (same v).0 p);
        fresh_inventory = x.fresh_inventory;
        fresh_advisories = x.fresh_advisories;
        fresh_kev = x.fresh_kev;
        reach = (reach_known d).0 x.reach_known;
        excluded = λ w m q. (excludes w).0 (
            (All-keep (same_product unicode now s d) s.advisories).0 x.excluded w m ((same w).1 q));
      }

  tested : Unaffected → Silent
  tested x =
      let (v, among, p) = x.listed in
      record {
        listed =
            (not_empty _).1
              ((keep_some (same_product unicode now s d) s.advisories).1 (v, among, (same v).1 p));
        fresh_inventory = x.fresh_inventory;
        fresh_advisories = x.fresh_advisories;
        fresh_kev = x.fresh_kev;
        reach_known = (reach_known d).1 x.reach;
        excluded =
            (All-keep (same_product unicode now s d) s.advisories).1
              (λ w m q. (excludes w).1 (x.excluded w m ((same w).0 q)));
      }

  -- `assess` reports that no supplied range matches a device exactly when some advisory has its
  -- vendor and product, whatever the case of the letters, the inventory is at most 24 hours old and
  -- the advisories and the catalogue at most 48 hours, its exposure and both its paths are known,
  -- and for every advisory with its vendor and product all three versions can be read, the
  -- introduced version is before the fixed one, and the device's version is before the introduced
  -- one or not before the fixed one.
  pub assess_device-Unaffected : ((assess_device unicode now s d).standing ≡ no_match) ↔ Unaffected
  assess_device-Unaffected = (λ h. stated (silent.0 h), λ u. silent.1 (tested u))
