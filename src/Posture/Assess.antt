-- ===== src/Posture/Assess.antt =====
-- `assess` of aisecure/posture.py. The texts of the reasons and the next steps are for the screen:
-- a reason is a constructor, and the next steps are left out.
use aisecure.Prelude.{
  ℕ, ◌+◌, String, List, [], ◌∷◌, ◌++◌, Option, none, some, Bool, true, false, ◌&&◌, ◌||◌, not, ◌==◌,
  ltb, any, mem, keep, map, if◌then◌else◌,
}
use aisecure.Result.{Result, ok, err, gateway, require, refuse, ◌>>=◌, ◌>>◌}
use aisecure.Json.{Value, Fields, null, bool, str, obj, get, at_key}
use aisecure.Text.{length_within, strip_prefix}
use aisecure.Platform.{Platform}
use aisecure.Posture.{dict_of, list_of, opaque_text}
use aisecure.Posture.Versions.{Unicode, numeric_version, is_cve, version_before, iso_time}

pub record Advisory : Type 0 where
  pub vendor : String
  pub product : String
  pub cve : String
  pub introduced : String
  pub fixed : String
  pub source : String

pub record Device : Type 0 where
  pub id : String
  pub vendor : String
  pub product : String
  pub version : String
  pub internet_exposed : Option Bool
  pub privileged_path : Option Bool
  pub sensitive_path : Option Bool

pub data Reason : Type 0 where
  no_vendor_data stale_inventory stale_advisories unknown_reach unsupported_version : Reason

pub data Standing : Type 0 where
  affected unknown no_match : Standing

pub record Match : Type 0 where
  pub cve : String
  pub known_exploited : Bool
  pub fixed : String
  pub source : String

pub record Assessment : Type 0 where
  pub asset_id : String
  pub urgent : Bool
  pub standing : Standing
  pub matches : List Match
  pub reasons : List Reason

-- the three sources after their checks: when each was observed, and what it lists
pub record Sources : Type 0 where
  pub observed : ℕ
  pub advisories_at : ℕ
  pub kev_at : ℕ
  pub exploited : List String
  pub advisories : List Advisory

unfoldable pub short_text : ℕ → ℕ → Value → Result String
short_text low high (str s) = if length_within low high s then ok s else err gateway
short_text low high _ = err gateway

unfoldable pub flag_of : Value → Result (Option Bool)
flag_of null = ok none
flag_of (bool b) = ok (some b)
flag_of _ = err gateway

abbrev is_https : String → Bool
is_https s = elim (strip_prefix "https://" s) [ none ↦ false | some rest ↦ true ]

-- one entry of the KEV catalogue
unfoldable pub kev_entry : Unicode → Value → Result String
kev_entry unicode (obj fs) = text (get "cveID" fs)
  where
    text : Option Value → Result String
    text (some (str s)) = if is_cve unicode s then ok s else err gateway
    text _ = err gateway
kev_entry unicode _ = err gateway

unfoldable pub kev_entries : Unicode → List Value → Result (List String)
kev_entries unicode [] = ok []
kev_entries unicode (v ∷ vs) = do
  cve ← kev_entry unicode v
  rest ← kev_entries unicode vs
  ok (cve ∷ rest)

unfoldable pub advisory_of : Unicode → Value → Result Advisory
advisory_of unicode v = do
  fs ← dict_of ("vendor" ∷ "product" ∷ "cve" ∷ "introduced" ∷ "fixed" ∷ "source" ∷ []) v
  vendor ← short_text 1 200 (at_key "vendor" fs)
  product ← short_text 1 200 (at_key "product" fs)
  cve ← short_text 1 200 (at_key "cve" fs)
  introduced ← short_text 1 200 (at_key "introduced" fs)
  fixed ← short_text 1 200 (at_key "fixed" fs)
  source ← short_text 1 200 (at_key "source" fs)
  require (is_cve unicode cve && is_https source) gateway
  ok (record {
    vendor = vendor;
    product = product;
    cve = cve;
    introduced = introduced;
    fixed = fixed;
    source = source;
  })

unfoldable pub advisories_of : Unicode → List Value → Result (List Advisory)
advisories_of unicode [] = ok []
advisories_of unicode (v ∷ vs) = do
  a ← advisory_of unicode v
  rest ← advisories_of unicode vs
  ok (a ∷ rest)

unfoldable pub device_of : List String → Value → Result Device
device_of seen v = do
  fs ←
      dict_of
        ("id" ∷ "vendor" ∷ "product" ∷ "version" ∷ "internet_exposed" ∷ "privileged_path"
          ∷ "sensitive_path" ∷ [])
        v
  id ← opaque_text (at_key "id" fs)
  refuse (mem id seen) gateway
  vendor ← short_text 0 200 (at_key "vendor" fs)
  product ← short_text 0 200 (at_key "product" fs)
  version ← short_text 0 200 (at_key "version" fs)
  exposed ← flag_of (at_key "internet_exposed" fs)
  privileged ← flag_of (at_key "privileged_path" fs)
  sensitive ← flag_of (at_key "sensitive_path" fs)
  ok (record {
    id = id;
    vendor = vendor;
    product = product;
    version = version;
    internet_exposed = exposed;
    privileged_path = privileged;
    sensitive_path = sensitive;
  })

abbrev pub unset : Option Bool → Bool
unset none = true
unset (some b) = false

abbrev is_True : Option Bool → Bool
is_True none = false
is_True (some b) = b

abbrev pub reach_unknown : Device → Bool
reach_unknown d = unset d.internet_exposed || unset d.privileged_path || unset d.sensitive_path

-- where a version stands in the range of an advisory
pub data Placed : Type 0 where
  inside outside incomparable : Placed

unfoldable pub placed : Option (List ℕ) → Option (List ℕ) → Option (List ℕ) → Placed
placed (some version) (some low) (some high) =
    if not (version_before low high)
    then incomparable
    else if not (version_before version low) && version_before version high
    then inside
    else outside
placed _ _ _ = incomparable

abbrev pub if_reason : Bool → Reason → List Reason
if_reason b r = if b then r ∷ [] else []

abbrev pub is_empty : List Advisory → Bool
is_empty [] = true
is_empty (x ∷ xs) = false

abbrev pub no_matches : List Match → Bool
no_matches [] = true
no_matches (x ∷ xs) = false

abbrev pub standing_of : List Match → List Reason → Standing
standing_of (m ∷ ms) reasons = affected
standing_of [] (r ∷ rs) = unknown
standing_of [] [] = no_match

abbrev pub is_incomparable : Placed → Bool
is_incomparable incomparable = true
is_incomparable _ = false

abbrev pub is_inside : Placed → Bool
is_inside inside = true
is_inside _ = false

module _ (unicode : Unicode) (now : ℕ) (s : Sources) where
  abbrev pub same_product : Device → Advisory → Bool
  same_product d v =
      unicode.casefold v.vendor == unicode.casefold d.vendor
      && unicode.casefold v.product == unicode.casefold d.product

  -- `by_product[…]`
  abbrev pub candidates : Device → List Advisory
  candidates d = keep (same_product d) s.advisories

  abbrev pub place : Device → Advisory → Placed
  place d v =
      placed (numeric_version unicode d.version) (numeric_version unicode v.introduced)
        (numeric_version unicode v.fixed)

  abbrev pub match_of : Advisory → Match
  match_of v = record {
    cve = v.cve;
    known_exploited = mem v.cve s.exploited;
    fixed = v.fixed;
    source = v.source;
  }

  unfoldable pub matches_of : Device → List Match
  matches_of d = map match_of (keep (λ v. is_inside (place d v)) (candidates d))

  -- the reasons, each once, in the order of their first appearance; each of them sets `unknown`
  unfoldable pub reasons_of : Device → List Reason
  reasons_of d =
      if_reason (is_empty (candidates d)) no_vendor_data
      ++ (if_reason (ltb (s.observed + 86400) now) stale_inventory
          ++ (if_reason (ltb (s.advisories_at + 172800) now || ltb (s.kev_at + 172800) now)
                stale_advisories
              ++ (if_reason (reach_unknown d) unknown_reach
                  ++ if_reason (any (λ v. is_incomparable (place d v)) (candidates d))
                      unsupported_version)))

  unfoldable pub urgent_of : Device → List Match → Bool
  urgent_of d matches =
      not (no_matches matches)
      && is_True d.internet_exposed
      && (any (λ m. m.known_exploited) matches || is_True d.sensitive_path)

  -- the body of the loop over the assets, after its checks
  unfoldable pub assess_device : Device → Assessment
  assess_device d = record {
    asset_id = d.id;
    urgent = urgent_of d (matches_of d);
    standing = standing_of (matches_of d) (reasons_of d);
    matches = matches_of d;
    reasons = reasons_of d;
  }

  unfoldable pub assess_devices : List String → List Value → Result (List Assessment)
  assess_devices seen [] = ok []
  assess_devices seen (v ∷ vs) = do
    d ← device_of seen v
    rest ← assess_devices (d.id ∷ seen) vs
    ok (assess_device d ∷ rest)

module _ (os : Platform) (unicode : Unicode) where
  abbrev member_list : ℕ → Option Value → Result (List Value)
  member_list high none = err gateway
  member_list high (some v) = list_of high v

  abbrev member_time : Option Value → Result ℕ
  member_time none = err gateway
  member_time (some v) = iso_time os v

  abbrev fields_of : Value → Result Fields
  fields_of (obj fs) = ok fs
  fields_of _ = err gateway

  -- `assess`
  unfoldable pub assess : ℕ → Value → Value → Value → Result (List Assessment)
  assess now inventory advisories kev = do
    inv ← dict_of ("observed_at" ∷ "assets" ∷ []) inventory
    assets ← list_of 2000 (at_key "assets" inv)
    adv ← dict_of ("observed_at" ∷ "advisories" ∷ []) advisories
    raw_advisories ← list_of 10000 (at_key "advisories" adv)
    catalogue ← fields_of kev
    raw_kev ← member_list 100000 (get "vulnerabilities" catalogue)
    observed ← iso_time os (at_key "observed_at" inv)
    advisories_at ← iso_time os (at_key "observed_at" adv)
    kev_at ← member_time (get "dateReleased" catalogue)
    refuse (ltb (now + 60) observed || ltb (now + 60) advisories_at || ltb (now + 60) kev_at)
        gateway
    exploited ← kev_entries unicode raw_kev
    listed ← advisories_of unicode raw_advisories
    assess_devices unicode now
        (record {
          observed = observed;
          advisories_at = advisories_at;
          kev_at = kev_at;
          exploited = exploited;
          advisories = listed;
        })
        [] assets
