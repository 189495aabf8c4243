-- ===== src/Schema/Fits.antt =====
-- What a snapshot that `normalize` returns satisfies, and what the validators contribute to it.
use aisecure.Prelude.{
  ℕ, suc, ◌+◌, ◌*◌, ◌≤◌, ◌≡◌, refl, sym, ap, ◌∙◌, String, List, [], ◌∷◌, map, Option, none, some,
  Bool, true, false, arith, ltb, leb, length, mem, All, Distinct, All-sort_by, Bool-cases, inl, inr,
  ◌&&◌, ◌==◌, eq_iff, if◌then◌else◌,
}
use mathlib.Core.Path.{subst}
use native.Mathlib.Nat.{mul-le-mul_right}
use aisecure.Json.{
  Value, get, at_key, null, bool, int, float, str, arr, obj, pos, negsuc, finite, values,
}
use aisecure.Result.{ok_value, ok, err, refuse, >>=-ok, validation}
use aisecure.Document.{
  Document, Asset, Vulnerability, Event, login, file_access, Source, SourceMode,
}
use aisecure.Rules.{one}
use aisecure.Schema.{
  source_label, source_sha256, row_count, source_connector, identifier, object_keys, nullable_bool,
  number, source_before, source_of, sources_of, provenance, seconds,
}
use aisecure.Schema.Normalize.{five_minutes, cvss_of, vulnerability_of, event_id, bounded_list}

abbrev pub CvssFits : Option Vulnerability → Type 0
CvssFits none = Unit
CvssFits (some v) = (k : ℕ) → v.cvss ≡ some k → k ≤ 10 * one

-- an asset of a snapshot of the time
abbrev pub AssetFits : ℕ → Asset → Type 0
AssetFits as_of a = (a.observed_at ≤ as_of + 300) × CvssFits a.vulnerability

-- an event of a snapshot of the time, on the registered assets
abbrev pub EventFits : ℕ → List String → Event → Type 0
EventFits as_of assets (login e) = (e.at ≤ as_of + 300) × (mem e.gateway_id assets ≡ true)
EventFits as_of assets (file_access e) =
    (e.at ≤ as_of + 300)
    × (mem e.asset_id assets ≡ true)
    × ((n : ℕ) → e.bytes_read ≡ some n → n ≤ 1000000000000)

abbrev pub asset_ids : List Asset → List String
asset_ids = map (λ a. a.id)

pub record WellFormed (mode : SourceMode) (max_events max_assets : ℕ) (verified : Bool)
    (d : Document) : Type 0 where
  pub mode_given : d.source_mode ≡ mode
  pub asset_count : (1 ≤ length d.assets) × (length d.assets ≤ max_assets)
  pub event_count : length d.events ≤ max_events
  pub assets_fit : All (AssetFits d.as_of) d.assets
  pub assets_distinct : Distinct (asset_ids d.assets)
  pub events_fit : All (EventFits d.as_of (asset_ids d.assets)) d.events
  pub events_distinct : Distinct (map event_id d.events)
  pub origin : All (λ s. s.verified ≡ verified) d.provenance

pub number-within : (high : ℕ) (v : Value) (k : ℕ) → number high v ≡ ok k → k ≤ high * one
unfolding number
number-within high (int (pos n)) k e = ground (arith, mul-le-mul_right {m = n} {n = high} one)
number-within high (int (negsuc n)) k e = ground arith
number-within high (float (finite (pos m))) k e = ground arith
number-within high _ k e = cc

pub ok_some : {A : Type 0} (a b : A) → ok (some a) ≡ ok (some b) → a ≡ b
ok_some a b h = cc

pub cvss_of-within : (v : Value) (k : ℕ) → cvss_of v ≡ ok (some k) → k ≤ 10 * one
unfolding cvss_of
cvss_of-within null k e = cc
cvss_of-within v k e =
    let (n, h, same) = >>=-ok (number 10 v) _ (some k) e in
    subst (λ (m : ℕ). m ≤ 10 * one) (ok_some n k same) (number-within 10 v n h)

pub vulnerability-CvssFits :
    (v : Value) (o : Option Vulnerability) → vulnerability_of v ≡ ok o → CvssFits o
unfolding vulnerability_of
vulnerability-CvssFits null o e = subst CvssFits (ok_value none o e) tt
vulnerability-CvssFits v o e =
    let (fs, _, e1) =
      >>=-ok (object_keys ("reference" ∷ "cvss" ∷ "known_exploited" ∷ []) [] v) _ o e in
    let (_, _, e2) = >>=-ok (identifier (at_key "reference" fs)) _ o e1 in
    let (cvss, h, e3) = >>=-ok (cvss_of (at_key "cvss" fs)) _ o e2 in
    let (_, _, e4) = >>=-ok (nullable_bool (at_key "known_exploited" fs)) _ o e3 in
    subst CvssFits (ok_value _ o e4)
      (λ k same. cvss_of-within (at_key "cvss" fs) k (h ∙ ap (λ (c : Option ℕ). ok c) same))

pub in_time : (as_of t : ℕ) → ltb (as_of + five_minutes) t ≡ false → seconds t ≤ seconds as_of + 300
in_time as_of t h = let late : t ≤ as_of + five_minutes = ground arith in omega arith

pub le_step : (m n : ℕ) → m ≤ n → suc m ≤ suc n
le_step m n h = omega arith

-- a new key keeps the keys of a list apart from those already seen
pub unseen :
    (j k : String) (seen rest : List String)
    → mem j seen ≡ false
    → (mem k (j ∷ seen) ≡ true → mem k rest ≡ false)
    → mem k seen ≡ true
    → mem k (j ∷ rest) ≡ false
unseen j k seen rest new later h = elim (Bool-cases (j == k)) [
  | inl same ↦
      let other : mem j seen ≡ true =
        subst (λ z. mem z seen ≡ true) {x = k} (sym ((eq_iff j k).0 same)) h in
      cc (new, other)
  | inr differs ↦ rw differs (later (rw (differs, h) refl))
]

pub source_of-verified :
    (verified : Bool) (v : Value) (s : Source) → source_of verified v ≡ ok s → s.verified ≡ verified
unfolding source_of
source_of-verified verified v s e =
    let (fs, _, e1) =
      >>=-ok
        (object_keys ("label" ∷ "sha256" ∷ "rows_read" ∷ "rows_imported" ∷ []) ("connector" ∷ []) v)
        _ s e in
    let (_, _, e2) = >>=-ok (source_label (at_key "label" fs)) _ s e1 in
    let (_, _, e3) = >>=-ok (source_sha256 (at_key "sha256" fs)) _ s e2 in
    let (_, _, e4) = >>=-ok (row_count (at_key "rows_read" fs)) _ s e3 in
    let (_, _, e5) = >>=-ok (row_count (at_key "rows_imported" fs)) _ s e4 in
    let (_, _, e6) = >>=-ok (source_connector (get "connector" fs)) _ s e5 in
    subst (λ (x : Source). x.verified ≡ verified) (ok_value _ s e6) refl

abbrev pub AllVerified : Bool → List Source → Type 0
AllVerified verified = All (λ s. s.verified ≡ verified)

pub sources_of-verified :
    (verified : Bool) (vs : List Value) (out : List Source)
    → sources_of verified vs ≡ ok out
    → AllVerified verified out
unfolding sources_of
sources_of-verified verified [] out e = subst (AllVerified verified) (ok_value [] out e) tt
sources_of-verified verified (v ∷ vs) out e =
    let (x, h, e1) = >>=-ok (source_of verified v) _ out e in
    let (rest, more, e2) = >>=-ok (sources_of verified vs) _ out e1 in
    subst (AllVerified verified) (ok_value (x ∷ rest) out e2)
      (source_of-verified verified v x h, sources_of-verified verified vs rest more)

pub provenance-verified :
    (verified : Bool) (o : Option Value) (out : List Source)
    → provenance verified o ≡ ok out
    → AllVerified verified out
unfolding provenance
provenance-verified verified none out e = subst (AllVerified verified) (ok_value [] out e) tt
provenance-verified verified (some null) out e = subst (AllVerified verified) (ok_value [] out e) tt
provenance-verified verified (some (arr vs)) out e =
    let (_, _, e1) = >>=-ok (refuse (ltb 64 (length (values vs))) validation) _ out e in
    let (rest, more, e2) = >>=-ok (sources_of verified (values vs)) _ out e1 in
    subst (AllVerified verified) (ok_value _ out e2) (
      All-sort_by source_before (λ s. s.verified ≡ verified) rest
        (sources_of-verified verified (values vs) rest more))
provenance-verified verified (some (bool b)) out e = cc
provenance-verified verified (some (int z)) out e = cc
provenance-verified verified (some (float x)) out e = cc
provenance-verified verified (some (str s)) out e = cc
provenance-verified verified (some (obj fs)) out e = cc

pub given_bounds :
    (low high : ℕ) (xs vs : List Value)
    → (if leb low (length xs) && leb (length xs) high then ok xs else err validation) ≡ ok vs
    → (low ≤ length vs) × (length vs ≤ high)
given_bounds low high xs vs e =
    let inside : leb low (length xs) && leb (length xs) high ≡ true = ground arith in
    subst (λ (ys : List Value). (low ≤ length ys) × (length ys ≤ high))
      (ok_value xs vs (rw inside at e)) (ground arith)

pub bounded_list-bounds :
    (low high : ℕ) (v : Value) (vs : List Value)
    → bounded_list low high v ≡ ok vs
    → (low ≤ length vs) × (length vs ≤ high)
unfolding bounded_list
bounded_list-bounds low high (arr xs) vs e = given_bounds low high (values xs) vs e
bounded_list-bounds low high null vs e = cc
bounded_list-bounds low high (bool b) vs e = cc
bounded_list-bounds low high (int z) vs e = cc
bounded_list-bounds low high (float x) vs e = cc
bounded_list-bounds low high (str s) vs e = cc
bounded_list-bounds low high (obj fs) vs e = cc
