-- ===== src/Engine.antt =====
-- aisecure/engine.py: the detection rules over a normalised snapshot. Titles and sentences are
-- for the screen: a sentence, in its two languages, is a constructor of `Reason`.
mod Window
pub mod Correlation
pub use Window.{Scan, start}
unfoldable pub use Window.{scan}
use aisecure.Prelude.{
  ℕ, ◌+◌, ◌-◌, ◌*◌, ◌/◌, ◌≡◌, String, List, [], ◌∷◌, ◌++◌, map, Option, none, some, Bool, true,
  false, ◌&&◌, ◌||◌, not, ◌==◌, ltb, leb, eqb, any, keep, find, head?, last?, length, mem, sort_by,
  lookup, put, pair_eq, text_eq, if◌then◌else◌,
}
use mathlib.Core.Option
use Prim.Native.String.{◌++◌ as text_append}
use aisecure.Json.{arr, str, items}
use aisecure.Text.{take_text, text_before}
use aisecure.Platform.{Platform}
use aisecure.Rules.{RuleConfig, Conditions, both, digest}
use aisecure.Document.{
  Document, Asset, Vulnerability, PatchState, pending, Login, FileAccess, Event, login, file_access,
}

pub data Priority : Type 0 where
  p1 p2 p3 : Priority

pub data Kind : Type 0 where
  exposure coverage identity bulk correlation : Kind

pub data Reason : Type 0 where
  -- AS-001
  patch_not_applied no_reference exposed_to_internet known_exploited path_registered : Reason
  below_cvss_threshold : ℕ → Reason
  -- AS-005: the hours of `stale_asset_hours`
  unconfirmed_or_stale : ℕ → Reason
  -- AS-002
  both_conditions either_condition verify_request : Reason
  -- AS-003: the window and the peak; the labelled files; what a read log cannot prove
  reads_in_window : ℕ → ℕ → Reason
  labelled : ℕ → Reason
  log_proves_no_leak : Reason
  -- AS-004: the minutes of `login_lookback_seconds`
  related : Reason
  same_session_within : ℕ → Reason
  exploitation_unconfirmed : Reason

pub record Finding : Type 0 where
  pub id : String
  pub rule : String
  pub config_digest : String
  pub priority : Priority
  pub reasons : List Reason
  pub evidence_ids : List String
  pub kind : Kind
  pub actor : Option String
  pub asset_id : Option String
  pub gateway_id : Option String
  pub at : Option ℕ
  pub distinct_files : ℕ
  pub sensitive_files : ℕ

abbrev pub is_true : Option Bool → Bool
is_true (some true) = true
is_true _ = false

abbrev pub is_false : Option Bool → Bool
is_false (some false) = true
is_false _ = false

abbrev pub is_missing {ℓ} : {A : Type ℓ} → Option A → Bool
is_missing none = true
is_missing (some a) = false

-- `x or 0`
abbrev pub or_zero : Option ℕ → ℕ
or_zero none = 0
or_zero (some n) = n

abbrev pub is_pending : PatchState → Bool
is_pending pending = true
is_pending _ = false

abbrev patch_unknown : PatchState → Bool
patch_unknown PatchState.unknown = true
patch_unknown _ = false

abbrev pub is_both : Conditions → Bool
is_both both = true
is_both _ = false

unfoldable pub suspicious_login : Login → RuleConfig → Bool
suspicious_login e c =
    let untrusted = is_false e.device_trusted in
    let unapproved = is_false e.approved in
    is_true e.privileged
    && (if is_both c.identity_conditions then untrusted && unapproved else untrusted || unapproved)

-- `a["vulnerability"] or {"reference": None, "cvss": None, "known_exploited": None}`
abbrev pub cvss_of : Option Vulnerability → Option ℕ
cvss_of none = none
cvss_of (some v) = v.cvss

abbrev pub exploited : Option Vulnerability → Option Bool
exploited none = none
exploited (some v) = v.known_exploited

abbrev pub is_exposed : Asset → Bool
is_exposed a = is_true a.internet_exposed

abbrev pub is_critical : Asset → Bool
is_critical a =
    is_exposed a
    && (is_true (exploited a.vulnerability)
        || (is_true a.privileged_path && is_true a.sensitive_path))

unfoldable pub patch_priority : RuleConfig → Asset → Priority
patch_priority c a =
    if is_critical a
    then p1
    else if is_exposed a || leb c.cvss_priority_threshold (or_zero (cvss_of a.vulnerability))
    then p2
    else p3

-- `reasons.append(r)` under a test
abbrev when : Bool → Reason → List Reason
when true r = r ∷ []
when false r = []

abbrev below : ℕ → Option ℕ → Bool
below limit none = false
below limit (some n) = ltb n limit

patch_reasons : RuleConfig → Asset → List Reason
patch_reasons c a =
    patch_not_applied
    ∷ (when (is_missing a.vulnerability) no_reference
        ++ (when (is_exposed a) exposed_to_internet
            ++ (when (is_true (exploited a.vulnerability)) known_exploited
                ++ (when (is_true a.privileged_path && is_true a.sensitive_path) path_registered
                    ++ when
                        (is_critical a && below c.cvss_priority_threshold (cvss_of a.vulnerability))
                        (below_cvss_threshold c.cvss_priority_threshold)))))

module _ (os : Platform) (c : RuleConfig) where
  unfoldable pub finding_id : String → List String → String
  finding_id rule evidence = text_append "F-" (
      take_text 14
        (os.sha256 (os.dumps (arr (items (str rule ∷ arr (items (map str evidence)) ∷ []))))))

  -- a finding with no extra field
  abbrev finding : String → Priority → List Reason → List String → Kind → Finding
  finding rule priority reasons evidence kind = record {
    id = finding_id rule evidence;
    rule = rule;
    config_digest = digest os c;
    priority = priority;
    reasons = reasons;
    evidence_ids = evidence;
    kind = kind;
    actor = none;
    asset_id = none;
    gateway_id = none;
    at = none;
    distinct_files = 0;
    sensitive_files = 0;
  }

  abbrev asset_ref : String → String
  asset_ref aid = text_append "asset:" aid

  -- AS-001
  unfoldable pub patch_finding : String → Asset → List Finding
  unfolding patch_reasons
  patch_finding aid a =
      if is_pending a.patch_state
      then record (finding "AS-001" (patch_priority c a) (patch_reasons c a) (asset_ref aid ∷ [])
          exposure) { asset_id = some aid }
        ∷ []
      else []

  unfoldable pub is_uncertain : ℕ → Asset → Bool
  is_uncertain as_of a =
      is_missing a.internet_exposed
      || is_missing a.privileged_path
      || is_missing a.sensitive_path
      || patch_unknown a.patch_state
      || ltb (a.observed_at + 3600 * c.stale_asset_hours) as_of

  -- AS-005
  unfoldable pub coverage_finding : ℕ → String → Asset → List Finding
  coverage_finding as_of aid a =
      if is_uncertain as_of a
      then record (finding "AS-005" p2 (unconfirmed_or_stale c.stale_asset_hours ∷ [])
          (asset_ref aid ∷ []) coverage) { asset_id = some aid }
        ∷ []
      else []

  -- `{a["id"]: a for a in snapshot["assets"]}`
  unfoldable pub by_id : List Asset → List (String × Asset) → List (String × Asset)
  by_id [] m = m
  by_id (a ∷ rest) m = by_id rest (put a.id a m)

  -- the loop over the assets
  unfoldable pub asset_findings : ℕ → List (String × Asset) → List Finding
  asset_findings as_of [] = []
  asset_findings as_of ((aid, a) ∷ rest) =
      patch_finding aid a ++ (coverage_finding as_of aid a ++ asset_findings as_of rest)

  unfoldable pub exposed_pending : List (String × Asset) → List String
  exposed_pending [] = []
  exposed_pending ((aid, a) ∷ rest) =
      let more = exposed_pending rest in
      if is_pending a.patch_state && is_exposed a then aid ∷ more else more

  -- AS-002
  unfoldable pub login_finding : Login → List Finding
  login_finding e =
      if suspicious_login e c
      then record (finding "AS-002" p2
          ((if is_both c.identity_conditions then both_conditions else either_condition)
            ∷ verify_request
            ∷ [])
          (e.id ∷ []) identity) {
            actor = some e.actor;
            gateway_id = some e.gateway_id;
            at = some e.at;
          }
        ∷ []
      else []

  -- the successful logins, in the order of the events
  unfoldable pub logins : List Event → List Login
  logins [] = []
  logins (login e ∷ rest) = let more = logins rest in if e.success then e ∷ more else more
  logins (file_access e ∷ rest) = logins rest

  unfoldable pub login_findings : List Login → List Finding
  login_findings [] = []
  login_findings (e ∷ rest) = login_finding e ++ login_findings rest

  -- `groups[(actor, session, asset_id)].append(e)`
  abbrev Group : Type 0
  Group = String × (String × String)

  abbrev members : Option (List FileAccess) → List FileAccess
  members none = []
  members (some es) = es

  add_read : FileAccess → List (Group × List FileAccess) → List (Group × List FileAccess)
  add_read e m =
      let key : Group = (e.actor, (e.session, e.asset_id)) in
      put key (members (lookup key m) ++ (e ∷ [])) m

  unfoldable pub group_reads :
      List Event → List (Group × List FileAccess) → List (Group × List FileAccess)
  unfolding add_read
  group_reads [] m = m
  group_reads (login e ∷ rest) m = group_reads rest m
  group_reads (file_access e ∷ rest) m = group_reads rest (add_read e m)

  -- `reads.sort(key=lambda e: (e["at"], e["id"]))`
  abbrev read_before : FileAccess → FileAccess → Bool
  read_before a b = ltb a.at b.at || (eqb a.at b.at && text_before a.id b.id)

  -- `len({e["file_id"] for e in best if e["sensitive"] is True})`
  unfoldable pub sensitive_files : List FileAccess → List String
  sensitive_files [] = []
  sensitive_files (e ∷ rest) =
      let more = sensitive_files rest in
      if is_true e.sensitive && not (mem e.file_id more) then e.file_id ∷ more else more

  abbrev pub later : Login → Option Login → Option Login
  later e none = some e
  later e (some l) = if ltb e.at l.at then some l else some e

  -- the latest of the eligible logins; of several at one time the first
  unfoldable pub latest : List Login → Option Login
  latest [] = none
  latest (e ∷ rest) = later e (latest rest)

  unfoldable pub is_eligible : String → String → ℕ → Login → Bool
  is_eligible actor session first e =
      e.actor == actor
      && e.session == session
      && leb e.at first
      && leb first (e.at + c.login_lookback_seconds)

  -- AS-004, for a window `best` of `peak` files that begins at `first`
  unfoldable pub correlation_finding :
      List String → List Login → Group → List FileAccess → ℕ → List Finding
  correlation_finding exposed ls g best peak =
      let sensitive = length (sensitive_files best) in
      elim (head? best) [
        | none ↦ []
        | some first ↦ elim (latest (keep (is_eligible g.0 g.1.0 first.at) ls)) [
          | none ↦ []
          | some l ↦
              if suspicious_login l c
                && mem l.gateway_id exposed
                && leb c.sensitive_file_minimum sensitive
              then record (finding "AS-004" p1
                  (related
                    ∷ same_session_within (c.login_lookback_seconds / 60)
                    ∷ exploitation_unconfirmed
                    ∷ [])
                  (asset_ref l.gateway_id ∷ l.id ∷ map (λ e. e.id) best) correlation) {
                    actor = some g.0;
                    gateway_id = some l.gateway_id;
                    asset_id = some g.1.1;
                    distinct_files = peak;
                    sensitive_files = sensitive;
                    at = Option.map (λ e. e.at) (last? best);
                  }
                ∷ []
              else []
        ]
      ]

  -- AS-003
  unfoldable pub bulk_finding : Group → List FileAccess → ℕ → Finding
  bulk_finding g best peak =
      record (finding "AS-003" p2
        (reads_in_window c.window_seconds peak
          ∷ labelled (length (sensitive_files best))
          ∷ log_proves_no_leak
          ∷ [])
        (map (λ e. e.id) best) bulk) {
          actor = some g.0;
          asset_id = some g.1.1;
          distinct_files = peak;
          sensitive_files = length (sensitive_files best);
          at = Option.map (λ e. e.at) (last? best);
        }

  -- the body of the loop over the groups
  unfoldable pub group_findings : List String → List Login → Group → List FileAccess → List Finding
  group_findings exposed ls g reads =
      let r = scan c.window_seconds (sort_by read_before reads) start in
      if ltb r.peak c.distinct_file_threshold
      then []
      else bulk_finding g r.best r.peak ∷ correlation_finding exposed ls g r.best r.peak

  unfoldable pub all_group_findings :
      List String → List Login → List (Group × List FileAccess) → List Finding
  all_group_findings exposed ls [] = []
  all_group_findings exposed ls ((g, reads) ∷ rest) =
      group_findings exposed ls g reads ++ all_group_findings exposed ls rest

  -- `sorted(result, key=lambda f: (priority, 0 if correlation else 1, id))`
  abbrev rank : Priority → ℕ
  rank p1 = 1
  rank p2 = 2
  rank p3 = 3

  abbrev kind_rank : Kind → ℕ
  kind_rank correlation = 0
  kind_rank _ = 1

  abbrev finding_before : Finding → Finding → Bool
  finding_before f g =
      ltb (rank f.priority) (rank g.priority)
      || (eqb (rank f.priority) (rank g.priority)
          && (ltb (kind_rank f.kind) (kind_rank g.kind)
              || (eqb (kind_rank f.kind) (kind_rank g.kind) && text_before f.id g.id)))

  unfoldable pub unsorted_findings : Document → List Finding
  unsorted_findings d =
      let assets = by_id d.assets [] in
      let ls = logins d.events in
      asset_findings d.as_of assets
      ++ (login_findings ls
          ++ all_group_findings (exposed_pending assets) ls (group_reads d.events []))

  unfoldable pub analyze : Document → List Finding
  analyze d = sort_by finding_before (unsorted_findings d)
