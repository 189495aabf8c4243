-- ===== src/Control/Entry.antt =====
-- `Audit` of aisecure/control/audit.py: the entries of the shared journal.
use aisecure.Prelude.{
  ℕ, ◌-◌, ◌^◌, String, List, [], ◌∷◌, map, Bool, false, ◌&&◌, ◌||◌, ◌==◌, ltb, leb, all, length,
  mem, keep, not, if◌then◌else◌,
}
use aisecure.Result.{Result, ok, err, control, require, refuse, ◌>>=◌, ◌>>◌}
use aisecure.Json.{Fields, arr, obj, end, field, items, fields, num, str}
use aisecure.Text.{codes}
use aisecure.Platform.{Platform, Bytes}
use aisecure.Preflight.{byte_length}
use aisecure.Control.{ident, integer, opaque}

abbrev kinds : List String
kinds =
    "document_inspection" ∷ "bundle_request" ∷ "security_event" ∷ "response_request"
    ∷ "vpn_assessment" ∷ "case_review" ∷ []

abbrev states : List String
states =
    "not_executed" ∷ "prevented_in_gateway" ∷ "dispatch_pending" ∷ "delivery_unknown"
    ∷ "provider_completed" ∷ "demo_received" ∷ "observed_only" ∷ "verified" ∷ "precondition_failed"
    ∷ []

abbrev decisions : List String
decisions = "allow" ∷ "block" ∷ "review" ∷ "no_findings" ∷ "not_applicable" ∷ []

abbrev coverages : List String
coverages =
    "supported_text_complete" ∷ "partial" ∷ "unreadable" ∷ "metadata_only" ∷ "not_connected" ∷ []

abbrev count_names : List String
count_names = "files" ∷ "units" ∷ "findings" ∷ "bytes" ∷ "uninspected" ∷ "events" ∷ []

-- RULE: `[A-Z][A-Z0-9-]{1,47}`
abbrev upper : ℕ → Bool
upper c = leb 65 c && leb c 90

abbrev rule_codes : List ℕ → Bool
rule_codes [] = false
rule_codes (c ∷ cs) =
    upper c
    && leb 1 (length cs)
    && leb (length cs) 47
    && all (λ d. upper d || (leb 48 d && leb d 57) || (leb 45 d && leb d 45)) cs

unfoldable pub is_rule : String → Bool
is_rule rule = rule_codes (codes rule)

-- each count is named and fits
unfoldable pub counts_fit : Fields → Result (Unit {0})
counts_fit end = ok tt
counts_fit (field k v fs) = do
  require (mem k count_names) control
  _ ← integer 0 (2 ^ 53 - 1) v
  counts_fit fs

-- `list(dict.fromkeys(rules))`
abbrev first_of_each : List String → List String
first_of_each [] = []
first_of_each (x ∷ xs) = x ∷ keep (λ y. not (y == x)) (first_of_each xs)

abbrev max_record : ℕ
max_record = 2048

-- what an entry is made of
pub record Details : Type 0 where
  pub kind : String
  pub request_id : String
  pub decision : String
  pub state : String
  pub actor : String
  pub target : String
  pub rules : List String
  pub counts : Fields
  pub coverage : String

module _ (os : Platform) (key : Bytes) where
  -- `identifier`
  unfoldable pub pseudonym_of : String → String → Result String
  pseudonym_of category raw =
      if ltb 1024 (byte_length (codes raw)) then err control else opaque os key category raw

  abbrev entry_fields : Details → String → String → Fields
  entry_fields d actor target = fields (
      ("schema", num 1)
      ∷ ("kind", str d.kind)
      ∷ ("request_id", str d.request_id)
      ∷ ("decision", str d.decision)
      ∷ ("execution_state", str d.state)
      ∷ ("actor", str actor)
      ∷ ("target", str target)
      ∷ ("rules", arr (items (map (λ r. str r) (first_of_each d.rules))))
      ∷ ("counts", obj d.counts)
      ∷ ("coverage", str d.coverage)
      ∷ [])

  -- `entry`
  unfoldable pub entry : Details → Result Fields
  entry d = do
    require
        (mem d.kind kinds
          && mem d.state states
          && mem d.decision decisions
          && mem d.coverage coverages)
        control
    _ ← ident (str d.request_id)
    refuse (ltb 24 (length d.rules)) control
    require (all is_rule d.rules) control
    counts_fit d.counts
    actor ← pseudonym_of "actor" d.actor
    target ← pseudonym_of "target" d.target
    refuse (ltb max_record (byte_length (codes (os.dumps (obj (entry_fields d actor target))))))
        control
    ok (entry_fields d actor target)
