-- ===== src/Tests/Anchors.antt =====
-- A checkpoint of a chain, envelopes, thresholds and requests: theorems at concrete inputs.
use aisecure.Prelude.{◌≡◌, ◌*◌, ◌≤◌, ◌↔◌, ◌++◌, refl, List, [], ◌∷◌, none, false}
use aisecure.Json.{Value, obj, fields, num}
use aisecure.Result.{ok}
use aisecure.Rules.{
  RuleConfig, Conditions, from_mapping, default, one, has_unknown, set_items, set_item, set_value,
  parameter, integer,
}
use aisecure.Rules.Accepted.{InBounds, from_mapping-InBounds}
use aisecure.Cipher.{encrypt, decrypt}
use aisecure.Cipher.Roundtrip.{decrypt-encrypt}
use aisecure.Store.State.{AuditRow}
use aisecure.Store.Audit.Chain.{anchor_pins}
use aisecure.Store.Calls.{ingest_call, perform_all}
use aisecure.Preflight.{Library, Request, Grant, public, prompt, allow, evaluate}
use aisecure.Preflight.Decide.{Cleared, evaluate-Cleared}
use aisecure.Tests.Toy.{toy-Faithful, toy-Unforgeable}
use aisecure.Tests.Chains.{program, document, os, self, empty, approved_state}

old : List AuditRow
unfolding program
old = (perform_all os self "hook" (ingest_call document ∷ []) empty).db.audit

anchor_pins_example : (later : List AuditRow) × (approved_state.db.audit ≡ old ++ later)
unfolding program old approved_state
anchor_pins_example =
    anchor_pins os self old approved_state.db.audit
      (toy-Unforgeable document self approved_state.db.audit old) refl refl

decrypt-encrypt_example : decrypt os [] (encrypt os [] 3 "plan" "row") "row" ≡ ok "plan"
decrypt-encrypt_example = decrypt-encrypt os [] 3 "plan" "row" (toy-Faithful document [])

abbrev thresholds : RuleConfig
thresholds = record {
  window_seconds = 600;
  distinct_file_threshold = 50;
  login_lookback_seconds = 1800;
  sensitive_file_minimum = 1;
  stale_asset_hours = 24;
  cvss_priority_threshold = 7 * one;
  identity_conditions = Conditions.any;
}

abbrev raw : Value
raw = obj (fields (("window_seconds", num 600) ∷ ("distinct_file_threshold", num 50) ∷ []))

raw_accepted : from_mapping raw ≡ ok thresholds
unfolding from_mapping default has_unknown set_items set_item set_value parameter integer
raw_accepted = refl

from_mapping-InBounds_example : InBounds thresholds × (1 ≤ 50)
from_mapping-InBounds_example = from_mapping-InBounds raw thresholds raw_accepted

abbrev library : Library
library = record {
  urlsplit = λ s. none;
  is_address = λ s. false;
  nfkc = λ s. s;
  finds_secret = λ s. false;
  finds_personal = λ s. false;
}

abbrev question : Request
question = record {
  event_id = "EV-1";
  action = prompt;
  destination = "https://api.example.com/v1";
  text = "hello";
  data_class = public;
  tool = none;
}

abbrev permission : Grant
permission = record {
  action = prompt;
  destination = "https://api.example.com/v1";
  data_classes = public ∷ [];
  tool = none;
}

evaluate-Cleared_example :
    ((evaluate library question (permission ∷ [])).decision ≡ allow)
    ↔ Cleared library question (permission ∷ [])
evaluate-Cleared_example = evaluate-Cleared library question (permission ∷ [])
