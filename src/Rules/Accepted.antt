-- ===== src/Rules/Accepted.antt =====
-- What the validation of the thresholds accepts.
use aisecure.Prelude.{ℕ, ◌*◌, ◌≤◌, ◌≡◌, arith, Option-cases, inl, inr, String}
use native.Mathlib.Nat.{mul-le-mul_right}
use aisecure.Json.{Value, Fields, end, field, obj, int, float, finite, pos}
use aisecure.Result.{ok, Result-cases}
use aisecure.Rules.{
  RuleConfig, one, default, integer, score, Parameter, conditions, window, priority, parameter,
  set_value, set_item, set_items, from_mapping,
}

pub record InBounds (c : RuleConfig) : Type 0 where
  pub window : (10 ≤ c.window_seconds) × (c.window_seconds ≤ 86400)
  pub threshold : (2 ≤ c.distinct_file_threshold) × (c.distinct_file_threshold ≤ 1000000)
  pub lookback : c.login_lookback_seconds ≤ 604800
  pub sensitive : c.sensitive_file_minimum ≤ 1000000
  pub stale : (1 ≤ c.stale_asset_hours) × (c.stale_asset_hours ≤ 8760)
  pub cvss : c.cvss_priority_threshold ≤ 10 * one

integer-within :
    (low high : ℕ) (v : Value) (n : ℕ) → integer low high v ≡ ok n → (low ≤ n) × (n ≤ high)
unfolding integer
integer-within low high v n e = ground arith

score-within : (v : Value) (k : ℕ) → score v ≡ ok k → k ≤ 10 * one
unfolding score
score-within (int (pos n)) k e = ground (arith, mul-le-mul_right {m = n} {n = 10} one)
score-within (float (finite (pos m))) k e = ground arith
score-within _ k e = cc

default-InBounds : InBounds default
unfolding default
default-InBounds = record {
  window = omega arith;
  threshold = omega arith;
  lookback = omega arith;
  sensitive = omega arith;
  stale = omega arith;
  cvss = omega arith;
}

set_value-InBounds :
    (p : Parameter) (v : Value) (c : RuleConfig) {c' : RuleConfig}
    → set_value p v c ≡ ok c'
    → InBounds c
    → InBounds c'
unfolding set_value
set_value-InBounds conditions v c e h = ground arith
set_value-InBounds window v c e h = grind (arith, integer-within)
set_value-InBounds priority v c e h = grind (arith, score-within)
set_value-InBounds _ v c e h = grind (arith, integer-within)

set_item-InBounds :
    (name : String) (v : Value) (c : RuleConfig) {c' : RuleConfig}
    → set_item name v c ≡ ok c'
    → InBounds c
    → InBounds c'
unfolding set_item
set_item-InBounds name v c e h = elim (Option-cases (parameter name)) [
  | inl unknown ↦ cc (rw (unknown, set_item) at e)
  | inr (p, known) ↦ set_value-InBounds p v c (rw (known, set_item) at e) h
]

set_items-InBounds :
    (fs : Fields) (c : RuleConfig) {c' : RuleConfig}
    → set_items fs c ≡ ok c'
    → InBounds c
    → InBounds c'
unfolding set_items
set_items-InBounds end c e h = ground arith
set_items-InBounds (field k v fs) c e h = elim (Result-cases (set_item k v c)) [
  | inl (c1, e1) ↦ set_items-InBounds fs c1 (rw e1 at e) (set_item-InBounds k v c e1 h)
  | inr (x, e1) ↦ cc (rw e1 at e)
]

-- An accepted mapping gives a configuration with every threshold within its bounds, whatever the
-- input was, and with no more sensitive files asked for than files.
pub from_mapping-InBounds :
    (raw : Value) (c : RuleConfig)
    → from_mapping raw ≡ ok c
    → InBounds c × (c.sensitive_file_minimum ≤ c.distinct_file_threshold)
unfolding from_mapping
from_mapping-InBounds (obj fs) c e = elim (Result-cases (set_items fs default)) [
  | inl (c1, e1) ↦ ground (arith, set_items-InBounds fs default e1 default-InBounds, rw e1 at e)
  | inr (x, e1) ↦ ground arith
]
from_mapping-InBounds _ c e = cc
