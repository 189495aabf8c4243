-- ===== src/Rules.antt =====
-- aisecure/rules.py: the detection thresholds and their strict validation.
pub mod Accepted
use aisecure.Prelude.{
  ℕ, ◌*◌, ◌^◌, String, Bool, true, false, ◌&&◌, ◌||◌, ◌==◌, Option, none, some, ltb, leb,
  if◌then◌else◌,
}
use aisecure.Json.{Value, Fields, ℤ, pos, negsuc, finite, null, bool, int, float, str, arr, obj}
use aisecure.Json.{end, field, fields, num}
use aisecure.Result.{Result, ok, err, validation, type_error, refuse, ◌>>=◌, ◌>>◌}
use aisecure.Text.{take_text}
use aisecure.Platform.{Platform}
use mathlib.Core.List.{[], ◌∷◌}

pub data Conditions : Type 0 where
  any both : Conditions

pub record RuleConfig : Type 0 where
  pub window_seconds : ℕ
  pub distinct_file_threshold : ℕ
  pub login_lookback_seconds : ℕ
  pub sensitive_file_minimum : ℕ
  pub stale_asset_hours : ℕ
  -- in multiples of 2^-1074
  pub cvss_priority_threshold : ℕ
  pub identity_conditions : Conditions

-- 1.0, in multiples of 2^-1074
unfoldable pub one : ℕ
one = 2 ^ 1074

unfoldable pub default : RuleConfig
default = record {
  window_seconds = 300;
  distinct_file_threshold = 100;
  login_lookback_seconds = 1800;
  sensitive_file_minimum = 1;
  stale_asset_hours = 24;
  cvss_priority_threshold = 7 * one;
  identity_conditions = any;
}

-- the bounds of an integer parameter
unfoldable pub integer : ℕ → ℕ → Value → Result ℕ
integer low high (int (pos n)) = if leb low n && leb n high then ok n else err validation
integer low high _ = err validation

-- the bounds 0.0 to 10.0 of a number; an integer is taken as a double
unfoldable pub score : Value → Result ℕ
score (int (pos n)) = if leb n 10 then ok (n * one) else err validation
score (float (finite (pos k))) = if leb k (10 * one) then ok k else err validation
score _ = err validation

-- `value not in {"any", "both"}` raises TypeError on a list or a dictionary
unfoldable pub choice : Value → Result Conditions
choice (str s) = if s == "any" then ok any else if s == "both" then ok both else err validation
choice (arr xs) = err type_error
choice (obj fs) = err type_error
choice _ = err validation

-- the keys of BOUNDS and CHOICES
pub data Parameter : Type 0 where
  window lookback threshold sensitive_minimum stale_hours priority conditions : Parameter

unfoldable pub parameter : String → Option Parameter
parameter name =
    if name == "identity_conditions"
    then some conditions
    else if name == "window_seconds"
    then some window
    else if name == "distinct_file_threshold"
    then some threshold
    else if name == "login_lookback_seconds"
    then some lookback
    else if name == "sensitive_file_minimum"
    then some sensitive_minimum
    else if name == "stale_asset_hours"
    then some stale_hours
    else if name == "cvss_priority_threshold"
    then some priority
    else none

-- one round of the loop over the items
unfoldable pub set_value : Parameter → Value → RuleConfig → Result RuleConfig
set_value conditions v c = do x ← choice v; ok (record c { identity_conditions = x })
set_value window v c = do n ← integer 10 86400 v; ok (record c { window_seconds = n })
set_value threshold v c = do n ← integer 2 1000000 v; ok (record c { distinct_file_threshold = n })
set_value lookback v c = do n ← integer 0 604800 v; ok (record c { login_lookback_seconds = n })
set_value sensitive_minimum v c = do
  n ← integer 0 1000000 v
  ok (record c { sensitive_file_minimum = n })
set_value stale_hours v c = do n ← integer 1 8760 v; ok (record c { stale_asset_hours = n })
set_value priority v c = do k ← score v; ok (record c { cvss_priority_threshold = k })

unfoldable pub set_item : String → Value → RuleConfig → Result RuleConfig
set_item name v c = elim (parameter name) [ none ↦ err validation | some p ↦ set_value p v c ]

abbrev is_none : Option Parameter → Bool
is_none none = true
is_none (some p) = false

-- `set(raw) - set(BOUNDS) - set(CHOICES)` is not empty
unfoldable pub has_unknown : Fields → Bool
has_unknown end = false
has_unknown (field k v fs) = is_none (parameter k) || has_unknown fs

unfoldable pub set_items : Fields → RuleConfig → Result RuleConfig
set_items end c = ok c
set_items (field k v fs) c = do c' ← set_item k v c; set_items fs c'

unfoldable pub from_mapping : Value → Result RuleConfig
from_mapping (obj fs) = do
  refuse (has_unknown fs) validation
  c ← set_items fs default
  refuse (ltb c.distinct_file_threshold c.sensitive_file_minimum) validation
  ok c
from_mapping _ = err validation

choice_text : Conditions → String
choice_text any = "any"
choice_text both = "both"

-- `as_dict`, in the order of the dataclass
unfoldable pub as_dict : RuleConfig → Value
unfolding choice_text
as_dict c = obj (
    fields (
      ("window_seconds", num c.window_seconds)
      ∷ ("distinct_file_threshold", num c.distinct_file_threshold)
      ∷ ("login_lookback_seconds", num c.login_lookback_seconds)
      ∷ ("sensitive_file_minimum", num c.sensitive_file_minimum)
      ∷ ("stale_asset_hours", num c.stale_asset_hours)
      ∷ ("cvss_priority_threshold", float (finite (pos c.cvss_priority_threshold)))
      ∷ ("identity_conditions", str (choice_text c.identity_conditions))
      ∷ []))

unfoldable pub digest : Platform → RuleConfig → String
digest os c = take_text 16 (os.sha256 (os.dumps (as_dict c)))
