-- ===== src/Posture.antt =====
-- aisecure/posture.py: the comparison of tool manifests (`audit_tools`), and the assessment of an
-- inventory against advisories (`assess`).
pub mod Tools
pub mod Reapproval
pub mod Versions
pub mod Assess
pub mod Ranges
pub mod Unaffected
pub mod Dlp
pub mod Windows
use aisecure.Prelude.{
  ℕ, suc, String, List, [], ◌∷◌, Option, none, some, Bool, true, false, ◌&&◌, ◌||◌, leb, eqb, all,
  length, if◌then◌else◌,
}
use aisecure.Result.{Result, ok, err, gateway}
use aisecure.Json.{Value, Fields, null, bool, str, arr, values, obj}
use aisecure.Text.{codes}
use aisecure.Schema.{alphanumeric, object_keys}

-- OPAQUE: `[A-Za-z0-9][A-Za-z0-9_.-]{0,79}`
abbrev opaque_codes : List ℕ → Bool
opaque_codes [] = false
opaque_codes (c ∷ cs) =
    alphanumeric c
    && leb (length cs) 79
    && all (λ d. alphanumeric d || eqb d 95 || eqb d 46 || eqb d 45) cs

unfoldable pub is_opaque : String → Bool
is_opaque s = opaque_codes (codes s)

unfoldable pub opaque_text : Value → Result String
opaque_text (str s) = if is_opaque s then ok s else err gateway
opaque_text _ = err gateway

-- `type(value) is dict` and `set(value) == keys`
unfoldable pub dict_of : List String → Value → Result Fields
dict_of keys v = as_gateway (object_keys keys [] v)
  where
    as_gateway : Result Fields → Result Fields
    as_gateway (ok fs) = ok fs
    as_gateway (err c) = err gateway

unfoldable pub list_of : ℕ → Value → Result (List Value)
list_of high (arr vs) = if leb (length (values vs)) high then ok (values vs) else err gateway
list_of high _ = err gateway
