-- ===== src/Schema.antt =====
-- The validators of aisecure/schema.py: identifiers, object keys, times, numbers, pseudonyms and
-- provenance. A text is taken to hold no lone surrogate, and -0.0 to be 0.0.
pub mod Normalize
pub mod Fits
pub mod WellFormed
use aisecure.Prelude.{
  ℕ, suc, ◌*◌, ◌^◌, ◌-◌, ◌/◌, String, List, [], ◌∷◌, ◌++◌, Option, none, some, Bool, true, false,
  ◌&&◌, ◌||◌, not, ◌==◌, ltb, leb, eqb, all, length, mem, sort_by, if◌then◌else◌,
}
use Prim.Native.String.{◌++◌ as text_append}
use aisecure.Json.{
  Value, Fields, pos, negsuc, finite, null, bool, int, float, str, arr, obj, end, field, get,
  values, at_key,
}
use aisecure.Result.{Result, ok, err, validation, overflow, require, refuse, ◌>>=◌, ◌>>◌}
use aisecure.Text.{codes, text_length, length_within, has_control, take_text, text_before}
use aisecure.Document.{Source}
use aisecure.Platform.{Platform, Bytes}
use aisecure.Rules.{one}

-- ID: `[A-Za-z0-9][A-Za-z0-9_.:-]{0,79}`
abbrev pub alphanumeric : ℕ → Bool
alphanumeric c = (leb 48 c && leb c 57) || (leb 65 c && leb c 90) || (leb 97 c && leb c 122)

abbrev pub id_char : ℕ → Bool
id_char c = alphanumeric c || eqb c 95 || eqb c 46 || eqb c 58 || eqb c 45

abbrev id_codes : ℕ → List ℕ → Bool
id_codes more [] = false
id_codes more (c ∷ cs) = alphanumeric c && leb (length cs) more && all id_char cs

-- an identifier with at most so many characters after the first
unfoldable pub is_id : ℕ → String → Bool
is_id more s = id_codes more (codes s)

unfoldable pub identifier : Value → Result String
identifier (str s) = if is_id 79 s then ok s else err validation
identifier _ = err validation

-- `required <= keys` and no key outside
abbrev pub no_other : List String → Fields → Bool
no_other names end = true
no_other names (field k v fs) = mem k names && no_other names fs

abbrev given : Option Value → Bool
given none = false
given (some v) = true

unfoldable pub object_keys : List String → List String → Value → Result Fields
object_keys required optional (obj fs) =
    if all (λ k. given (get k fs)) required && no_other (required ++ optional) fs
    then ok fs
    else err validation
object_keys required optional _ = err validation

unfoldable pub nullable_bool : Value → Result (Option Bool)
nullable_bool null = ok none
nullable_bool (bool b) = ok (some b)
nullable_bool _ = err validation

-- the least natural number that `float` refuses with OverflowError
unfoldable pub float_limit : ℕ
float_limit = 2 ^ 1024 - 2 ^ 970

-- `number(value, 0, high)`, in multiples of 2^-1074; `math.isfinite` converts an integer first
unfoldable pub number : ℕ → Value → Result ℕ
number high (int (pos n)) =
    if leb float_limit n then err overflow else if leb n high then ok (n * one) else err validation
number high (int (negsuc n)) = if leb float_limit (suc n) then err overflow else err validation
number high (float (finite (pos k))) = if leb k (high * one) then ok k else err validation
number high _ = err validation

-- LABEL: `[^\x00-\x1f/\\]{1,120}`
unfoldable pub source_label : Value → Result String
source_label (str s) =
    if length_within 1 120 s && all (λ c. leb 32 c && not (eqb c 47) && not (eqb c 92)) (codes s)
    then ok s
    else err validation
source_label _ = err validation

-- SHA256: `[0-9a-f]{64}`
unfoldable pub is_sha256 : String → Bool
is_sha256 s =
    eqb (text_length s) 64 && all (λ c. (leb 48 c && leb c 57) || (leb 97 c && leb c 102)) (codes s)

unfoldable pub source_sha256 : Value → Result String
source_sha256 (str s) = if is_sha256 s then ok s else err validation
source_sha256 _ = err validation

unfoldable pub row_count : Value → Result ℕ
row_count (int (pos n)) = if leb n 1000000000 then ok n else err validation
row_count _ = err validation

unfoldable pub source_connector : Option Value → Result (Option String)
source_connector none = ok none
source_connector (some null) = ok none
source_connector (some v) = identifier v >>= λ s. ok (some s)

-- one round of the loop of `provenance`
unfoldable pub source_of : Bool → Value → Result Source
source_of verified item = do
  fs ← object_keys ("label" ∷ "sha256" ∷ "rows_read" ∷ "rows_imported" ∷ []) ("connector" ∷ []) item
  label ← source_label (at_key "label" fs)
  sha256 ← source_sha256 (at_key "sha256" fs)
  rows_read ← row_count (at_key "rows_read" fs)
  rows_imported ← row_count (at_key "rows_imported" fs)
  connector ← source_connector (get "connector" fs)
  ok (record {
    label = label;
    sha256 = sha256;
    rows_read = rows_read;
    rows_imported = rows_imported;
    connector = connector;
    verified = verified;
  })

unfoldable pub sources_of : Bool → List Value → Result (List Source)
sources_of verified [] = ok []
sources_of verified (v ∷ vs) = do
  s ← source_of verified v
  rest ← sources_of verified vs
  ok (s ∷ rest)

abbrev pub source_before : Source → Source → Bool
source_before a b =
    text_before a.label b.label || (a.label == b.label && text_before a.sha256 b.sha256)

unfoldable pub provenance : Bool → Option Value → Result (List Source)
provenance verified none = ok []
provenance verified (some null) = ok []
provenance verified (some (arr vs)) = do
  refuse (ltb 64 (length (values vs))) validation
  out ← sources_of verified (values vs)
  ok (sort_by source_before out)
provenance verified (some _) = err validation

module _ (os : Platform) where
  abbrev time_or_invalid : Option ℕ → Result ℕ
  time_or_invalid none = err validation
  time_or_invalid (some t) = ok t

  -- `parse_time`, in microseconds
  unfoldable pub parse_time : Value → Result ℕ
  parse_time (str s) =
      if leb (text_length s) 40 then time_or_invalid (os.fromisoformat s) else err validation
  parse_time _ = err validation

  -- `pseudonym`
  unfoldable pub pseudonym : Bytes → String → Value → Result String
  pseudonym key namespace (str s) =
      if length_within 1 256 s && not (has_control s)
      then ok (
          text_append namespace (
            text_append "-"
              (take_text 24 (os.hmac key (text_append namespace (text_append "\0" s))))))
      else err validation
  pseudonym key namespace _ = err validation

-- `iso` keeps whole seconds
abbrev pub seconds : ℕ → ℕ
seconds t = t / 1000000
