-- ===== src/Posture/Versions.antt =====
-- Versions and times in aisecure/posture.py. `digit` is the decimal value of a character, which
-- `\d` and `int` of Python's library read; `casefold` is theirs too.
use aisecure.Prelude.{
  ℕ, zero, suc, ◌+◌, ◌*◌, ◌-◌, ◌/◌, String, List, [], ◌∷◌, ◌++◌, Option, none, some, Bool, true,
  false, ◌&&◌, ◌||◌, leb, ltb, eqb, all, length, if◌then◌else◌,
}
use aisecure.Result.{Result, ok, err, gateway}
use aisecure.Json.{Value, str}
use aisecure.Text.{codes, strip_prefix}
use aisecure.Platform.{Platform}

pub record Unicode : Type 0 where
  pub digit : ℕ → Option ℕ
  pub casefold : String → String

-- the parts that `split('.')` gives, on code points
abbrev pub split_dots : List ℕ → List (List ℕ)
split_dots [] = [] ∷ []
split_dots (c ∷ cs) = put_first c (split_dots cs)
  where
    put_first : ℕ → List (List ℕ) → List (List ℕ)
    put_first c [] = (c ∷ []) ∷ []
    put_first c (part ∷ parts) = if eqb c 46 then [] ∷ part ∷ parts else (c ∷ part) ∷ parts

module _ (unicode : Unicode) where
  -- `int(part)` of a part that is all digits
  unfoldable pub number_from : ℕ → List ℕ → Option ℕ
  number_from n [] = some n
  number_from n (c ∷ cs) = elim (unicode.digit c) [
    | none ↦ none
    | some d ↦ number_from (10 * n + d) cs
  ]

  -- one part of the pattern: `\d{1,6}`
  unfoldable pub part_of : List ℕ → Option ℕ
  part_of cs = if leb 1 (length cs) && leb (length cs) 6 then number_from 0 cs else none

  unfoldable pub parts_of : List (List ℕ) → Option (List ℕ)
  parts_of [] = some []
  parts_of (cs ∷ rest) = elim (part_of cs) [
    | none ↦ none
    | some n ↦ elim (parts_of rest) [ none ↦ none | some ns ↦ some (n ∷ ns) ]
  ]

  abbrev zeros : ℕ → List ℕ
  zeros zero = []
  zeros (suc n) = 0 ∷ zeros n

  abbrev padded : Option (List ℕ) → Option (List ℕ)
  padded none = none
  padded (some ns) = if leb (length ns) 6 then some (ns ++ zeros (6 - length ns)) else none

  -- `numeric_version`
  unfoldable pub numeric_version : String → Option (List ℕ)
  numeric_version s = padded (parts_of (split_dots (codes s)))

  abbrev is_digit : ℕ → Bool
  is_digit c = elim (unicode.digit c) [ none ↦ false | some d ↦ true ]

  -- `\d{4}-\d{4,8}` on code points, after n of the first digits
  abbrev cve_codes : List ℕ → Bool
  cve_codes (a ∷ b ∷ c ∷ d ∷ dash ∷ rest) =
      is_digit a
      && is_digit b
      && is_digit c
      && is_digit d
      && eqb dash 45
      && leb 4 (length rest)
      && leb (length rest) 8
      && all is_digit rest
  cve_codes _ = false

  -- CVE: `CVE-\d{4}-\d{4,8}`
  unfoldable pub is_cve : String → Bool
  is_cve s = after (strip_prefix "CVE-" s)
    where
      after : Option String → Bool
      after none = false
      after (some rest) = cve_codes (codes rest)

-- `low <= version` and `version < high`: tuples in lexicographic order
abbrev pub version_before : List ℕ → List ℕ → Bool
version_before [] [] = false
version_before [] (y ∷ ys) = true
version_before (x ∷ xs) [] = false
version_before (x ∷ xs) (y ∷ ys) = ltb x y || (eqb x y && version_before xs ys)

module _ (os : Platform) where
  -- `iso_time`, in seconds
  unfoldable pub iso_time : Value → Result ℕ
  iso_time (str s) = or_gateway (os.fromisoformat s)
    where
      or_gateway : Option ℕ → Result ℕ
      or_gateway none = err gateway
      or_gateway (some t) = ok (t / 1000000)
  iso_time _ = err gateway
