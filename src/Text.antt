-- ===== src/Text.antt =====
-- Python's texts as the program tests them: code points, `len`, `strip`, control characters.
use Prim.Native.Char.{code}
use Prim.Native.String.{[], ◌∷◌, compare}
use text.Mathlib.Text.{is_lt}
use aisecure.Prelude.{
  ℕ, zero, suc, String, List, Option, none, some, Bool, true, false, ◌&&◌, ◌||◌, ltb, leb, eqb, any,
  length, if◌then◌else◌,
}
use mathlib.Core.List as L

abbrev pub codes : String → List ℕ
codes [] = L.[]
codes (c ∷ s) = L.◌∷◌ (code c) (codes s)

-- `len(s)`
abbrev pub text_length : String → ℕ
text_length s = length (codes s)

-- `any(ord(c) < 32 for c in s)`
abbrev pub has_control : String → Bool
has_control s = any (λ c. ltb c 32) (codes s)

-- `low <= len(s) <= high`
abbrev pub length_within : ℕ → ℕ → String → Bool
length_within low high s = leb low (text_length s) && leb (text_length s) high

-- `str.isspace` for one character
is_space : ℕ → Bool
is_space c =
    (leb 9 c && leb c 13)
    || (leb 28 c && leb c 32)
    || eqb c 0x85
    || eqb c 0xA0
    || eqb c 0x1680
    || (leb 0x2000 c && leb c 0x200A)
    || eqb c 0x2028
    || eqb c 0x2029
    || eqb c 0x202F
    || eqb c 0x205F
    || eqb c 0x3000

lstrip : String → String
lstrip [] = []
lstrip (c ∷ s) = let rest = lstrip s in if is_space (code c) then rest else c ∷ s

-- a character before a text whose own trailing white space is gone
before_stripped : ℕ → Bool → Bool
before_stripped c empty = empty && is_space c

is_empty : String → Bool
is_empty [] = true
is_empty (c ∷ s) = false

rstrip : String → String
rstrip [] = []
rstrip (c ∷ s) =
    let rest = rstrip s in if before_stripped (code c) (is_empty rest) then [] else c ∷ rest

-- `s.strip()`
unfoldable pub strip : String → String
unfolding is_space lstrip before_stripped is_empty rstrip
strip s = rstrip (lstrip s)

-- `s[:n]`
unfoldable pub take_text : ℕ → String → String
take_text zero s = []
take_text (suc n) [] = []
take_text (suc n) (c ∷ s) = c ∷ take_text n s

-- `s[len(p):]` where `s.startswith(p)`
unfoldable pub strip_prefix : String → String → Option String
strip_prefix [] s = some s
strip_prefix (c ∷ p) [] = none
strip_prefix (c ∷ p) (d ∷ s) =
    let rest = strip_prefix p s in if eqb (code c) (code d) then rest else none

-- `a < b` on texts, by code points
abbrev pub text_before : String → String → Bool
text_before a b = is_lt (compare a b)
