-- ===== src/Json.antt =====
-- The values of `json.loads`. A float is an exact multiple of 2^-1074, or no number.
use aisecure.Prelude.{
  ℕ, String, List, [], ◌∷◌, Option, none, some, Bool, true, false, ◌==◌, if◌then◌else◌,
}

pub data ℤ : Type 0 where
  pos : ℕ → ℤ
  negsuc : ℕ → ℤ

-- IEEE doubles: `finite z` is z / 2^1074
pub data Float : Type 0 where
  finite : ℤ → Float
  inf minus_inf nan : Float

mutual
  pub data Value : Type 0 where
    null : Value
    bool : Bool → Value
    int : ℤ → Value
    float : Float → Value
    str : String → Value
    arr : Items → Value
    obj : Fields → Value

  pub data Items : Type 0 where
    cons : Value → Items → Items
    nil : Items

  pub data Fields : Type 0 where
    field : String → Value → Fields → Fields
    end : Fields

abbrev pub items : List Value → Items
items [] = nil
items (v ∷ vs) = cons v (items vs)

abbrev pub fields : List (String × Value) → Fields
fields [] = end
fields ((k, v) ∷ fs) = field k v (fields fs)

abbrev pub num : ℕ → Value
num n = int (pos n)

-- `v.get(k)` on an object
abbrev pub get : String → Fields → Option Value
get k end = none
get k (field j v fs) = if j == k then some v else get k fs

abbrev pub is_object : Value → Bool
is_object (obj fs) = true
is_object _ = false

-- `{**fields, k: v}`: in place, or at the end
abbrev pub with_field : String → Value → Fields → Fields
with_field k v end = field k v end
with_field k v (field j w fs) = if j == k then field j v fs else field j w (with_field k v fs)

-- what `o.get(k) == text` tests, of a text
abbrev pub is_text : String → Option Value → Bool
is_text text (some (str s)) = s == text
is_text text _ = false

-- `v.get(k)` on a value that is an object
abbrev pub member : String → Value → Option Value
member key (obj fs) = get key fs
member key _ = none

-- the values of a list
abbrev pub values : Items → List Value
values nil = []
values (cons v vs) = v ∷ values vs

-- `v[k]` where `v` is known to hold `k`
abbrev pub at_key : String → Fields → Value
at_key k end = null
at_key k (field j v fs) = if j == k then v else at_key k fs
