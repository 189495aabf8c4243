-- ===== src/Preflight.antt =====
-- aisecure/preflight.py: requests, grants, policies and the decision about a request. The URL
-- parser, the address parser, NFKC and the two search patterns are taken from Python's library.
pub mod Granted
pub mod Decide
use aisecure.Prelude.{
  ℕ, zero, suc, ◌+◌, ◌-◌, String, List, [], ◌∷◌, ◌++◌, Option, none, some, Bool, true, false, ◌&&◌,
  ◌||◌, not, ◌==◌, ltb, leb, eqb, any, all, length, mem, last?, head?, if◌then◌else◌,
}
use aisecure.Result.{Result, ok, err, input, denied, require, refuse, ◌>>=◌, ◌>>◌}
use aisecure.Text.{codes, text_length, length_within, strip_prefix}

pub data Action : Type 0 where
  prompt upload read : Action
  execute delete share send : Action

pub data DataClass : Type 0 where
  public internal confidential restricted unknown : DataClass

-- what urlsplit finds; `port` is `none` when it is no number, and `some none` when it is absent
pub record Url : Type 0 where
  pub host : String
  pub port : Option (Option ℕ)
  pub has_credentials : Bool
  pub path : String

pub record Library : Type 0 where
  pub urlsplit : String → Option Url
  pub is_address : String → Bool
  -- the code points of a text under NFKC, and `re.search` with SECRET and PERSONAL
  pub nfkc : String → String
  pub finds_secret : String → Bool
  pub finds_personal : String → Bool

pub record Request : Type 0 where
  pub event_id : String
  pub action : Action
  pub destination : String
  pub text : String
  pub data_class : DataClass
  pub tool : Option String

pub record Grant : Type 0 where
  pub action : Action
  pub destination : String
  pub data_classes : List DataClass
  pub tool : Option String

pub data Verdict : Type 0 where
  allow review block : Verdict

pub data Rule : Type 0 where
  pg001 pg002 pg003 pg004 pg005 pg006 pg007 : Rule

pub record Decision : Type 0 where
  pub event_id : String
  pub decision : Verdict
  pub rule_ids : List Rule

abbrev pub is_review : Action → Bool
is_review execute = true
is_review delete = true
is_review share = true
is_review send = true
is_review _ = false

-- `action.startswith("agent.")`
abbrev pub is_agent : Action → Bool
is_agent prompt = false
is_agent upload = false
is_agent _ = true

abbrev number : Action → ℕ
number prompt = 0
number upload = 1
number read = 2
number execute = 3
number delete = 4
number share = 5
number send = 6

abbrev pub same_action : Action → Action → Bool
same_action a b = eqb (number a) (number b)

abbrev class_number : DataClass → ℕ
class_number public = 0
class_number internal = 1
class_number confidential = 2
class_number restricted = 3
class_number unknown = 4

abbrev pub same_class : DataClass → DataClass → Bool
same_class a b = eqb (class_number a) (class_number b)

abbrev pub same_tool : Option String → Option String → Bool
same_tool none none = true
same_tool (some a) (some b) = a == b
same_tool _ _ = false

is_digit : ℕ → Bool
is_digit c = leb 48 c && leb c 57

is_lower : ℕ → Bool
is_lower c = leb 97 c && leb c 122

alphanumeric : ℕ → Bool
alphanumeric c = is_digit c || is_lower c

-- `EV-[0-9]{1,12}`
event_id_digits : Option String → Bool
event_id_digits none = false
event_id_digits (some s) = length_within 1 12 s && all is_digit (codes s)

unfoldable pub is_event_id : String → Bool
unfolding event_id_digits is_digit
is_event_id s = event_id_digits (strip_prefix "EV-" s)

-- `[a-z][a-z0-9_.-]{0,79}`
tool_char : ℕ → Bool
tool_char c = alphanumeric c || eqb c 95 || eqb c 46 || eqb c 45

tool_codes : List ℕ → Bool
tool_codes [] = false
tool_codes (c ∷ cs) = is_lower c && leb (length cs) 79 && all tool_char cs

unfoldable pub is_tool : String → Bool
unfolding tool_codes tool_char alphanumeric is_digit is_lower
is_tool s = tool_codes (codes s)

-- `[a-z0-9](?:[a-z0-9-]{0,61}[a-z0-9])?`
some_alphanumeric : Option ℕ → Bool
some_alphanumeric none = false
some_alphanumeric (some c) = alphanumeric c

is_label : List ℕ → Bool
is_label cs =
    leb 1 (length cs)
    && leb (length cs) 63
    && all (λ c. alphanumeric c || eqb c 45) cs
    && some_alphanumeric (head? cs)
    && some_alphanumeric (last? cs)

-- `s.split(sep)`
with_head : ℕ → List (List ℕ) → List (List ℕ)
with_head c [] = (c ∷ []) ∷ []
with_head c (part ∷ parts) = (c ∷ part) ∷ parts

split : ℕ → List ℕ → List (List ℕ)
split sep [] = [] ∷ []
split sep (c ∷ cs) = let parts = split sep cs in if eqb c sep then [] ∷ parts else with_head c parts

-- `len(text.encode("utf-8"))`
char_bytes : ℕ → ℕ
char_bytes c = if ltb c 128 then 1 else if ltb c 2048 then 2 else if ltb c 65536 then 3 else 4

unfoldable pub byte_length : List ℕ → ℕ
unfolding char_bytes
byte_length [] = 0
byte_length (c ∷ cs) = char_bytes c + byte_length cs

abbrev pub max_text_bytes : ℕ
max_text_bytes = 262144

-- a character that no endpoint may hold: white space, controls, and `@?#%\`
bad_char : ℕ → Bool
bad_char c =
    leb c 32 || eqb c 127 || eqb c 64 || eqb c 63 || eqb c 35 || eqb c 37 || eqb c 92 || leb 128 c

abbrev starts_https : Option String → Bool
starts_https none = false
starts_https (some s) = true

abbrev port_fits : Option (Option ℕ) → Bool
port_fits none = false
port_fits (some none) = true
port_fits (some (some p)) = eqb p 443

-- `.` or `..`
abbrev is_dots : List ℕ → Bool
is_dots (c ∷ []) = eqb c 46
is_dots (c ∷ d ∷ []) = eqb c 46 && eqb d 46
is_dots _ = false

abbrev dot_last : Option ℕ → Bool
dot_last none = false
dot_last (some c) = eqb c 46

module _ (lib : Library) where
  url_fits : Option Url → Bool
  url_fits none = false
  url_fits (some u) =
      not (u.host == "")
      && port_fits u.port
      && not u.has_credentials
      && leb (text_length u.host) 253
      && any (λ c. eqb c 46) (codes u.host)
      && not (dot_last (last? (codes u.host)))
      && all is_label (split 46 (codes u.host))
      && not (any is_dots (split 47 (codes u.path)))
      && not (lib.is_address u.host)

  -- `endpoint`
  unfoldable pub is_endpoint : String → Bool
  unfolding url_fits bad_char is_label alphanumeric is_digit is_lower some_alphanumeric split
      with_head
  is_endpoint value =
      length_within 1 2048 value
      && starts_https (strip_prefix "https://" value)
      && not (any bad_char (codes value))
      && url_fits (lib.urlsplit value)

  tool_fits : Option String → Bool
  tool_fits none = true
  tool_fits (some t) = is_tool t

  abbrev has_tool : Option String → Bool
  has_tool none = false
  has_tool (some t) = true

  abbrev same_bool : Bool → Bool → Bool
  same_bool true b = b
  same_bool false b = not b

  -- `Request.__post_init__`
  unfoldable pub check_request : Request → Result Request
  unfolding tool_fits
  check_request r = do
    require (is_event_id r.event_id) input
    require (is_endpoint r.destination) input
    refuse (ltb max_text_bytes (byte_length (codes r.text))) input
    require (tool_fits r.tool) input
    require (same_bool (is_agent r.action) (has_tool r.tool)) input
    ok r

  abbrev pub grantable : DataClass → Bool
  grantable public = true
  grantable internal = true
  grantable _ = false

  abbrev is_empty : List DataClass → Bool
  is_empty [] = true
  is_empty (c ∷ cs) = false

  -- `Grant.__post_init__`
  unfoldable pub check_grant : Grant → Result Grant
  check_grant g = do
    refuse (is_review g.action) input
    require (is_endpoint g.destination) input
    require (not (is_empty g.data_classes) && all grantable g.data_classes) input
    check_request (record {
      event_id = "EV-0";
      action = g.action;
      destination = g.destination;
      text = "";
      data_class = public;
      tool = g.tool;
    })
        >>= λ _. ok g

  abbrev pub same_key : Grant → Action → String → Option String → Bool
  same_key g action destination tool =
      same_action g.action action && g.destination == destination && same_tool g.tool tool

  unfoldable pub repeats : List Grant → Bool
  repeats [] = false
  repeats (g ∷ gs) = any (λ h. same_key h g.action g.destination g.tool) gs || repeats gs

  -- `Policy.__post_init__`, for grants that are checked
  unfoldable pub check_policy : List Grant → Result (List Grant)
  check_policy gs = do refuse (ltb 100 (length gs)) input; refuse (repeats gs) input; ok gs

  unfoldable pub find_grant : Request → List Grant → Option Grant
  find_grant r [] = none
  find_grant r (g ∷ gs) =
      let rest = find_grant r gs in
      if same_key g r.action r.destination r.tool then some g else rest

  -- the rules that a part of `evaluate` adds, and whether it blocks
  abbrev pub grant_rules : DataClass → Option Grant → List Rule
  grant_rules c none = pg001 ∷ []
  grant_rules c (some g) =
      if grantable c && not (any (same_class c) g.data_classes) then pg007 ∷ [] else []

  abbrev pub action_rules : Request → List Grant → List Rule
  action_rules r gs =
      if is_review r.action then pg005 ∷ [] else grant_rules r.data_class (find_grant r gs)

  abbrev pub class_rules : DataClass → List Rule
  class_rules confidential = pg002 ∷ []
  class_rules restricted = pg002 ∷ []
  class_rules unknown = pg004 ∷ []
  class_rules _ = []

  abbrev pub text_rules : String → List Rule
  text_rules normalized =
      (if lib.finds_secret normalized then pg003 ∷ [] else [])
      ++ (if lib.finds_personal normalized then pg006 ∷ [] else [])

  -- the rules that set `blocked`
  abbrev pub blocks : Rule → Bool
  blocks pg001 = true
  blocks pg002 = true
  blocks pg003 = true
  blocks pg007 = true
  blocks _ = false

  abbrev pub verdict_open : List Rule → Verdict
  verdict_open [] = allow
  verdict_open (r ∷ rules) = review

  abbrev pub verdict : List Rule → Verdict
  verdict rules = if any blocks rules then block else verdict_open rules

  unfoldable pub evaluate : Request → List Grant → Decision
  evaluate r gs =
      let rules = action_rules r gs ++ (class_rules r.data_class ++ text_rules (lib.nfkc r.text)) in
      record { event_id = r.event_id; decision = verdict rules; rule_ids = rules }

  abbrev is_allow : Verdict → Bool
  is_allow allow = true
  is_allow _ = false

  -- `guarded_call`: the transport is called in the last step alone
  unfoldable pub guarded_call {ℓ} : {A : Type ℓ} → Request → List Grant → (Request → A) → Result A
  guarded_call r gs transport =
      if is_allow (evaluate r gs).decision then ok (transport r) else err denied
