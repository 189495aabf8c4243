-- ===== src/Schema/Normalize.antt =====
-- `normalize` of aisecure/schema.py: a JSON value becomes a snapshot, or is refused.
use aisecure.Prelude.{
  ℕ, ◌+◌, String, List, [], ◌∷◌, map, Option, none, some, Bool, true, false, ◌&&◌, ◌||◌, ◌==◌, ltb,
  leb, eqb, find, length, mem, sort_by, if◌then◌else◌,
}
use aisecure.Json.{Value, pos, null, bool, int, str, arr, get, values, at_key, is_text, member}
use aisecure.Json.{obj}
use aisecure.Result.{Result, ok, err, validation, require, refuse, ◌>>=◌, ◌>>◌}
use aisecure.Text.{text_before}
use aisecure.Document.{
  Document, Asset, AssetKind, PatchState, Vulnerability, Event, SourceMode, login, file_access,
}
use aisecure.Platform.{Platform, Bytes}
use aisecure.Schema.{
  identifier, object_keys, nullable_bool, number, provenance, parse_time, pseudonym, seconds,
}

-- timedelta(minutes=5)
abbrev pub five_minutes : ℕ
five_minutes = 300000000

abbrev or_invalid {ℓ} : {A : Type ℓ} → Option A → Result A
or_invalid none = err validation
or_invalid (some a) = ok a

unfoldable pub kind_of : Value → Result AssetKind
kind_of (str s) =
    if s == "vpn"
    then ok AssetKind.vpn
    else if s == "server"
    then ok AssetKind.server
    else if s == "saas"
    then ok AssetKind.saas
    else if s == "endpoint"
    then ok AssetKind.endpoint
    else if s == "unknown"
    then ok AssetKind.unknown
    else err validation
kind_of _ = err validation

unfoldable pub patch_of : Value → Result PatchState
patch_of (str s) =
    if s == "pending"
    then ok PatchState.pending
    else if s == "applied"
    then ok PatchState.applied
    else if s == "unknown"
    then ok PatchState.unknown
    else if s == "not_applicable"
    then ok PatchState.not_applicable
    else err validation
patch_of _ = err validation

unfoldable pub cvss_of : Value → Result (Option ℕ)
cvss_of null = ok none
cvss_of v = number 10 v >>= λ k. ok (some k)

unfoldable pub vulnerability_of : Value → Result (Option Vulnerability)
vulnerability_of null = ok none
vulnerability_of v = do
  fs ← object_keys ("reference" ∷ "cvss" ∷ "known_exploited" ∷ []) [] v
  reference ← identifier (at_key "reference" fs)
  cvss ← cvss_of (at_key "cvss" fs)
  known ← nullable_bool (at_key "known_exploited" fs)
  ok (some (record { reference = reference; cvss = cvss; known_exploited = known }))

abbrev pub asset_keys : List String
asset_keys =
    "id" ∷ "kind" ∷ "internet_exposed" ∷ "privileged_path" ∷ "sensitive_path" ∷ "patch_state"
    ∷ "observed_at" ∷ "vulnerability" ∷ []

abbrev pub login_keys : List String
login_keys =
    "id" ∷ "type" ∷ "at" ∷ "actor" ∷ "session" ∷ "gateway_id" ∷ "success" ∷ "privileged"
    ∷ "device_trusted" ∷ "approved" ∷ []

abbrev pub file_keys : List String
file_keys =
    "id" ∷ "type" ∷ "at" ∷ "actor" ∷ "session" ∷ "asset_id" ∷ "file_id" ∷ "sensitive" ∷ "bytes_read"
    ∷ []

-- `type(v) is bool`
unfoldable pub plain_bool : Value → Result Bool
plain_bool (bool b) = ok b
plain_bool _ = err validation

-- `bytes_read`: null, or an integer that `number` accepts
unfoldable pub size_of : Value → Result (Option ℕ)
size_of null = ok none
size_of (int (pos n)) = number 1000000000000 (int (pos n)) >>= λ _. ok (some n)
size_of (int z) = number 1000000000000 (int z) >>= λ k. err validation
size_of _ = err validation

-- the dictionary `fields` of an event
pub data Details : Type 0 where
  of_login : String → Bool → Option Bool → Option Bool → Option Bool → Details
  of_file : String → String → Option Bool → Option ℕ → Details

abbrev pub event : String → ℕ → String → String → Details → Event
event id at actor session (of_login gateway success privileged trusted approved) = login (record {
  id = id;
  at = at;
  actor = actor;
  session = session;
  gateway_id = gateway;
  success = success;
  privileged = privileged;
  device_trusted = trusted;
  approved = approved;
})
event id at actor session (of_file asset file sensitive bytes) = file_access (record {
  id = id;
  at = at;
  actor = actor;
  session = session;
  asset_id = asset;
  file_id = file;
  sensitive = sensitive;
  bytes_read = bytes;
})

abbrev pub event_id : Event → String
event_id (login e) = e.id
event_id (file_access e) = e.id

abbrev pub event_at : Event → ℕ
event_at (login e) = e.at
event_at (file_access e) = e.at

abbrev same_flag : Option Bool → Option Bool → Bool
same_flag none none = true
same_flag (some true) (some true) = true
same_flag (some false) (some false) = true
same_flag _ _ = false

abbrev same_bool : Bool → Bool → Bool
same_bool true b = b
same_bool false true = false
same_bool false false = true

abbrev same_size : Option ℕ → Option ℕ → Bool
same_size none none = true
same_size (some n) (some m) = eqb n m
same_size _ _ = false

-- `==` of two events
unfoldable pub same_event : Event → Event → Bool
same_event (login a) (login b) =
    a.id == b.id
    && eqb a.at b.at
    && a.actor == b.actor
    && a.session == b.session
    && a.gateway_id == b.gateway_id
    && same_bool a.success b.success
    && same_flag a.privileged b.privileged
    && same_flag a.device_trusted b.device_trusted
    && same_flag a.approved b.approved
same_event (file_access a) (file_access b) =
    a.id == b.id
    && eqb a.at b.at
    && a.actor == b.actor
    && a.session == b.session
    && a.asset_id == b.asset_id
    && a.file_id == b.file_id
    && same_flag a.sensitive b.sensitive
    && same_size a.bytes_read b.bytes_read
same_event _ _ = false

abbrev pub asset_before : Asset → Asset → Bool
asset_before a b = text_before a.id b.id

abbrev pub event_before : Event → Event → Bool
event_before a b =
    ltb (event_at a) (event_at b)
    || (eqb (event_at a) (event_at b) && text_before (event_id a) (event_id b))

-- `seen.get(event["id"])`
abbrev pub seen_event : String → List Event → Option Event
seen_event id seen = find (λ e. event_id e == id) seen

abbrev pub version_one : Value → Bool
version_one (int (pos n)) = eqb n 1
version_one _ = false

-- a list of so many values
unfoldable pub bounded_list : ℕ → ℕ → Value → Result (List Value)
bounded_list low high (arr vs) =
    if leb low (length (values vs)) && leb (length (values vs)) high
    then ok (values vs)
    else err validation
bounded_list low high _ = err validation

abbrev pub member_at : String → Value → Value
member_at k (obj fs) = at_key k fs
member_at k _ = null

abbrev pub add_event :
    Event → Option Event → Result (List Event) → Result (List Event) → Result (List Event)
add_event e none same more = more >>= λ rest. ok (e ∷ rest)
add_event e (some old) same more = if same_event old e then same else err validation

module _ (os : Platform) (key : Bytes) where
  -- one round of the loop over the assets
  unfoldable pub asset_of : List String → ℕ → Value → Result Asset
  asset_of seen as_of item = do
    fs ← object_keys asset_keys [] item
    aid ← identifier (at_key "id" fs)
    refuse (mem aid seen) validation
    kind ← kind_of (at_key "kind" fs)
    patch ← patch_of (at_key "patch_state" fs)
    observed ← parse_time os (at_key "observed_at" fs)
    refuse (ltb (as_of + five_minutes) observed) validation
    vulnerability ← vulnerability_of (at_key "vulnerability" fs)
    exposed ← nullable_bool (at_key "internet_exposed" fs)
    privileged ← nullable_bool (at_key "privileged_path" fs)
    sensitive ← nullable_bool (at_key "sensitive_path" fs)
    ok (record {
      id = aid;
      kind = kind;
      patch_state = patch;
      observed_at = seconds observed;
      vulnerability = vulnerability;
      internet_exposed = exposed;
      privileged_path = privileged;
      sensitive_path = sensitive;
    })

  unfoldable pub assets_of : List String → ℕ → List Value → Result (List Asset)
  assets_of seen as_of [] = ok []
  assets_of seen as_of (v ∷ vs) = do
    a ← asset_of seen as_of v
    rest ← assets_of (a.id ∷ seen) as_of vs
    ok (a ∷ rest)

  -- the branch of the type of an event, for an object
  unfoldable pub login_details : List String → Value → Result Details
  login_details assets item = do
    fs ← object_keys login_keys [] item
    gateway ← identifier (at_key "gateway_id" fs)
    require (mem gateway assets) validation
    success ← plain_bool (at_key "success" fs)
    privileged ← nullable_bool (at_key "privileged" fs)
    trusted ← nullable_bool (at_key "device_trusted" fs)
    approved ← nullable_bool (at_key "approved" fs)
    ok (of_login gateway success privileged trusted approved)

  unfoldable pub file_details : List String → Value → Result Details
  file_details assets item = do
    fs ← object_keys file_keys [] item
    asset ← identifier (at_key "asset_id" fs)
    require (mem asset assets) validation
    bytes ← size_of (at_key "bytes_read" fs)
    file ← pseudonym os key "file" (at_key "file_id" fs)
    sensitive ← nullable_bool (at_key "sensitive" fs)
    ok (of_file asset file sensitive bytes)

  unfoldable pub details_of : List String → Value → Result Details
  details_of assets item =
      if is_text "login" (member "type" item)
      then login_details assets item
      else if is_text "file_access" (member "type" item)
      then file_details assets item
      else err validation

  -- one round of the loop over the events, up to the event that it builds
  unfoldable pub event_of : List String → ℕ → Value → Result Event
  event_of assets as_of item = do
    details ← details_of assets item
    at ← parse_time os (member_at "at" item)
    refuse (ltb (as_of + five_minutes) at) validation
    id ← identifier (member_at "id" item)
    actor ← pseudonym os key "actor" (member_at "actor" item)
    session ← pseudonym os key "session" (member_at "session" item)
    ok (event id (seconds at) actor session details)

  -- the end of the round: a repeated event is skipped
  unfoldable pub events_of : List Event → List String → ℕ → List Value → Result (List Event)
  events_of seen assets as_of [] = ok []
  events_of seen assets as_of (v ∷ vs) = do
    e ← event_of assets as_of v
    let same = events_of seen assets as_of vs
    let more = events_of (e ∷ seen) assets as_of vs
    add_event e (seen_event (event_id e) seen) same more

  unfoldable pub normalize : SourceMode → ℕ → ℕ → ℕ → Bool → Value → Result Document
  normalize mode now max_events max_assets verified raw = do
    fs ← object_keys ("schema_version" ∷ "as_of" ∷ "assets" ∷ "events" ∷ []) ("provenance" ∷ []) raw
    require (version_one (at_key "schema_version" fs)) validation
    as_of ← parse_time os (at_key "as_of" fs)
    refuse (ltb (now + five_minutes) as_of) validation
    raw_assets ← bounded_list 1 max_assets (at_key "assets" fs)
    raw_events ← bounded_list 0 max_events (at_key "events" fs)
    sources ← provenance verified (get "provenance" fs)
    assets ← assets_of [] as_of raw_assets
    events ← events_of [] (map (λ a. a.id) assets) as_of raw_events
    ok (record {
      as_of = seconds as_of;
      source_mode = mode;
      provenance = sources;
      assets = sort_by asset_before assets;
      events = sort_by event_before events;
    })
