-- ===== src/Posture/Dlp.antt =====
-- `normalize_dlp` and `dlp_findings` of aisecure/posture.py: reports of data transfers, and the
-- findings on them.
use aisecure.Prelude.{
  ℕ, zero, suc, ◌+◌, ◌*◌, ◌^◌, String, List, [], ◌∷◌, ◌++◌, Option, none, some, Bool, ◌&&◌, ◌||◌,
  not, ◌==◌, ltb, leb, length, mem, lookup, put, text_eq, sort_by, map, any, if◌then◌else◌,
}
use aisecure.Result.{Result, ok, err, gateway, ◌>>=◌}
use aisecure.Json.{Value, null, int, pos, str, at_key}
use aisecure.Posture.{opaque_text, dict_of}
use aisecure.Posture.Assess.{short_text}

pub record Transfer : Type 0 where
  pub event_id : String
  pub source : String
  pub at : ℕ
  -- the digest of the actor
  pub actor : String
  pub operation : String
  pub tenant : String
  pub data_class : String
  pub bytes : Option ℕ
  pub outcome : String

-- one of some words
unfoldable pub word_of : List String → Value → Result String
word_of words (str s) = if mem s words then ok s else err gateway
word_of words _ = err gateway

-- an observation of the last 30 days, by a clock past them
unfoldable pub time_of : ℕ → Value → Result ℕ
time_of now (int (pos n)) =
    if leb now (n + 30 * 86400) && leb n (now + 60) then ok n else err gateway
time_of now _ = err gateway

unfoldable pub bytes_of : Value → Result (Option ℕ)
bytes_of null = ok none
bytes_of (int (pos n)) = if leb n (2 ^ 40) then ok (some n) else err gateway
bytes_of _ = err gateway

-- `normalize_dlp`
unfoldable pub normalize_dlp : (String → String) → ℕ → Value → Result Transfer
normalize_dlp digest now value = do
  fs ←
      dict_of
        ("event_id" ∷ "source" ∷ "at" ∷ "actor" ∷ "operation" ∷ "tenant" ∷ "data_class" ∷ "bytes"
          ∷ "outcome" ∷ [])
        value
  event_id ← opaque_text (at_key "event_id" fs)
  source ← opaque_text (at_key "source" fs)
  actor ← short_text 1 200 (at_key "actor" fs)
  at ← time_of now (at_key "at" fs)
  operation ← word_of ("upload" ∷ "usb" ∷ "sync" ∷ "download" ∷ []) (at_key "operation" fs)
  tenant ← word_of ("managed" ∷ "personal" ∷ "unknown" ∷ []) (at_key "tenant" fs)
  data_class ←
      word_of ("public" ∷ "internal" ∷ "confidential" ∷ "restricted" ∷ "unknown" ∷ [])
        (at_key "data_class" fs)
  outcome ← word_of ("blocked" ∷ "allowed" ∷ "unknown" ∷ []) (at_key "outcome" fs)
  bytes ← bytes_of (at_key "bytes" fs)
  ok (record {
    event_id = event_id;
    source = source;
    at = at;
    actor = digest actor;
    operation = operation;
    tenant = tenant;
    data_class = data_class;
    bytes = bytes;
    outcome = outcome;
  })

pub data DlpRule : Type 0 where
  dlp001 dlp002 : DlpRule

pub record DlpFinding : Type 0 where
  pub rule : DlpRule
  pub evidence_ids : List String
  pub observed_outcome : Option String

-- `identity in seen`
abbrev pub seen_before : Transfer → List Transfer → Bool
seen_before e seen = any (λ x. x.source == e.source && x.event_id == e.event_id) seen

-- the first report of each source and identifier
unfoldable pub first_reports : List Transfer → List Transfer → List Transfer
first_reports seen [] = []
first_reports seen (e ∷ es) =
    let skipped = first_reports seen es in
    let taken = first_reports (e ∷ seen) es in if seen_before e seen then skipped else e ∷ taken

abbrev pub is_outside : Transfer → Bool
is_outside e = e.tenant == "personal" || e.tenant == "unknown"

abbrev pub is_sensitive : Transfer → Bool
is_sensitive e =
    not (e.tenant == "managed") && (e.data_class == "confidential" || e.data_class == "restricted")

-- DLP-001, one for each sensitive transfer
unfoldable pub single_findings : List Transfer → List DlpFinding
single_findings [] = []
single_findings (e ∷ es) =
    let rest = single_findings es in
    if is_sensitive e
    then record { rule = dlp001; evidence_ids = e.event_id ∷ []; observed_outcome = some e.outcome }
      ∷ rest
    else rest

abbrev pub or_empty : Option (List Transfer) → List Transfer
or_empty none = []
or_empty (some es) = es

-- `groups[e['actor']].append(e)` for the transfers out of the organisation
unfoldable pub group_transfers :
    List (String × List Transfer) → List Transfer → List (String × List Transfer)
group_transfers groups [] = groups
group_transfers groups (e ∷ es) =
    let skipped = group_transfers groups es in
    let taken =
      group_transfers (put e.actor (or_empty (lookup e.actor groups) ++ (e ∷ [])) groups) es in
    if is_outside e then taken else skipped

abbrev pub earlier : Transfer → Transfer → Bool
earlier a b = ltb a.at b.at

-- `while e['at'] - items[left]['at'] > 86400: left += 1`
unfoldable pub evict : ℕ → List Transfer → List Transfer
evict now [] = []
evict now (e ∷ es) = let rest = evict now es in if ltb (e.at + 86400) now then rest else e ∷ es

-- the window that ends at each item; the first of three or more items
unfoldable pub first_window : List Transfer → List Transfer → Option (List Transfer)
first_window window [] = none
first_window window (e ∷ es) =
    let now = evict e.at (window ++ (e ∷ [])) in
    let later = first_window now es in if leb 3 (length now) then some now else later

abbrev take {ℓ} : {A : Type ℓ} → ℕ → List A → List A
take zero xs = []
take (suc n) [] = []
take (suc n) (x ∷ xs) = x ∷ take n xs

abbrev pub window_finding : Option (List Transfer) → List DlpFinding
window_finding none = []
window_finding (some window) =
    record {
      rule = dlp002;
      evidence_ids = take 100 (map (λ e. e.event_id) window);
      observed_outcome = none;
    }
    ∷ []

unfoldable pub group_finding : List Transfer → List DlpFinding
group_finding items = window_finding (first_window [] (sort_by earlier items))

unfoldable pub group_findings_of : List (String × List Transfer) → List DlpFinding
group_findings_of [] = []
group_findings_of ((actor, items) ∷ groups) = group_finding items ++ group_findings_of groups

-- an event, as `e.get('kind') != 'dlp_observation'` tells it
pub data DlpEvent : Type 0 where
  observation : Transfer → DlpEvent
  other_kind : DlpEvent

-- the events that the loop does not pass over for their kind
unfoldable pub observations : List DlpEvent → List Transfer
observations [] = []
observations (observation e ∷ es) = e ∷ observations es
observations (other_kind ∷ es) = observations es

-- `dlp_findings`
unfoldable pub dlp_findings : List DlpEvent → Result (List DlpFinding)
dlp_findings events =
    if ltb 10000 (length events)
    then err gateway
    else let fresh = first_reports [] (observations events) in
      ok (single_findings fresh ++ group_findings_of (group_transfers [] fresh))
