-- ===== src/Schema/WellFormed.antt =====
-- What `normalize` guarantees of the snapshot that it returns.
use aisecure.Prelude.{
  ℕ, suc, ◌+◌, ◌≤◌, ◌≡◌, refl, ap, ◌∙◌, String, List, [], ◌∷◌, map, Option, none, some, Bool, true,
  false, arith, ltb, length, mem, sort_by, All, All-imp, Distinct, All-sort_by, length-sort_by,
  mem-sort_by, Distinct-sort_by, eq_iff, if◌then◌else◌,
}
use mathlib.Core.Path.{subst}
use aisecure.Json.{Value, get, at_key, null, bool, int, float, str, arr, obj, pos, negsuc}
use aisecure.Result.{
  ok_value, Result, ok, err, require, refuse, >>=-ok, require_ok, refuse_ok, validation,
}
use aisecure.Document.{Document, Asset, Event, login, file_access, Source, SourceMode}
use aisecure.Platform.{Platform, Bytes}
use aisecure.Schema.{
  identifier, object_keys, nullable_bool, number, provenance, parse_time, pseudonym, seconds,
}
use aisecure.Schema.Normalize.{
  five_minutes, kind_of, patch_of, plain_bool, vulnerability_of, size_of, Details, of_login,
  of_file, event, event_id, same_event, asset_before, event_before, seen_event, member_at,
  add_event, bounded_list, asset_of, assets_of, login_details, file_details, details_of, event_of,
  events_of, version_one, normalize, asset_keys, login_keys, file_keys,
}
use aisecure.Schema.Fits.{
  AssetFits, EventFits, asset_ids, WellFormed, vulnerability-CvssFits, in_time, le_step, unseen,
  AllVerified, provenance-verified, bounded_list-bounds,
}

module _ (os : Platform) (key : Bytes) where
  asset-Fits :
      (seen : List String) (as_of : ℕ) (item : Value) (a : Asset)
      → asset_of os key seen as_of item ≡ ok a
      → AssetFits (seconds as_of) a × (mem a.id seen ≡ false)
  unfolding asset_of
  asset-Fits seen as_of item a e =
      let (fs, _, e1) = >>=-ok (object_keys asset_keys [] item) _ a e in
      let (aid, _, e2) = >>=-ok (identifier (at_key "id" fs)) _ a e1 in
      let (u, new, e3) = >>=-ok (refuse (mem aid seen) validation) _ a e2 in
      let (_, _, e4) = >>=-ok (kind_of (at_key "kind" fs)) _ a e3 in
      let (_, _, e5) = >>=-ok (patch_of (at_key "patch_state" fs)) _ a e4 in
      let (observed, _, e6) = >>=-ok (parse_time os (at_key "observed_at" fs)) _ a e5 in
      let (w, past, e7) = >>=-ok (refuse (ltb (as_of + five_minutes) observed) validation) _ a e6 in
      let (vuln, cvss, e8) = >>=-ok (vulnerability_of (at_key "vulnerability" fs)) _ a e7 in
      let (_, _, e9) = >>=-ok (nullable_bool (at_key "internet_exposed" fs)) _ a e8 in
      let (_, _, e10) = >>=-ok (nullable_bool (at_key "privileged_path" fs)) _ a e9 in
      let (_, _, e11) = >>=-ok (nullable_bool (at_key "sensitive_path" fs)) _ a e10 in
      subst (λ (b : Asset). AssetFits (seconds as_of) b × (mem b.id seen ≡ false))
        (ok_value _ a e11)
        (
          (
            in_time as_of observed (refuse_ok _ _ w past),
            vulnerability-CvssFits (at_key "vulnerability" fs) vuln cvss,
          ),
          refuse_ok _ _ u new,
        )

  -- what the loop over the assets returns, when it has seen some identifiers
  record AssetsFit (seen : List String) (as_of : ℕ) (vs : List Value) (out : List Asset)
      : Type 0 where
    pub fit : All (AssetFits (seconds as_of)) out
    pub distinct : Distinct (asset_ids out)
    pub new : (k : String) → mem k seen ≡ true → mem k (asset_ids out) ≡ false
    pub count : length out ≡ length vs

  assets-AssetsFit :
      (seen : List String) (as_of : ℕ) (vs : List Value) (out : List Asset)
      → assets_of os key seen as_of vs ≡ ok out
      → AssetsFit seen as_of vs out
  unfolding assets_of
  assets-AssetsFit seen as_of [] out e =
      subst (AssetsFit seen as_of []) (ok_value [] out e)
        (record { fit = tt; distinct = tt; new = λ k h. refl; count = refl })
  assets-AssetsFit seen as_of (v ∷ vs) out e =
      let (a, one_round, e1) = >>=-ok (asset_of os key seen as_of v) _ out e in
      let (rest, more, e2) = >>=-ok (assets_of os key (a.id ∷ seen) as_of vs) _ out e1 in
      let (fit, new) = asset-Fits seen as_of v a one_round in
      let later = assets-AssetsFit (a.id ∷ seen) as_of vs rest more in
      let itself : mem a.id (a.id ∷ seen) ≡ true = rw ((eq_iff a.id a.id).1 refl) refl in
      subst (AssetsFit seen as_of (v ∷ vs)) (ok_value _ out e2) (record {
        fit = (fit, later.fit);
        distinct = (later.new a.id itself, later.distinct);
        new = λ k. unseen a.id k seen (asset_ids rest) new (later.new k);
        count = ap suc later.count;
      })

  size-within : (v : Value) (n : ℕ) → size_of v ≡ ok (some n) → n ≤ 1000000000000
  unfolding size_of number
  size-within (int (pos m)) n e = ground arith
  size-within (int (negsuc m)) n e = ground arith
  size-within null n e = cc
  size-within (bool b) n e = cc
  size-within (float x) n e = cc
  size-within (str s) n e = cc
  size-within (arr xs) n e = cc
  size-within (obj fs) n e = cc

  -- what the branches of the type check of the fields
  abbrev DetailsFit : List String → Details → Type 0
  DetailsFit assets (of_login gateway s p t a) = mem gateway assets ≡ true
  DetailsFit assets (of_file asset f s bytes) =
      (mem asset assets ≡ true) × ((n : ℕ) → bytes ≡ some n → n ≤ 1000000000000)

  login-DetailsFit :
      (assets : List String) (item : Value) (d : Details)
      → login_details os key assets item ≡ ok d
      → DetailsFit assets d
  unfolding login_details
  login-DetailsFit assets item d e =
      let (fs, _, e1) = >>=-ok (object_keys login_keys [] item) _ d e in
      let (gateway, _, e2) = >>=-ok (identifier (at_key "gateway_id" fs)) _ d e1 in
      let (u, known, e3) = >>=-ok (require (mem gateway assets) validation) _ d e2 in
      let (_, _, e4) = >>=-ok (plain_bool (at_key "success" fs)) _ d e3 in
      let (_, _, e5) = >>=-ok (nullable_bool (at_key "privileged" fs)) _ d e4 in
      let (_, _, e6) = >>=-ok (nullable_bool (at_key "device_trusted" fs)) _ d e5 in
      let (_, _, e7) = >>=-ok (nullable_bool (at_key "approved" fs)) _ d e6 in
      subst (DetailsFit assets) (ok_value _ d e7) (require_ok _ _ u known)

  file-DetailsFit :
      (assets : List String) (item : Value) (d : Details)
      → file_details os key assets item ≡ ok d
      → DetailsFit assets d
  unfolding file_details
  file-DetailsFit assets item d e =
      let (fs, _, e1) = >>=-ok (object_keys file_keys [] item) _ d e in
      let (asset, _, e2) = >>=-ok (identifier (at_key "asset_id" fs)) _ d e1 in
      let (u, known, e3) = >>=-ok (require (mem asset assets) validation) _ d e2 in
      let (bytes, size, e4) = >>=-ok (size_of (at_key "bytes_read" fs)) _ d e3 in
      let (_, _, e5) = >>=-ok (pseudonym os key "file" (at_key "file_id" fs)) _ d e4 in
      let (_, _, e6) = >>=-ok (nullable_bool (at_key "sensitive" fs)) _ d e5 in
      subst (DetailsFit assets) (ok_value _ d e6) (
        require_ok _ _ u known,
        λ n same. size-within (at_key "bytes_read" fs) n (size ∙ ap (λ (b : Option ℕ). ok b) same),
      )

  details-DetailsFit :
      (assets : List String) (item : Value) (d : Details)
      → details_of os key assets item ≡ ok d
      → DetailsFit assets d
  unfolding details_of
  details-DetailsFit assets item d e =
      ground (arith, login-DetailsFit assets item d, file-DetailsFit assets item d)

  event-EventFits :
      (assets : List String) (as_of at : ℕ) (id actor session : String) (d : Details)
      → DetailsFit assets d
      → seconds at ≤ seconds as_of + 300
      → EventFits (seconds as_of) assets (event id (seconds at) actor session d)
  event-EventFits assets as_of at id actor session (of_login g s p t a) fit past = (past, fit)
  event-EventFits assets as_of at id actor session (of_file asset f s bytes) (known, size) past =
      (past, known, size)

  event_of-EventFits :
      (assets : List String) (as_of : ℕ) (item : Value) (x : Event)
      → event_of os key assets as_of item ≡ ok x
      → EventFits (seconds as_of) assets x
  unfolding event_of
  event_of-EventFits assets as_of item x e =
      let (details, fit, e1) = >>=-ok (details_of os key assets item) _ x e in
      let (at, _, e2) = >>=-ok (parse_time os (member_at "at" item)) _ x e1 in
      let (u, past, e3) = >>=-ok (refuse (ltb (as_of + five_minutes) at) validation) _ x e2 in
      let (id, _, e4) = >>=-ok (identifier (member_at "id" item)) _ x e3 in
      let (actor, _, e5) = >>=-ok (pseudonym os key "actor" (member_at "actor" item)) _ x e4 in
      let (session, _, e6) =
        >>=-ok (pseudonym os key "session" (member_at "session" item)) _ x e5 in
      subst (EventFits (seconds as_of) assets) (ok_value _ x e6) (
        event-EventFits assets as_of at id actor session details
          (details-DetailsFit assets item details fit) (in_time as_of at (refuse_ok _ _ u past)))

  -- what the loop over the events returns, when it has seen some events
  record EventsFit (seen : List Event) (assets : List String) (as_of : ℕ) (vs : List Value)
      (out : List Event) : Type 0 where
    pub fit : All (EventFits (seconds as_of) assets) out
    pub distinct : Distinct (map event_id out)
    pub new : (k : String) → mem k (map event_id seen) ≡ true → mem k (map event_id out) ≡ false
    pub count : length out ≤ length vs

  not_seen :
      (k : String) (seen : List Event)
      → seen_event k seen ≡ none
      → mem k (map event_id seen) ≡ false
  not_seen k [] h = refl
  not_seen k (x ∷ xs) h = ground (arith, not_seen k xs)

  older_event :
      (x : Event) (seen : List Event) (assets : List String) (as_of : ℕ) (vs : List Value)
      (rest : List Event)
      → seen_event (event_id x) seen ≡ none
      → EventsFit (x ∷ seen) assets as_of vs rest
      → (k : String) → mem k (map event_id seen) ≡ true
      → mem k (map event_id (x ∷ rest)) ≡ false
  older_event x seen assets as_of vs rest new later k h =
      unseen (event_id x) k (map event_id seen) (map event_id rest) (not_seen (event_id x) seen new)
        (later.new k) h

  added-EventsFit :
      (seen : List Event) (assets : List String) (as_of : ℕ) (v : Value) (vs : List Value)
      (x : Event) (rest : List Event)
      → EventFits (seconds as_of) assets x
      → seen_event (event_id x) seen ≡ none
      → EventsFit (x ∷ seen) assets as_of vs rest
      → EventsFit seen assets as_of (v ∷ vs) (x ∷ rest)
  added-EventsFit seen assets as_of v vs x rest fit new later =
      let before = older_event x seen assets as_of vs rest new later in
      let shorter : length (x ∷ rest) ≤ length (v ∷ vs) =
        le_step (length rest) (length vs) later.count in
      record {
        fit = (fit, later.fit);
        distinct = (
          later.new (event_id x) (rw ((eq_iff (event_id x) (event_id x)).1 refl) refl),
          later.distinct,
        );
        new = before;
        count = shorter;
      }

  add_event-EventsFit :
      (seen : List Event) (assets : List String) (as_of : ℕ) (v : Value) (vs : List Value)
      (x : Event) (o : Option Event) (same more : Result (List Event)) (out : List Event)
      → EventFits (seconds as_of) assets x
      → seen_event (event_id x) seen ≡ o
      → add_event x o same more ≡ ok out
      → ((rest : List Event) → more ≡ ok rest → EventsFit (x ∷ seen) assets as_of vs rest)
      → ((rest : List Event) → same ≡ ok rest → EventsFit seen assets as_of vs rest)
      → EventsFit seen assets as_of (v ∷ vs) out
  add_event-EventsFit seen assets as_of v vs x none same more out fit new e later skipped =
      let (rest, e1, e2) = >>=-ok more _ out e in
      subst (EventsFit seen assets as_of (v ∷ vs)) (ok_value (x ∷ rest) out e2)
        (added-EventsFit seen assets as_of v vs x rest fit new (later rest e1))
  add_event-EventsFit seen assets as_of v vs x (some old) same more out fit new e later skipped =
      let rest = skipped out (agreed x old same out e) in
      let shorter : length out ≤ length (v ∷ vs) = weaken (length out) (length vs) rest.count in
      record { fit = rest.fit; distinct = rest.distinct; new = rest.new; count = shorter }
    where
      agreed :
          (x old : Event) (same : Result (List Event)) (out : List Event)
          → (if same_event old x then same else err validation) ≡ ok out
          → same ≡ ok out
      agreed x old same out e = ground arith

      weaken : (m n : ℕ) → m ≤ n → m ≤ suc n
      weaken m n h = omega arith

  events-EventsFit :
      (seen : List Event) (assets : List String) (as_of : ℕ) (vs : List Value) (out : List Event)
      → events_of os key seen assets as_of vs ≡ ok out
      → EventsFit seen assets as_of vs out
  unfolding events_of
  events-EventsFit seen assets as_of [] out e =
      subst (EventsFit seen assets as_of []) (ok_value [] out e)
        (record { fit = tt; distinct = tt; new = λ k h. refl; count = omega arith })
  events-EventsFit seen assets as_of (v ∷ vs) out e =
      let (x, fit, e1) = >>=-ok (event_of os key assets as_of v) _ out e in
      add_event-EventsFit seen assets as_of v vs x (seen_event (event_id x) seen) _ _ out
        (event_of-EventFits assets as_of v x fit) refl e1
        (λ rest more. events-EventsFit (x ∷ seen) assets as_of vs rest more)
        (λ rest more. events-EventsFit seen assets as_of vs rest more)

  same_length : {m n k high : ℕ} → m ≡ n → n ≡ k → 1 ≤ k → k ≤ high → (1 ≤ m) × (m ≤ high)
  same_length e f low high = ground arith

  no_longer : {m n k high : ℕ} → m ≡ n → n ≤ k → k ≤ high → m ≤ high
  no_longer e f h = omega arith

  -- sorting the assets registers the same identifiers
  on_sorted :
      (as_of : ℕ) (assets : List Asset) (y : Event)
      → EventFits as_of (asset_ids assets) y
      → EventFits as_of (asset_ids (sort_by asset_before assets)) y
  on_sorted as_of assets (login y) (past, known) =
      (past, mem-sort_by asset_before (λ a. a.id) y.gateway_id assets ∙ known)
  on_sorted as_of assets (file_access y) (past, known, size) =
      (past, mem-sort_by asset_before (λ a. a.id) y.asset_id assets ∙ known, size)

  -- the snapshot of what the parts returned
  sorted-WellFormed :
      (mode : SourceMode) (max_events max_assets as_of : ℕ) (verified : Bool)
      (sources : List Source) (raw_assets raw_events : List Value) (assets : List Asset)
      (events : List Event)
      → (1 ≤ length raw_assets) × (length raw_assets ≤ max_assets)
      → (0 ≤ length raw_events) × (length raw_events ≤ max_events)
      → AllVerified verified sources
      → AssetsFit [] as_of raw_assets assets
      → EventsFit [] (asset_ids assets) as_of raw_events events
      → WellFormed mode max_events max_assets verified (record {
        as_of = seconds as_of;
        source_mode = mode;
        provenance = sources;
        assets = sort_by asset_before assets;
        events = sort_by event_before events;
      })
  sorted-WellFormed mode max_events max_assets as_of verified sources raw_assets raw_events assets
        events (some_asset, few_assets) (none_needed, few_events) origin a x =
      let (low, high) =
        same_length (length-sort_by asset_before assets) a.count some_asset few_assets in
      let shorter : length (sort_by event_before events) ≤ max_events =
        no_longer (length-sort_by event_before events) x.count few_events in
      record {
        mode_given = refl;
        asset_count = (low, high);
        event_count = shorter;
        assets_fit = All-sort_by asset_before (AssetFits (seconds as_of)) assets a.fit;
        assets_distinct = Distinct-sort_by asset_before (λ a. a.id) assets a.distinct;
        events_fit =
            All-sort_by event_before
              (EventFits (seconds as_of) (asset_ids (sort_by asset_before assets))) events
              (All-imp events (λ y. on_sorted (seconds as_of) assets y) x.fit);
        events_distinct = Distinct-sort_by event_before event_id events x.distinct;
        origin = origin;
      }

  -- When `normalize` returns a snapshot, it has the mode given, between one and max_assets assets
  -- and at most max_events events. The identifiers of the assets are distinct, and so are those of
  -- the events. No observation and no event lies more than 300 seconds after the time of the
  -- snapshot, and no CVSS score exceeds 10. Every login names a registered asset as its gateway,
  -- every file access names a registered asset and at most 10^12 bytes read. Every source carries
  -- the flag given for verified.
  pub normalize-WellFormed :
      (mode : SourceMode) (now max_events max_assets : ℕ) (verified : Bool) (raw : Value)
      (d : Document)
      → normalize os key mode now max_events max_assets verified raw ≡ ok d
      → WellFormed mode max_events max_assets verified d
  unfolding normalize
  normalize-WellFormed mode now max_events max_assets verified raw d e =
      let (fs, _, e1) =
        >>=-ok
          (object_keys ("schema_version" ∷ "as_of" ∷ "assets" ∷ "events" ∷ []) ("provenance" ∷ [])
            raw)
          _ d e in
      let (_, _, e2) =
        >>=-ok (require (version_one (at_key "schema_version" fs)) validation) _ d e1 in
      let (as_of, _, e3) = >>=-ok (parse_time os (at_key "as_of" fs)) _ d e2 in
      let (_, _, e4) = >>=-ok (refuse (ltb (now + five_minutes) as_of) validation) _ d e3 in
      let (raw_assets, few, e5) = >>=-ok (bounded_list 1 max_assets (at_key "assets" fs)) _ d e4 in
      let (raw_events, short, e6) =
        >>=-ok (bounded_list 0 max_events (at_key "events" fs)) _ d e5 in
      let (sources, origin, e7) = >>=-ok (provenance verified (get "provenance" fs)) _ d e6 in
      let (assets, a, e8) = >>=-ok (assets_of os key [] as_of raw_assets) _ d e7 in
      let (events, x, e9) =
        >>=-ok (events_of os key [] (map (λ a. a.id) assets) as_of raw_events) _ d e8 in
      subst (WellFormed mode max_events max_assets verified) (ok_value _ d e9) (
        sorted-WellFormed mode max_events max_assets as_of verified sources raw_assets raw_events
          assets events (bounded_list-bounds 1 max_assets (at_key "assets" fs) raw_assets few)
          (bounded_list-bounds 0 max_events (at_key "events" fs) raw_events short)
          (provenance-verified verified (get "provenance" fs) sources origin)
          (assets-AssetsFit [] as_of raw_assets assets a)
          (events-EventsFit [] (asset_ids assets) as_of raw_events events x))
