-- ===== src/Tests/Inputs.antt =====
-- A small input file: what `normalize` makes of it.
use aisecure.Prelude.{[], none, some, ◌∷◌, ◌≡◌, refl, true, false}
use aisecure.Json.{Value, obj, fields, num, str, arr, items, null, bool}
use aisecure.Result.{ok}
use aisecure.Document.{Document, imported, AssetKind, PatchState, login}
use aisecure.Text.{take_text}
use aisecure.Schema.{
  identifier, is_id, object_keys, nullable_bool, number, source_of, sources_of, provenance,
  parse_time, pseudonym,
}
use aisecure.Schema.Normalize.{
  kind_of, patch_of, cvss_of, vulnerability_of, plain_bool, size_of, same_event, bounded_list,
  asset_of, assets_of, login_details, file_details, details_of, event_of, events_of, normalize,
}
use aisecure.Schema.Fits.{WellFormed}
use aisecure.Schema.WellFormed.{normalize-WellFormed}
use aisecure.Tests.Chains.{os}

abbrev gateway : Value
gateway = obj (
    fields (
      ("id", str "vpn-1")
      ∷ ("kind", str "vpn")
      ∷ ("internet_exposed", bool true)
      ∷ ("privileged_path", null)
      ∷ ("sensitive_path", null)
      ∷ ("patch_state", str "pending")
      ∷ ("observed_at", str "t")
      ∷ ("vulnerability", null)
      ∷ []))

abbrev sign_in : Value
sign_in = obj (
    fields (
      ("id", str "e-1")
      ∷ ("type", str "login")
      ∷ ("at", str "t")
      ∷ ("actor", str "ann")
      ∷ ("session", str "s")
      ∷ ("gateway_id", str "vpn-1")
      ∷ ("success", bool true)
      ∷ ("privileged", null)
      ∷ ("device_trusted", bool false)
      ∷ ("approved", null)
      ∷ []))

abbrev pub input_file : Value
input_file = obj (
    fields (
      ("schema_version", num 1)
      ∷ ("as_of", str "t")
      ∷ ("assets", arr (items (gateway ∷ [])))
      ∷ ("events", arr (items (sign_in ∷ sign_in ∷ [])))
      ∷ []))

unfoldable pub reads : Unit {0}
unfolding identifier is_id object_keys nullable_bool number source_of sources_of provenance
    parse_time pseudonym kind_of patch_of cvss_of vulnerability_of plain_bool size_of same_event
    bounded_list asset_of assets_of login_details file_details details_of event_of events_of
    normalize take_text
reads = tt

abbrev snapshot_made : Document
snapshot_made = record {
  as_of = 1;
  source_mode = imported;
  provenance = [];
  assets =
      record {
        id = "vpn-1";
        kind = AssetKind.vpn;
        patch_state = PatchState.pending;
        observed_at = 1;
        vulnerability = none;
        internet_exposed = some true;
        privileged_path = none;
        sensitive_path = none;
      }
      ∷ [];
  events =
      login (record {
        id = "e-1";
        at = 1;
        actor = "actor-actor\0ann";
        session = "session-session\0s";
        gateway_id = "vpn-1";
        success = true;
        privileged = none;
        device_trusted = some false;
        approved = none;
      })
      ∷ [];
}

normalized_ok : normalize os [] imported 0 10 10 false input_file ≡ ok snapshot_made
unfolding reads
normalized_ok = refl

normalize-WellFormed_example : WellFormed imported 10 10 false snapshot_made
normalize-WellFormed_example =
    normalize-WellFormed os [] imported 0 10 10 false input_file snapshot_made normalized_ok
