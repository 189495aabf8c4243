-- ===== src/Tests/Postures.antt =====
-- Two ledgers of tools, and a device outside the range of an advisory.
use aisecure.Prelude.{
  ◌-◌, ◌&&◌, leb, List, [], ◌∷◌, ◌≡◌, ◌≢◌, ◌↔◌, refl, String, some, none, true, false, mem, lookup,
  text_eq, if◌then◌else◌,
}
use aisecure.Json.{Value, obj, arr, items, fields, str}
use aisecure.Result.{ok}
use aisecure.Schema.{object_keys, is_sha256}
use aisecure.Posture.{is_opaque, opaque_text, dict_of, list_of}
use aisecure.Posture.Tools.{
  Tool, hash_of, permission_of, permissions_of, tool_of, tools_of, validate, changed_names,
  audit_tools,
}
use aisecure.Posture.Reapproval.{audit_tools-changed}
use aisecure.Posture.Versions.{Unicode, number_from, part_of, parts_of, numeric_version}
use aisecure.Posture.Assess.{
  Advisory, Device, Sources, placed, matches_of, reasons_of, assess_device, no_match,
}
use aisecure.Posture.Unaffected.{Unaffected, assess_device-Unaffected}

unfoldable ledger : Unit {0}
unfolding object_keys is_sha256 is_opaque opaque_text dict_of list_of hash_of permission_of
    permissions_of tool_of tools_of validate changed_names audit_tools
ledger = tt

abbrev digest : String
digest = "0123456789abcdef0123456789abcdef0123456789abcdef0123456789abcdef"

abbrev tool : String → String → Value
tool name permission = obj (
    fields (
      ("id", str name)
      ∷ ("sha256", str digest)
      ∷ ("permissions", arr (items (str permission ∷ [])))
      ∷ ("publisher", str "ops")
      ∷ []))

abbrev manifest : Value
manifest =
    obj (fields (("tools", arr (items (tool "mail" "read" ∷ tool "files" "write" ∷ []))) ∷ []))

abbrev approved : Value
approved =
    obj (fields (("tools", arr (items (tool "files" "read" ∷ tool "mail" "read" ∷ []))) ∷ []))

audited : audit_tools manifest approved ≡ ok ("files" ∷ [])
unfolding ledger
audited = refl

audit_tools-changed_example :
    (current base : List (String × Tool)) × (validate manifest ≡ ok current)
    × (validate approved ≡ ok base)
    × ((name : String) (t : Tool)
        → lookup name current ≡ some t
        → (mem name ("files" ∷ []) ≡ true) ↔ (lookup name base ≢ some t))
audit_tools-changed_example = audit_tools-changed manifest approved ("files" ∷ []) audited

abbrev ascii : Unicode
ascii = record {
  digit = λ c. if leb 48 c && leb c 57 then some (c - 48) else none;
  casefold = λ s. s;
}

abbrev advisory : Advisory
advisory = record {
  vendor = "acme";
  product = "gate";
  cve = "CVE-2024-0001";
  introduced = "7.0";
  fixed = "7.2.5";
  source = "https://acme.example";
}

abbrev sources : Sources
sources = record {
  observed = 1000;
  advisories_at = 1000;
  kev_at = 1000;
  exploited = [];
  advisories = advisory ∷ [];
}

abbrev gate : Device
gate = record {
  id = "gate-1";
  vendor = "acme";
  product = "gate";
  version = "7.2.10";
  internet_exposed = some true;
  privileged_path = some false;
  sensitive_path = some false;
}

no_range : (assess_device ascii 2000 sources gate).standing ≡ no_match
unfolding number_from part_of parts_of numeric_version placed matches_of reasons_of assess_device
no_range = refl

assess_device-Unaffected_example : Unaffected ascii 2000 sources gate
assess_device-Unaffected_example = (assess_device-Unaffected ascii 2000 sources gate).0 no_range
