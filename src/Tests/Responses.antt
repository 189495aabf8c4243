-- ===== src/Tests/Responses.antt =====
-- An approved proposal that switches a registered rule off.
use aisecure.Prelude.{List, [], ◌∷◌, ◌≡◌, refl, String, Option, some, true}
use aisecure.Json.{Value, obj, arr, items, fields, num, str, bool}
use aisecure.Text.{take_text, strip_prefix}
use aisecure.Preflight.{byte_length}
use aisecure.Cipher as C
use aisecure.Platform.{Platform, Bytes}
use aisecure.Cipher.{encrypt, decrypt}
use aisecure.Schema.{is_id, object_keys, is_sha256}
use aisecure.Remote.{equals_number}
use aisecure.Gateway.Safety.{absent, assert_clear}
use aisecure.Gateway.Evidence.{
  State, Evidence, receipt_of, set_report, verify, verify_rows, reserve, reserve_new, reserve_if,
  finish,
}
use aisecure.Gateway.Evidence as E
use aisecure.Control.{ident, integer, recent, exact_keys, opaque}
use aisecure.Control.Entry.{is_rule, counts_fit, pseudonym_of, entry}
use aisecure.Control.Device.{
  DeviceCall, read, write, check_device, rule_status, revision_of, state_of, request, read_state,
  apply_operation,
}
use aisecure.Control.Response.{
  operation_of, state_hash_of, check_proposal, role_of, key_of, signature_of, check_proof,
  independent, two_proofs, verify_pair, Adapter, World, on_books, on_device, caught, dispatch,
  attempt, carry_out, replay_or, execute,
}
use aisecure.Control.Guarded.{writes, WroteGuarded, execute-WroteGuarded}
use aisecure.Tests.Toy.{toy, replicate, unary, decode, tail}
use aisecure.Tests.Chains.{document, program}

abbrev tip : String
tip = "0123456789abcdef0123456789abcdef0123456789abcdef0123456789abcdef"

abbrev os : Platform
os = record (toy document) {
  sha256 = λ s. tip;
  b64decode = λ s. some (replicate 64);
  decimal = λ n. "7";
}

abbrev self : Evidence
self = record { key = replicate 32; cipher_key = []; limit = 100 }

abbrev key : Bytes
key = replicate 32

abbrev rule : String → Value
rule status = obj (
    fields (
      ("policyid", num 7)
      ∷ ("uuid", str "u-7")
      ∷ ("action", str "accept")
      ∷ ("status", str status)
      ∷ []))

abbrev reply : String → String → Value
reply method status = obj (
    fields (
      ("status", str "success")
      ∷ ("http_method", str method)
      ∷ ("vdom", str "root")
      ∷ ("results", arr (items (rule status ∷ [])))
      ∷ ("revision", str "r-1")
      ∷ []))

abbrev last_written : List String → String
last_written [] = "enable"
last_written (status ∷ more) = status

abbrev device : List DeviceCall → DeviceCall → Option Value
device calls read = some (reply "GET" (last_written (writes calls)))
device calls (write status) = some (reply "PUT" status)

abbrev adapter : Adapter
adapter = record {
  target = record { id = "fw-1"; policy_id = 7; vdom = "root"; expected_uuid = "u-7" };
  deployment_verified = true;
  network = device;
}

abbrev proposal : Value
proposal = obj (
    fields (
      ("id", str "p-1")
      ∷ ("target", str "fw-1")
      ∷ ("operation", str "disable_registered_rule")
      ∷ ("state_hash", str tip)
      ∷ ("expires_at", num 1200)
      ∷ ("policy", str "response-1")
      ∷ ("rollback_requires_new_approval", bool true)
      ∷ []))

abbrev proof : String → String → Value
proof approver role = obj (
    fields (
      (
        "claim",
        obj (
            fields (
              ("proposal_sha256", str tip)
              ∷ ("approver", str approver)
              ∷ ("role", str role)
              ∷ ("issued_at", num 990)
              ∷ ("expires_at", num 1100)
              ∷ ("decision", str "approve")
              ∷ [])),
      )
      ∷ ("signature", str "s")
      ∷ []))

abbrev proofs : Value
proofs = arr (items (proof "ann" "primary" ∷ proof "bob" "secondary" ∷ []))

abbrev keys : List (String × Bytes)
keys = ("ann", replicate 32) ∷ ("bob", 1 ∷ replicate 31) ∷ []

abbrev adapters : List (String × Adapter)
adapters = ("fw-1", adapter) ∷ []

abbrev world : World
world = record {
  books = record {
    db = record { anchor = ""; anchor_seq = 0; journal = []; receipts = [] };
    readings = 0;
    draws = 0;
  };
  calls = [];
}

abbrev after : World
after = (execute os self key adapters keys absent absent absent true 1000 proposal proofs world).1

unfoldable steps : Unit {0}
unfolding is_id object_keys is_sha256 equals_number assert_clear take_text replicate encrypt decrypt
    receipt_of set_report verify verify_rows reserve reserve_new reserve_if finish byte_length
    strip_prefix unary decode tail C.drop E.row_mac E.opened E.now E.sealed E.insert_row
    E.insert_receipt E.update_receipt E.append_row E.transaction E.read_report E.no_event
    E.count_pending E.replay ident integer recent exact_keys opaque is_rule counts_fit pseudonym_of
    entry check_device rule_status revision_of state_of request read_state apply_operation
    operation_of state_hash_of check_proposal role_of key_of signature_of check_proof independent
    two_proofs verify_pair on_books on_device caught dispatch attempt carry_out replay_or execute
steps = tt

switched_off : writes after.calls ≡ "disable" ∷ []
unfolding steps program
switched_off = refl

execute-WroteGuarded_example :
    WroteGuarded os self key adapters keys absent absent absent true 1000 proposal proofs world
      after
execute-WroteGuarded_example =
    execute-WroteGuarded os self key adapters keys absent absent absent true 1000 proposal proofs
      world
