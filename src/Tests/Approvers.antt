-- ===== src/Tests/Approvers.antt =====
-- Two signed approvals of one proposal.
use aisecure.Prelude.{String, List, [], ◌∷◌, some, ◌≡◌, refl}
use aisecure.Json.{Value, Fields, obj, fields, num, str}
use aisecure.Result.{ok}
use aisecure.Text.{strip}
use aisecure.Platform.{Bytes}
use aisecure.Schema.{identifier, is_id, object_keys, parse_time}
use aisecure.Store.Approvals.{validate_assertions}
use aisecure.Approvals.{
  b64url, of_length, equals_one, plain_text, known_role, known_action, in_window, keys_of,
  load_public_keys, validate_claim, signed, verify_approval, verify_pair,
}
use aisecure.Approvals.Verified.{Pair, verify_pair-Pair, verify_pair-validate_assertions}
use aisecure.Tests.Toy.{replicate}
use aisecure.Tests.Chains.{os}

unfoldable checks : Unit {0}
unfolding identifier is_id object_keys parse_time b64url of_length equals_one plain_text known_role
    known_action in_window keys_of load_public_keys validate_claim signed verify_approval
    verify_pair replicate
checks = tt

abbrev encoded_key : Value
encoded_key = str "AAAAAAAAAAAAAAAAAAAAAAAAAAAAAAAA"

abbrev registry : Value
registry = obj (fields (("ann", encoded_key) ∷ ("bob", encoded_key) ∷ []))

abbrev claim : String → String → Fields
claim role approver = fields (
    ("schema_version", num 1)
    ∷ ("proposal_id", str "p-1")
    ∷ ("snapshot_id", str "s-1")
    ∷ ("action", str "revoke_session")
    ∷ ("approver", str approver)
    ∷ ("role", str role)
    ∷ ("decision", str "approve")
    ∷ ("issued_at", str "t")
    ∷ ("expires_at", str "t")
    ∷ ("nonce", str "0123456789abcdef")
    ∷ [])

abbrev signed_file : String → String → Value
signed_file role approver = obj (
    fields (
      ("payload", obj (claim role approver))
      ∷ ("signature", str "AAAAAAAAAAAAAAAAAAAAAAAAAAAAAAAAAAAAAAAAAAAAAAAAAAAAAAAAAAAAAAAA")
      ∷ []))

verified :
    verify_pair os "p-1" "s-1" 1 2
      (some (signed_file "primary" "ann"))
      (some (signed_file "secondary" "bob"))
      (some registry)
    ≡ ok (claim "primary" "ann", claim "secondary" "bob")
unfolding checks
verified = refl

verify_pair-Pair_example :
    (keys : List (String × Bytes)) × (load_public_keys os (some registry) ≡ ok keys)
    × Pair os "p-1" "s-1" keys 1 2 (claim "primary" "ann") (claim "secondary" "bob")
verify_pair-Pair_example =
    verify_pair-Pair os "p-1" "s-1" 1 2 (some (signed_file "primary" "ann"))
      (some (signed_file "secondary" "bob")) (some registry) (claim "primary" "ann")
      (claim "secondary" "bob") verified

verify_pair-validate_assertions_example :
    validate_assertions "p-1" "s-1" "revoke_session" "ann" "bob"
      (some (obj (claim "primary" "ann") ∷ obj (claim "secondary" "bob") ∷ []))
    ≡ ok tt
unfolding strip
verify_pair-validate_assertions_example =
    verify_pair-validate_assertions os "p-1" "s-1" 1 2 (some (signed_file "primary" "ann"))
      (some (signed_file "secondary" "bob")) (some registry) (claim "primary" "ann")
      (claim "secondary" "bob") verified
