-- ===== src/Tests/Sinks.antt =====
-- A published checkpoint.
use Prim.Native.Char.{char, code}
use Prim.Native.String as T
use aisecure.Prelude.{
  zero, suc, ℕ, sym, ap, ◌∙◌, eq_iff, inl, inr, ◌==◌, ◌+◌, ◌%◌, ◌^◌, ◌/◌, eqb, if◌then◌else◌, List,
  [], ◌∷◌, ◌++◌, ◌≡◌, ◌*◌, refl, String, some, none, true, false,
}
use aisecure.Json.{end, obj, fields, num, str, float, finite, pos}
use aisecure.Result.{ok}
use aisecure.Rules.{one}
use aisecure.Schema.{is_sha256}
use aisecure.Store.State.{AuditRow, State}
use aisecure.Store.Audit.{row_mac, record_entry, verify_audit, zero_tip}
use aisecure.Platform.{Platform}
use aisecure.Store.Audit.Chain.{Unforgeable}
use aisecure.Remote.{Url, Reply, replied, is_local, has_extras, timeout_fits, equals_number}
use aisecure.AuditSink.{
  AuditSinkConfig, Publication, check_sink, checkpoint_of, check_payload, payload_value,
  accepted_status, check_acknowledgement, check_reply, publication, publish,
}
use aisecure.AuditSink.Checkpoint.{checkpoint_value, publish_checkpoint}
use aisecure.AuditSink.Acknowledged.{Acknowledged, publish-Acknowledged, publish_checkpoint-pins}
use aisecure.Tests.Toy.{replicate}
use aisecure.Tests.Chains.{program, os, self, empty}

abbrev address : Url
address = record {
  scheme = "https";
  hostname = some "sink.example";
  username = none;
  password = none;
  query = "";
  fragment = "";
}

abbrev tip : String
tip = "0123456789abcdef0123456789abcdef0123456789abcdef0123456789abcdef"

abbrev sink : AuditSinkConfig
sink = record {
  url = some address;
  secret = replicate 32;
  timeout = finite (pos (5 * one));
  allow_insecure_localhost = false;
}

unfoldable publishing : Unit {0}
unfolding is_sha256 is_local has_extras timeout_fits equals_number replicate check_sink
    checkpoint_of check_payload payload_value accepted_status check_acknowledgement check_reply
    publication publish publish_checkpoint
publishing = tt

abbrev echo : Publication → Reply
echo request = replied 200 90 (
    some (
      obj (
        fields (
          ("status", str "accepted")
          ∷ ("count", float (finite (pos (3 * one))))
          ∷ ("tip", str request.tip)
          ∷ []))))

abbrev echo_exactly : Publication → Reply
echo_exactly request = replied 200 90 (
    some (
      obj (fields (("status", str "accepted") ∷ ("count", num 1) ∷ ("tip", str request.tip) ∷ []))))

published : publish os sink echo 5 (checkpoint_value 3 tip) ≡ ok ("accepted", (3, tip))
unfolding publishing program one
published = refl

publish-Acknowledged_example :
    (check_payload (checkpoint_value 3 tip) ≡ ok (3, tip))
    × Acknowledged 3 tip "accepted" (echo (publication os sink echo 3 tip (os.unix_time 5)))
publish-Acknowledged_example =
    publish-Acknowledged os sink echo 5 (checkpoint_value 3 tip) "accepted" 3 tip published

-- a MAC of 64 hexadecimal digits: a fingerprint of its message in binary
unfoldable fingerprint : String → ℕ
fingerprint T.[] = 1
fingerprint (T.◌∷◌ c s) = (fingerprint s * 1000003 + code c) % 2 ^ 64

unfoldable digits : ℕ → ℕ → String
digits zero n = T.[]
digits (suc k) n = T.◌∷◌ (if eqb (n % 2) 0 then char 48 tt else char 49 tt) (digits k (n / 2))

abbrev sealed : Platform
sealed = record os { hmac = λ key message. digits 64 (fingerprint message) }

unfoldable sealed_program : Unit {0}
unfolding program publishing one digits fingerprint record_entry
sealed_program = tt

abbrev noted : State
noted = (record_entry sealed self "note" (obj end) empty).1

abbrev later : State
later = (publish_checkpoint sealed self sink echo_exactly 5 noted).1

abbrev noted_tip : String
noted_tip = "1001000001010111011101001010000010110011110101000110011011001100"

abbrev first_row : AuditRow
first_row = record {
  seq = 1;
  at = "t";
  action = "note";
  payload = "";
  prev = zero_tip;
  mac = noted_tip;
}

-- the row that the command adds
abbrev second_row : AuditRow
second_row = record {
  seq = 2;
  at = "t";
  action = "audit.checkpoint_published";
  payload = "";
  prev = noted_tip;
  mac = "0110000000110111111011000110000000101000110011010010110110010001";
}

abbrev mac_of : AuditRow → String
mac_of r = row_mac sealed self r.seq r.at r.action r.payload r.prev

other_macs : mac_of second_row == mac_of first_row ≡ false
unfolding sealed_program
other_macs = refl

-- rows that are the same have the same fields
same_fields :
    (r r' : AuditRow)
    → r ≡ r'
    → (r.seq ≡ r'.seq)
      × (r.at ≡ r'.at)
      × (r.action ≡ r'.action)
      × (r.payload ≡ r'.payload)
      × (r.prev ≡ r'.prev)
same_fields r r' e = (cc e, cc e, cc e, cc e, cc e)

told_apart : Unforgeable sealed self (first_row ∷ second_row ∷ []) (first_row ∷ [])
told_apart r r' (inl e) (inl e') h = same_fields r r' (e ∙ sym e')
told_apart r r' (inr (inl e)) (inl e') h =
    let macs = (eq_iff _ _).1 (sym (ap mac_of e) ∙ h ∙ ap mac_of e') in
    absurd (cc (macs, other_macs))
told_apart r r' (inr (inr m)) q h = absurd m
told_apart r r' p (inr m) h = absurd m

first_published :
    (publish_checkpoint sealed self sink echo_exactly 5 noted).0 ≡ ok ("accepted", (1, noted_tip))
unfolding sealed_program
first_published = refl

chain_follows :
    (verify_audit sealed self (some (record { count = 1; tip = noted_tip })) later.db.audit).valid
    ≡ true
unfolding sealed_program
chain_follows = refl

publish_checkpoint-pins_example :
    Acknowledged 1 noted_tip "accepted"
      (echo_exactly (publication sealed sink echo_exactly 1 noted_tip (sealed.unix_time 5)))
    × ((added : List AuditRow) × (later.db.audit ≡ noted.db.audit ++ added))
unfolding sealed_program
publish_checkpoint-pins_example =
    publish_checkpoint-pins sealed sink echo_exactly self 5 noted "accepted" 1 noted_tip
      later.db.audit told_apart first_published chain_follows
