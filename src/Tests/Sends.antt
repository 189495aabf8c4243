-- ===== src/Tests/Sends.antt =====
-- A text that the gateway dispatches.
use aisecure.Prelude.{◌≡◌, refl, String, [], ◌∷◌, Option, none, some, true, false}
use aisecure.Exec.{◌>>=◌}
use aisecure.Text.{strip, strip_prefix, take_text}
use aisecure.Json.{Value, obj, fields, str, num}
use aisecure.Result.{ok}
use aisecure.Platform.{Platform}
use aisecure.Cipher.{encrypt}
use aisecure.Preflight.{
  Library, public, check_request, is_event_id, is_endpoint, byte_length, evaluate, find_grant,
}
use aisecure.Gateway.Safety.{absent, assert_clear}
use aisecure.Gateway.Evidence.{
  State, Evidence, row_mac, verify_rows, verify, now, sealed, insert_row, insert_receipt,
  append_row, transaction, no_event, count_pending, receipt_of, reserve_new, reserve_if, reserve,
}
use aisecure.Gateway.Label.{valid_text, is_request_id, unb64, wire_body, bound, verify_label}
use aisecure.Gateway.Send.{
  Gateway, Mode, Prepared, dispatch, request_of, prepared, report_of, fingerprint_of, prepare,
  begin_send, hex_from,
}
use aisecure.Gateway.Allowed.{Allowed, begin_send-Allowed}
use aisecure.Tests.Toy.{toy, replicate, push}
use aisecure.Tests.Chains.{document}

abbrev os : Platform
os = record (toy document) { decimal = λ n. "7"; b64decode = λ s. some (replicate 64) }

abbrev library : Library
library = record {
  urlsplit = λ s. some (record {
    host = "api.openai.com";
    port = some none;
    has_credentials = false;
    path = "/v1/responses";
  });
  is_address = λ s. false;
  nfkc = λ s. s;
  finds_secret = λ s. false;
  finds_personal = λ s. false;
}

abbrev evidence : Evidence
evidence = record { key = []; cipher_key = []; limit = 10 }

abbrev gate : Gateway
gate = record { public_key = []; model = "gpt"; mode = Mode.demo }

abbrev rid : String
rid = "0123456789abcdef0123456789abcdef"

abbrev claim : Value
claim = obj (
    fields (
      ("request_id", str rid)
      ∷ ("sha256", str "")
      ∷ ("model", str "gpt")
      ∷ ("endpoint", str "https://api.openai.com/v1/responses")
      ∷ ("policy", str "managed-text-v1")
      ∷ ("data_class", str "public")
      ∷ ("issued_at", num 0)
      ∷ ("expires_at", num 200)
      ∷ []))

abbrev label : Option Value
label = some (obj (fields (("claim", claim) ∷ ("signature", str "AAAA") ∷ [])))

abbrev fresh : State
fresh = record {
  db = record { anchor = ""; anchor_seq = 0; journal = []; receipts = [] };
  readings = 0;
  draws = 0;
}

sent : Prepared
sent =
    prepared os library evidence gate "hello" rid public
      (request_of os library evidence gate "hello" rid public)

sends :
    (begin_send os library evidence gate absent "hello" rid label true fresh).0 ≡ ok (dispatch sent)
unfolding ◌>>=◌ strip take_text encrypt check_request is_event_id is_endpoint byte_length evaluate
    find_grant assert_clear row_mac verify_rows verify now sealed insert_row insert_receipt
    append_row strip_prefix transaction no_event count_pending receipt_of reserve_new reserve_if
    reserve valid_text is_request_id unb64 wire_body bound verify_label request_of prepared
    report_of fingerprint_of prepare begin_send hex_from replicate push sent
sends = refl

begin_send-Allowed_example :
    (true ≡ true)
    × (assert_clear absent ≡ ok tt)
    × Allowed os library evidence gate "hello" rid label fresh sent
begin_send-Allowed_example =
    begin_send-Allowed os library evidence gate absent "hello" rid label true fresh sent sends
