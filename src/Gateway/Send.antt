-- ===== src/Gateway/Send.antt =====
-- `prepare`, `check` and `send` of `Gateway` in aisecure/gateway.py. `send` is cut where it calls
-- the transport: other requests may run there.
use aisecure.Prelude.{
  ℕ, ◌+◌, ◌-◌, ◌*◌, leb, String, List, [], ◌∷◌, Option, none, some, Bool, true, false, map,
  if◌then◌else◌,
}
use Prim.Native.String.{◌++◌ as text_append}
use aisecure.Result.{Result, ok, err, gateway, require}
use aisecure.Exec.{Exec, pure, lift, ◌>>=◌, ◌>>◌}
use aisecure.Json.{Value, Fields, arr, obj, items, fields, str, bool, with_field}
use aisecure.Preflight.{
  Library, Request, Grant, Decision, DataClass, public, internal, confidential, restricted, unknown,
  Verdict, allow, review, block, Rule, pg001, pg002, pg003, pg004, pg005, pg006, pg007, prompt,
  check_request, evaluate,
}
use aisecure.Text.{codes, take_text}
use aisecure.Platform.{Platform, Bytes}
use aisecure.Gateway.Safety.{Sentinel, assert_clear}
use aisecure.Gateway.Evidence.{State, Evidence, now, append, reserve, finish}
use aisecure.Gateway.Label.{endpoint, valid_text, wire_body, verify_label}

abbrev pub class_text : DataClass → String
class_text public = "public"
class_text internal = "internal"
class_text confidential = "confidential"
class_text restricted = "restricted"
class_text unknown = "unknown"

abbrev pub verdict_text : Verdict → String
verdict_text allow = "allow"
verdict_text review = "review"
verdict_text block = "block"

abbrev pub rule_text : Rule → String
rule_text pg001 = "PG-001"
rule_text pg002 = "PG-002"
rule_text pg003 = "PG-003"
rule_text pg004 = "PG-004"
rule_text pg005 = "PG-005"
rule_text pg006 = "PG-006"
rule_text pg007 = "PG-007"

pub data Mode : Type 0 where
  demo openai : Mode

abbrev pub mode_text : Mode → String
mode_text demo = "demo"
mode_text openai = "openai"

abbrev received : Mode → String
received demo = "demo_received"
received openai = "provider_completed"

pub record Prepared : Type 0 where
  pub text : String
  pub data_class : DataClass
  pub body : String
  pub fingerprint : String
  pub decision : Verdict
  pub report : Fields

pub record Gateway : Type 0 where
  pub public_key : Bytes
  pub model : String
  pub mode : Mode

abbrev pub is_allow : Verdict → Bool
is_allow allow = true
is_allow _ = false

-- `int(digits, 16)` of lower case digits
abbrev pub hex_digit : ℕ → ℕ
hex_digit c = if leb c 57 then c - 48 else c - 87

unfoldable pub hex_from : ℕ → List ℕ → ℕ
hex_from n [] = n
hex_from n (c ∷ cs) = hex_from (16 * n + hex_digit c) cs

abbrev pub hex_value : List ℕ → ℕ
hex_value = hex_from 0

-- the one grant of the gateway's policy
abbrev pub grant : Grant
grant = record { action = prompt; destination = endpoint; data_classes = public ∷ []; tool = none }

-- what `send` hands over when it dispatches
pub data Started : Type 0 where
  -- an earlier report, or one that was not allowed: nothing is sent
  stopped : Value → Started
  dispatch : Prepared → Started

module _ (os : Platform) (lib : Library) where
  module _ (self : Evidence) (g : Gateway) where
    unfoldable pub request_of : String → String → DataClass → Request
    request_of text rid class = record {
      event_id = text_append "EV-" (os.decimal (hex_value (codes (take_text 9 rid))));
      action = prompt;
      destination = endpoint;
      text = text;
      data_class = class;
      tool = none;
    }

    unfoldable pub report_of : Decision → String → DataClass → Fields
    report_of d rid class = fields (
        ("event_id", str d.event_id)
        ∷ ("decision", str (verdict_text d.decision))
        ∷ ("rule_ids", arr (items (map (λ r. str (rule_text r)) d.rule_ids)))
        ∷ ("llm_used", bool false)
        ∷ ("execution_state", str "not_executed")
        ∷ ("coverage", str "submitted_text_action_only")
        ∷ ("request_id", str rid)
        ∷ ("data_class", str (class_text class))
        ∷ ("mode", str (mode_text g.mode))
        ∷ ("kind", str "text_request")
        ∷ [])

    -- `evidence.digest` of the body, a zero byte and the class
    unfoldable pub fingerprint_of : String → DataClass → String
    fingerprint_of body class =
        os.hmac self.key
          (text_append "request\0" (text_append body (text_append "\0" (class_text class))))

    unfoldable pub prepared : String → String → DataClass → Request → Prepared
    prepared text rid class r =
        let d = evaluate lib r (grant ∷ []) in
        record {
          text = text;
          data_class = class;
          body = wire_body os text g.model;
          fingerprint = fingerprint_of (wire_body os text g.model) class;
          decision = d.decision;
          report = report_of d rid class;
        }

    -- `prepare`
    unfoldable pub prepare : String → String → Option Value → Exec State Prepared
    unfolding request_of report_of fingerprint_of prepared
    prepare text rid label = do
      lift (valid_text text rid)
      time ← now os self
      class ← lift (verify_label os g.public_key text rid g.model time label)
      r ← lift (check_request lib (request_of text rid class))
      pure (prepared text rid class r)

    -- `check`
    unfoldable pub check : String → String → Option Value → Exec State Value
    check text rid label = do
      p ← prepare text rid label
      append os self (obj (with_field "kind" (str "inspection") p.report))
      pure (obj p.report)

    abbrev with_state : String → Fields → Value
    with_state state report = obj (with_field "execution_state" (str state) report)

    abbrev pub initial : Prepared → Value
    initial p =
        with_state (if is_allow p.decision then "dispatch_pending" else "prevented_in_gateway")
          p.report

    abbrev pub decide : Prepared → Option Value → Started
    decide p (some prior) = stopped prior
    decide p none = if is_allow p.decision then dispatch p else stopped (initial p)

    -- `send` up to the transport
    unfoldable pub begin_send :
        Sentinel → String → String → Option Value → Bool → Exec State Started
    begin_send stop text rid label consent = do
      lift (require consent gateway)
      p ← prepare text rid label
      lift (assert_clear stop)
      prior ← reserve os self rid p.fingerprint (initial p)
      pure (decide p prior)

    -- the state of the final report: the stop is read again, then the transport is called
    abbrev outcome : Result (Unit {0}) → Option String → String
    outcome (err c) reply = "delivery_unknown"
    outcome (ok _) none = "delivery_unknown"
    outcome (ok _) (some output) = received g.mode

    -- `send` after the transport, whose reply is `none` when it raised
    unfoldable pub finish_send : Sentinel → Option String → String → Prepared → Exec State Value
    finish_send stop reply rid p =
        let final = with_state (outcome (assert_clear stop) reply) p.report in
        (do finish os self rid final; pure final)
