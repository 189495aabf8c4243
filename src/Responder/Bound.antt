-- ===== src/Responder/Bound.antt =====
-- When the responder's request is sent, and what an answer that it accepts is bound to.
use aisecure.Prelude.{
  both_true, opposite, ℕ, ◌≡◌, ◌⊎◌, refl, sym, ap, ◌∙◌, inl, inr, String, List, ◌∷◌, Option, none,
  some, Bool, true, false, ◌&&◌, not, mem, arith, ◌==◌, eq_iff, if◌then◌else◌,
}
use aisecure.Result.{ok_value, ok, err, responder, require, >>=-ok, require_ok}
use aisecure.Exec.{Exec, lift, ◌>>=◌}
use aisecure.Exec.Ensures.{lift-ok, lift-after}
use aisecure.Json.{Value, Fields, null, bool, int, float, str, arr, obj, get}
use aisecure.Policy.{Plan, Mode, real, simulation_only, action_text}
use aisecure.Platform.{Platform}
use aisecure.Store.Execution.{Context}
use aisecure.Store.Approvals.{holds}
use aisecure.Store.Attested.{holds_text}
use aisecure.Gateway.Safety.{Sentinel, assert_clear}
use aisecure.Remote.{Reply, replied, http_error, unreachable, redirected, is_success}
use aisecure.Responder.{
  ResponderConfig, Request, is_real, check_payload, stop_clear, status_of, provider_of,
  answer_value, check_answer, check_reply, request_of, post, execute,
}

-- what a request is sent under
pub record Sendable (config : ResponderConfig) (early late : Sentinel) (plan : Plan)
    (context : Context) : Type 0 where
  pub clear_before : assert_clear early ≡ ok tt
  pub clear_at_last : assert_clear late ≡ ok tt
  pub real_mode : plan.execution_mode ≡ real
  pub by_hand : plan.automatic_execution ≡ false
  pub allowed : mem (action_text plan.action) config.allowed_actions ≡ true
  pub payload_fits : check_payload plan context ≡ ok tt

clear_of : (s : Sentinel) (u : Unit {0}) → stop_clear s ≡ ok u → assert_clear s ≡ ok tt
unfolding stop_clear assert_clear
clear_of Sentinel.unset u h = refl
clear_of Sentinel.absent u h = refl
clear_of Sentinel.present u h = cc
clear_of Sentinel.unreadable u h = cc

real_of : (m : Mode) → is_real m ≡ true → m ≡ real
real_of real h = refl
real_of simulation_only h = cc

-- an answer to the request of the name, for the proposal
pub record Bound (request_id proposal_id : String) (reply : Reply) (verified : Bool) (v : Value)
    : Type 0 where
  pub status : ℕ
  pub size : ℕ
  pub fs : Fields
  pub answered : reply ≡ replied status size (some (obj fs))
  pub success : is_success status ≡ true
  pub request : get "request_id" fs ≡ some (str request_id)
  pub proposal : get "proposal_id" fs ≡ some (str proposal_id)
  pub result : get "status" fs ≡ some (str (if verified then "verified" else "failed"))
  pub returned : v ≡ answer_value verified (provider_of (get "provider" fs))

status_text :
    (s : String) (b : Bool)
    → (if s == "verified" then ok true else if s == "failed" then ok false else err responder)
      ≡ ok b
    → s ≡ (if b then "verified" else "failed")
status_text s true h = ground (arith, eq_iff s "verified", eq_iff s "failed")
status_text s false h = ground (arith, eq_iff s "verified", eq_iff s "failed")

status_of-text :
    (o : Option Value) (b : Bool)
    → status_of o ≡ ok b
    → o ≡ some (str (if b then "verified" else "failed"))
unfolding status_of
status_of-text (some (str s)) b h = ap (λ t. some (str t)) (status_text s b h)
status_of-text (some null) b h = cc
status_of-text (some (bool x)) b h = cc
status_of-text (some (int z)) b h = cc
status_of-text (some (float x)) b h = cc
status_of-text (some (arr xs)) b h = cc
status_of-text (some (obj fs)) b h = cc
status_of-text none b h = cc

answer-Bound :
    (request_id proposal_id : String) (status size : ℕ) (o : Option Value) (v : Value)
    → is_success status ≡ true
    → check_answer request_id proposal_id o ≡ ok v
    → (verified : Bool) × Bound request_id proposal_id (replied status size o) verified v
unfolding check_answer
answer-Bound request_id proposal_id status size (some (obj fs)) v success e =
    let (verified, known, e1) = >>=-ok (status_of (get "status" fs)) _ v e in
    let (u, echoed, e2) =
      >>=-ok
        (require
          (holds request_id (get "request_id" fs) && holds proposal_id (get "proposal_id" fs))
          responder)
        _ v e1 in
    let (request, proposal) = both_true (require_ok _ _ u echoed) in
    (
      verified,
      record {
        status = status;
        size = size;
        fs = fs;
        answered = refl;
        success = success;
        request = holds_text "" "" "" request_id _ request;
        proposal = holds_text "" "" "" proposal_id _ proposal;
        result = status_of-text _ verified known;
        returned = sym (ok_value _ v e2);
      },
    )
answer-Bound request_id proposal_id status size (some null) v success e = cc
answer-Bound request_id proposal_id status size (some (bool x)) v success e = cc
answer-Bound request_id proposal_id status size (some (int z)) v success e = cc
answer-Bound request_id proposal_id status size (some (float x)) v success e = cc
answer-Bound request_id proposal_id status size (some (str s)) v success e = cc
answer-Bound request_id proposal_id status size (some (arr xs)) v success e = cc
answer-Bound request_id proposal_id status size none v success e = cc

reply-Bound :
    (request_id proposal_id : String) (reply : Reply) (v : Value)
    → check_reply request_id proposal_id reply ≡ ok v
    → (verified : Bool) × Bound request_id proposal_id reply verified v
unfolding check_reply
reply-Bound request_id proposal_id (replied status size o) v e =
    let success : is_success status ≡ true = ground arith in
    answer-Bound request_id proposal_id status size o v success (rw success at e)
reply-Bound request_id proposal_id http_error v e = cc
reply-Bound request_id proposal_id unreachable v e = cc
reply-Bound request_id proposal_id redirected v e = cc

module _ (os : Platform) (config : ResponderConfig) (network : Request → Reply) where
  module _ (early late : Sentinel) (draw : ℕ) (plan : Plan) (context : Context)
      (sent : List Request) where
    abbrev pub the_request : Request
    the_request =
        request_of os config network (os.token_hex draw 16) (os.unix_time draw) plan context

    -- nothing more is sent, or this one request
    abbrev pub SentOnce : List Request → Type 0
    SentOnce after =
        (after ≡ sent) ⊎ (Sendable config early late plan context × (after ≡ the_request ∷ sent))

    abbrev last_steps : Exec (List Request) Value
    last_steps = post os config network the_request >>= λ reply.
        lift (check_reply (os.token_hex draw 16) context.proposal_id reply)

    sent_now : (last_steps sent).1 ≡ the_request ∷ sent
    unfolding ◌>>=◌ post
    sent_now = refl

    -- A call of the responder sends at most one request. When it sends one, whether it then returns or
    -- raises, it is the request signed for this plan and context, the emergency stop was clear at the
    -- start of the call and again just before, the plan's mode is real and not automatic, its action
    -- is among the allowed ones, and the identifiers, the target and the evidence passed their checks.
    pub execute-SentOnce : SentOnce (execute os config network early late draw plan context sent).1
    unfolding execute post
    execute-SentOnce = lift-after (stop_clear early) _ sent SentOnce (inl refl) λ u clear.
        lift-after (require (is_real plan.execution_mode) responder) _ sent SentOnce (inl refl)
          λ v mode.
            lift-after (require (not plan.automatic_execution) responder) _ sent SentOnce (inl refl)
              λ w hand.
                lift-after
                  (require (mem (action_text plan.action) config.allowed_actions) responder) _ sent
                  SentOnce (inl refl)
                  λ x action.
                    lift-after (check_payload plan context) _ sent SentOnce (inl refl) λ y payload.
                      lift-after (stop_clear late) _ sent SentOnce (inl refl) λ z last. inr (
                        record {
                          clear_before = clear_of early u clear;
                          clear_at_last = clear_of late z last;
                          real_mode = real_of plan.execution_mode (require_ok _ _ v mode);
                          by_hand = opposite plan.automatic_execution (require_ok _ _ w hand);
                          allowed = require_ok _ _ x action;
                          payload_fits = payload;
                        },
                        sent_now,
                      )

    last-Bound :
        (v : Value)
        → (last_steps sent).0 ≡ ok v
        → (verified : Bool) × Bound
            (os.token_hex draw 16)
            context.proposal_id
            (network the_request)
            verified
            v
    unfolding ◌>>=◌ post
    last-Bound v h =
        reply-Bound (os.token_hex draw 16) context.proposal_id (network the_request) v h

    -- When a call of the responder returns, it sent exactly one request, and the reply to it has a
    -- status from 200 to 299 and an object as its body, which repeats the request's identifier and
    -- the proposal's, and whose status, verified or failed, is the one that the call returns.
    pub execute-Bound :
        (v : Value)
        → (execute os config network early late draw plan context sent).0 ≡ ok v
        → (verified : Bool) × Bound
            (os.token_hex draw 16)
            context.proposal_id
            (network the_request)
            verified
            v
          × ((execute os config network early late draw plan context sent).1 ≡ the_request ∷ sent)
    unfolding execute
    execute-Bound v h =
        let (_, _, h1, s1) = lift-ok (stop_clear early) _ sent v h in
        let (_, _, h2, s2) =
          lift-ok (require (is_real plan.execution_mode) responder) _ sent v h1 in
        let (_, _, h3, s3) =
          lift-ok (require (not plan.automatic_execution) responder) _ sent v h2 in
        let (_, _, h4, s4) =
          lift-ok (require (mem (action_text plan.action) config.allowed_actions) responder) _ sent
            v h3 in
        let (_, _, h5, s5) = lift-ok (check_payload plan context) _ sent v h4 in
        let (_, _, h6, s6) = lift-ok (stop_clear late) _ sent v h5 in
        let (verified, x) = last-Bound v h6 in (verified, x, s1 ∙ s2 ∙ s3 ∙ s4 ∙ s5 ∙ s6 ∙ sent_now)
