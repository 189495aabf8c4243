-- ===== src/AuditSink/Acknowledged.antt =====
-- What a published checkpoint rests on, and what it pins down later.
use aisecure.Prelude.{
  both_true, ℕ, ◌≡◌, ◌++◌, refl, sym, ap, ◌∙◌, String, List, Option, none, some, Bool, true, ◌&&◌,
  arith, if◌then◌else◌,
}
use mathlib.Core.Path.{subst, subst₂}
use aisecure.Result.{ok_value, Result, ok, err, audit_sink, validation, require, >>=-ok, require_ok}
use aisecure.Exec.{pure}
use aisecure.Exec.Ensures.{bind-ok, lift-ok, reads-ok}
use aisecure.Json.{Value, Fields, null, bool, int, float, str, arr, obj, get}
use aisecure.Platform.{Platform}
use aisecure.Store.Approvals.{holds}
use aisecure.Store.Attested.{holds_text}
use aisecure.Store.State.{State, Store, AuditRow}
use aisecure.Store.Audit.{Verdict, verify_audit, record_entry}
use aisecure.Store.Audit.Chain.{Unforgeable, anchor_pins}
use aisecure.Remote.{Reply, replied, http_error, unreachable, redirected, is_success, equals_number}
use aisecure.AuditSink.{
  AuditSinkConfig, Publication, check_sink, checkpoint_of, check_payload, accepted_status,
  check_acknowledgement, check_reply, publication, publish,
}
use aisecure.AuditSink.Checkpoint.{publish_checkpoint, checkpoint_value, entry_value}

-- a reply that repeats the count and the tip
pub record Acknowledged (count : ℕ) (tip status : String) (reply : Reply) : Type 0 where
  pub code : ℕ
  pub size : ℕ
  pub fs : Fields
  pub answered : reply ≡ replied code size (some (obj fs))
  pub success : is_success code ≡ true
  pub same_count : equals_number count (get "count" fs) ≡ true
  pub same_tip : get "tip" fs ≡ some (str tip)

answer-Acknowledged :
    (count : ℕ) (tip : String) (code size : ℕ) (o : Option Value) (status : String)
    → is_success code ≡ true
    → check_acknowledgement count tip o ≡ ok status
    → Acknowledged count tip status (replied code size o)
unfolding check_acknowledgement
answer-Acknowledged count tip code size (some (obj fs)) status success e =
    let (s, _, e1) = >>=-ok (accepted_status (get "status" fs)) _ status e in
    let (u, echoed, e2) =
      >>=-ok (require (equals_number count (get "count" fs) && holds tip (get "tip" fs)) audit_sink)
        _ status e1 in
    let (same_count, same_tip) = both_true (require_ok _ _ u echoed) in
    record {
      code = code;
      size = size;
      fs = fs;
      answered = refl;
      success = success;
      same_count = same_count;
      same_tip = holds_text "" "" "" tip _ same_tip;
    }
answer-Acknowledged count tip code size (some null) status success e = cc
answer-Acknowledged count tip code size (some (bool x)) status success e = cc
answer-Acknowledged count tip code size (some (int z)) status success e = cc
answer-Acknowledged count tip code size (some (float x)) status success e = cc
answer-Acknowledged count tip code size (some (str s)) status success e = cc
answer-Acknowledged count tip code size (some (arr xs)) status success e = cc
answer-Acknowledged count tip code size none status success e = cc

reply_tests :
    (a b : Bool) (r : Result String) (status : String)
    → (if a then err audit_sink else if b then r else err audit_sink) ≡ ok status
    → (b ≡ true) × (r ≡ ok status)
reply_tests a b r status h = ground arith

reply-Acknowledged :
    (count : ℕ) (tip : String) (reply : Reply) (status : String)
    → check_reply count tip reply ≡ ok status
    → Acknowledged count tip status reply
unfolding check_reply
reply-Acknowledged count tip (replied code size o) status e =
    let (success, e1) = reply_tests _ _ _ status e in
    answer-Acknowledged count tip code size o status success e1
reply-Acknowledged count tip http_error status e = cc
reply-Acknowledged count tip unreachable status e = cc
reply-Acknowledged count tip redirected status e = cc

module _ (os : Platform) (config : AuditSinkConfig) (network : Publication → Reply) where
  -- When `publish` returns a count and a tip, they are those of the checkpoint, which passed its
  -- checks, and the reply to the signed request of them has a status from 200 to 299 and an object
  -- as its body, whose count is equal to the count and whose tip is the tip.
  pub publish-Acknowledged :
      (reading : ℕ) (checkpoint : Value) (status : String) (count : ℕ) (tip : String)
      → publish os config network reading checkpoint ≡ ok (status, (count, tip))
      → (check_payload checkpoint ≡ ok (count, tip))
        × Acknowledged count tip status
            (network (publication os config network count tip (os.unix_time reading)))
  unfolding publish
  publish-Acknowledged reading checkpoint status count tip e =
      let (given, taken, e1) = >>=-ok (check_payload checkpoint) _ (status, (count, tip)) e in
      let (s, repeated, e2) =
        >>=-ok
          (check_reply given.0 given.1
            (network (publication os config network given.0 given.1 (os.unix_time reading))))
          _ (status, (count, tip)) e1 in
      let same = ok_value (s, given) (status, (count, tip)) e2 in
      let x = reply-Acknowledged given.0 given.1 _ s repeated in
      subst
        (λ (q : String × (ℕ × String)).
          (check_payload checkpoint ≡ ok q.1)
          × Acknowledged q.1.0 q.1.1 q.0
              (network (publication os config network q.1.0 q.1.1 (os.unix_time reading))))
        {x = (s, given)} same (taken, x)

  given_checkpoint :
      (count n : ℕ) (tip t : String)
      → check_payload (checkpoint_value count tip) ≡ ok (n, t)
      → (n ≡ count) × (t ≡ tip)
  unfolding check_payload checkpoint_of
  given_checkpoint count n tip t e = ground arith

  pure_ok : {S A : Type 0} (a b : A) (s : S) → (pure a s).0 ≡ ok b → ok a ≡ ok b
  unfolding pure
  pure_ok a b s h = h

  module _ (self : Store) where
    pinned :
        (old rows : List AuditRow) (count : ℕ) (tip : String)
        → Unforgeable os self rows old
        → (verify_audit os self none old).valid ≡ true
        → count ≡ (verify_audit os self none old).count
        → tip ≡ (verify_audit os self none old).tip
        → (verify_audit os self (some (record { count = count; tip = tip })) rows).valid ≡ true
        → (later : List AuditRow) × (rows ≡ old ++ later)
    unfolding verify_audit
    pinned old rows count tip unforgeable valid same_count same_tip h =
        anchor_pins os self old rows unforgeable valid (
          subst₂
            (λ (n : ℕ) (t : String).
              (verify_audit os self (some (record { count = n; tip = t })) rows).valid ≡ true)
            same_count same_tip h)

    -- When the command publish-checkpoint publishes the count and the tip of the store's chain, the
    -- sink has repeated both, and every later table that verifies against the published checkpoint
    -- begins with exactly the rows that the store held before the command. The MAC is taken to
    -- tell the rows of the two tables apart.
    pub publish_checkpoint-pins :
        (reading : ℕ) (s : State) (status : String) (count : ℕ) (tip : String)
        (rows : List AuditRow)
        → Unforgeable os self rows s.db.audit
        → (publish_checkpoint os self config network reading s).0 ≡ ok (status, (count, tip))
        → (verify_audit os self (some (record { count = count; tip = tip })) rows).valid ≡ true
        → Acknowledged count tip status
            (network (publication os config network count tip (os.unix_time reading)))
          × ((later : List AuditRow) × (rows ≡ s.db.audit ++ later))
    unfolding publish_checkpoint
    publish_checkpoint-pins reading s status count tip rows unforgeable e h =
        let answer : String × (ℕ × String) = (status, (count, tip)) in
        let (audit, read, e1, _) =
          reads-ok (λ (t : State). ok (verify_audit os self none t.db.audit)) _ s answer e in
        let (u, valid, e2, _) = lift-ok (require audit.valid validation) _ s answer e1 in
        let (_, _, e3, _) = lift-ok (check_sink config) _ s answer e2 in
        let (result, published, e4, _) =
          lift-ok (publish os config network reading (checkpoint_value audit.count audit.tip)) _ s
            answer e3 in
        let (_, _, e5, _) =
          bind-ok
            (record_entry os self "audit.checkpoint_published"
              (entry_value os self config network audit.count audit.tip))
            _ s answer e4 in
        let (given, acknowledged) =
          publish-Acknowledged reading (checkpoint_value audit.count audit.tip) status count tip
            (published ∙ pure_ok result answer _ e5) in
        let (same_count, same_tip) = given_checkpoint audit.count count audit.tip tip given in
        let same = ok_value _ audit read in
        (
          acknowledged,
          pinned s.db.audit rows count tip unforgeable
              (ap (λ (v : Verdict). v.valid) same ∙ require_ok _ _ u valid)
              (same_count ∙ sym (ap (λ (v : Verdict). v.count) same))
              (same_tip ∙ sym (ap (λ (v : Verdict). v.tip) same)) h,
        )
